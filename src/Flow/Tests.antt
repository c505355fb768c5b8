-- ===== src/Flow/Tests.antt =====
-- Runs of a flow of src/flow.rs and instances of its theorems: two bytes are written, sent in two
-- datagrams, and the first is acknowledged.
use quicp.Prelude.{◌≤◌, ◌+◌, ◌≡◌, refl, true, false, [], ◌∷◌, ok, arith, none, some}
use quicp.Recovery.{checked_end}
use quicp.Recovery.AckRanges
use quicp.Recovery.AckRanges.{AckRanges, from_wire}
use quicp.Recovery.Replay.{retained, retain}
use quicp.Recovery.Chunks.{insert_chunk, overlaps, last_before}
use quicp.Wire.Control.Payload.{ControlFrame}
use quicp.Flow as Flow
use quicp.Flow.{enqueue, enqueue_ready, queued, request_reset, request_flush}
use quicp.Flow.Task.{
  FlowTask, Recovery, sent, new_task, with_shared, apply_control, apply_max_offset, source_replay,
}
use quicp.Flow.Task.Send.{process_outbound, process_chunk, payload_check, split_front, send_chunk}
use quicp.Flow.Task.Replay.{ReplayTurn, not_carried, at_stage, poll_replay, replay_turn}
use quicp.Flow.Write.{poll_buffered_write, accept_bytes, extend_buffer, poll_send_buffer}
use quicp.Flow.Writing.{Accepts, poll_buffered_write-Accepts}
use quicp.Flow.Exhaustion.{begun, progressed, turns_left, Replays-bounded}
use quicp.Flow.Sending.{Progress}
use quicp.Flow.Reach.{
  Reaches, started, written, controlled, sending, Retains, reaches-Retains, NeverAborts,
  reaches-NeverAborts, reaches-Progress,
}

-- One byte fits a datagram.
abbrev link : Recovery
link = record {
  enabled = true;
  adaptive_required = false;
  max_source_payload = 1;
  max_stream_payload = 64;
  max_ack_ranges = 8;
  send_source = sent;
}

abbrev opened : FlowTask
opened = new_task (Flow.new 1024 256 8 0) 256 true

abbrev wrote : FlowTask
wrote = with_shared opened (queued opened.shared (b'a' ∷ b'b' ∷ []))

wrote-Reaches : Reaches wrote
unfolding enqueue enqueue_ready
wrote-Reaches = written (b'a' ∷ b'b' ∷ []) (omega arith) (started 1024 256 8 0 true)

abbrev credited : FlowTask
credited = with_shared wrote (record wrote.shared { peer_max_offset = 100; task_waker = false })

credited_run : apply_control (λ n. true) link wrote (ControlFrame.max_offset 100) ≡ ok credited
unfolding apply_control apply_max_offset
credited_run = refl

credited-Reaches : Reaches credited
credited-Reaches =
    controlled (λ n. true) link (ControlFrame.max_offset 100) (omega arith) credited_run
      wrote-Reaches

abbrev sent_one : FlowTask
sent_one = record credited {
  replay = retained credited.replay (record { offset = 0; bytes = b'a' ∷ [] });
  replay_timer = true;
  shared = record credited.shared {
    retained_chunks = 2;
    outbound = record { offset = 1; bytes = b'b' ∷ [] } ∷ [];
  };
}

sent_one_run : process_outbound link credited ≡ ok (sent_one, true)
unfolding process_outbound process_chunk payload_check split_front send_chunk retain checked_end
    insert_chunk overlaps last_before
sent_one_run = refl

sent_one-Reaches : Reaches sent_one
sent_one-Reaches = sending link true (omega arith) sent_one_run credited-Reaches

reaches-Retains_example : Retains sent_one
reaches-Retains_example = reaches-Retains sent_one-Reaches

-- The timer has run out, and there is no repair symbol to send.
abbrev timer_out : ReplayTurn
timer_out = record { timer_ready = true; repair_budget = 0; tail = not_carried }

reaches-Progress_example :
    Progress (process_outbound link sent_one) × Progress (poll_replay link timer_out sent_one)
reaches-Progress_example = reaches-Progress link timer_out sent_one (omega arith) sent_one-Reaches

-- The replay goes from the repair symbols to the sources.
replay_run : poll_replay link timer_out sent_one ≡ ok (at_stage sent_one source_replay none, true)
unfolding poll_replay replay_turn
replay_run = refl

abbrev first_acked : AckRanges
first_acked = record (AckRanges.new 8) { contiguous = 1 }

reaches-NeverAborts_example : NeverAborts sent_one first_acked
reaches-NeverAborts_example = reaches-NeverAborts sent_one first_acked sent_one-Reaches

-- Two bytes fit the buffer, so that a write of three takes two, and hands them on.
write_run :
    poll_buffered_write true 2 (opened.shared, []) (b'a' ∷ b'b' ∷ b'c' ∷ [])
    ≡ ((queued opened.shared (b'a' ∷ b'b' ∷ []), []), some (ok 2))
unfolding poll_buffered_write accept_bytes extend_buffer poll_send_buffer enqueue enqueue_ready
write_run = refl

poll_buffered_write-Accepts_example :
    Accepts 2
      (opened.shared, [])
      (b'a' ∷ b'b' ∷ b'c' ∷ [])
      (poll_buffered_write true 2 (opened.shared, []) (b'a' ∷ b'b' ∷ b'c' ∷ []))
poll_buffered_write-Accepts_example =
    poll_buffered_write-Accepts true 2 opened.shared [] (b'a' ∷ b'b' ∷ b'c' ∷ []) (omega arith)
      (omega arith) (omega arith)

Replays-bounded_example :
    1 + turns_left (at_stage sent_one source_replay none) ≤ turns_left sent_one
Replays-bounded_example = Replays-bounded (progressed link timer_out begun replay_run)
