-- ===== src/Flow/Task/Frames.antt =====
-- The frames of the task of src/flow.rs on their way: feedback, the wire and the end of a flow.
use quicp.Prelude.{
  ℕ, max, Bool, true, false, not, Option, none, some, List, [], ◌∷◌, ◌++◌, map, leb, ◌==◌, ◌||◌,
  ◌&&◌, if◌then◌else◌,
}
use quicp.Wire.Control.Payload.{ControlFrame}
use quicp.Recovery.{Range}
use quicp.Recovery.Reassembler.{acknowledge_consumed}
use quicp.Flow.{FlowShared, logical_ack_threshold}
use quicp.Flow.Task.{FlowTask, WireEntry}
use quicp.Flow.Task.Send.{is_empty}

-- `queue_pending_feedback`. `timer_ready` is whether the timer of the delayed acknowledgement, which
-- is set when it is missing, has run out.
unfoldable pub queue_pending_feedback : FlowTask → (timer_ready : Bool) → FlowTask
queue_pending_feedback t timer_ready =
    let due =
      not (t.shared.ack_pending == 0)
      && (leb logical_ack_threshold t.shared.ack_pending || timer_ready) in
    record t {
      shared = record t.shared {
        ack_pending = if due then 0 else t.shared.ack_pending;
        credit_dirty = false;
      };
      pending_ack =
          if due
          then some (t.shared.received.contiguous, t.shared.received.ranges)
          else t.pending_ack;
      pending_credit =
          if t.shared.credit_dirty then some t.shared.max_receive_offset else t.pending_credit;
    }

-- The next frame that `poll_wire` writes.
abbrev pair_of : Range → ℕ × ℕ
pair_of r = (r.start, r.end)

abbrev plain : ControlFrame → WireEntry
plain frame = record { frame = frame; flushed_offset = none; acked_offset = none }

unfoldable pub next_wire : FlowTask → List WireEntry → Option (ℕ × List Range) → Option ℕ → FlowTask
next_wire t (entry ∷ queue) ack credit = record t { wire_queue = queue; wire_current = some entry }
next_wire t [] (some (contiguous, ranges)) credit = record t {
  pending_ack = none;
  wire_current = some (record {
    frame = ControlFrame.ack contiguous (map pair_of ranges);
    flushed_offset = none;
    acked_offset = some contiguous;
  });
}
next_wire t [] none (some maximum) = record t {
  pending_credit = none;
  wire_current = some (plain (ControlFrame.max_offset maximum));
}
next_wire t [] none none = t

unfoldable pub take_wire : FlowTask → FlowTask
unfolding next_wire
take_wire t = elim t.wire_current [
  | some entry ↦ t
  | none ↦ next_wire t t.wire_queue t.pending_ack t.pending_credit
]

abbrev pub flush_to : FlowShared → Option ℕ → FlowShared
flush_to s none = s
flush_to s (some offset) = record s {
  flushed_offset = max s.flushed_offset offset;
  write_waker = false;
}

abbrev pub acknowledge_to : FlowTask → Option ℕ → FlowTask
acknowledge_to t none = t
acknowledge_to t (some offset) = record t {
  shared = record t.shared { receive = acknowledge_consumed t.shared.receive offset };
  acked_receive_offset = max t.acked_receive_offset offset;
}

-- What `poll_wire` does when the current frame is written to its end.
unfoldable pub frame_written : FlowTask → FlowTask
frame_written t = elim t.wire_current [
  | none ↦ t
  | some entry ↦
      acknowledge_to
        (record t { wire_current = none; shared = flush_to t.shared entry.flushed_offset })
        entry.acked_offset
]

unfoldable pub terminal_frames : FlowTask → Option ℕ → FlowTask
terminal_frames t none = t
terminal_frames t (some final_offset) =
    if not t.fin_queued && is_empty t.shared.outbound
    then (if t.replay.bytes == 0
        then record t {
          wire_queue = t.wire_queue ++ plain (ControlFrame.fin final_offset) ∷ [];
          fin_queued = true;
        }
        else record t { replay_timer = t.replay_timer || t.datagram_enabled })
    else t

-- `queue_terminal_frames`
unfoldable pub queue_terminal_frames : FlowTask → FlowTask
unfolding terminal_frames
queue_terminal_frames t = terminal_frames t t.shared.shutdown_target

abbrev reached_final : Option ℕ → (contiguous acked : ℕ) → Bool
reached_final none contiguous acked = false
reached_final (some final) contiguous acked = (contiguous == final) && leb final acked

unfoldable pub final_ack_written : FlowShared → (acked_receive_offset : ℕ) → Bool
final_ack_written s acked =
    reached_final s.receive_final_offset s.received.contiguous acked && s.ack_pending == 0

abbrev pub nothing_pending : FlowTask → Bool
nothing_pending t = elim t.wire_current [
  | some e ↦ false
  | none ↦ elim t.wire_queue [
    | e ∷ q ↦ false
    | [] ↦ elim t.pending_ack [
      | some a ↦ false
      | none ↦ elim t.pending_credit [ some c ↦ false | none ↦ true ]
    ]
  ]
]

-- `finish_send_if_ready`, where the transport accepts the end of the stream.
unfoldable pub finish_send_if_ready : FlowTask → FlowTask
unfolding final_ack_written
finish_send_if_ready t =
    if t.fin_queued && nothing_pending t
    then record t {
      shared = record t.shared {
        shutdown_done = true;
        write_waker = t.shared.write_waker && t.shared.shutdown_done;
      };
      send_finished = t.send_finished || final_ack_written t.shared t.acked_receive_offset;
    }
    else t
