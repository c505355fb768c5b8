-- ===== src/Flow/Turns.antt =====
-- What the task of a flow of src/flow.rs does about acknowledgements, written frames and the end of the
-- flow keeps what the flow retains.
use quicp.Prelude.{
  ℕ, Bool, not, Option, none, some, List, [], ◌∷◌, ◌==◌, ◌&&◌, if_of_both, Option-cases, inl, inr,
}
use quicp.Recovery.{Range}
use quicp.Flow.Task.{FlowTask, WireEntry}
use quicp.Flow.Task.Send.{is_empty}
use quicp.Flow.Task.Frames.{
  queue_pending_feedback, take_wire, next_wire, frame_written, queue_terminal_frames,
  terminal_frames, finish_send_if_ready, nothing_pending, acknowledge_to, flush_to,
}
use quicp.Flow.Retention.{IsRetained}

pub feedback-IsRetained :
    (t : FlowTask) (timer_ready : Bool) (frontier : ℕ)
    → IsRetained t frontier
    → IsRetained (queue_pending_feedback t timer_ready) frontier
unfolding queue_pending_feedback
feedback-IsRetained t timer_ready frontier v = v

terminal_frames-IsRetained :
    (t : FlowTask) (target : Option ℕ) (frontier : ℕ)
    → IsRetained t frontier
    → IsRetained (terminal_frames t target) frontier
unfolding terminal_frames
terminal_frames-IsRetained t none frontier v = v
terminal_frames-IsRetained t (some target) frontier v =
    if_of_both (λ (u : FlowTask). IsRetained u frontier)
      (not t.fin_queued && is_empty t.shared.outbound)
      (λ _.
        if_of_both (λ (u : FlowTask). IsRetained u frontier) (t.replay.bytes == 0) (λ _. v)
          (λ _. v))
      (λ _. v)

pub queue_terminal_frames-IsRetained :
    (t : FlowTask) (frontier : ℕ)
    → IsRetained t frontier
    → IsRetained (queue_terminal_frames t) frontier
unfolding queue_terminal_frames
queue_terminal_frames-IsRetained t frontier v =
    terminal_frames-IsRetained t t.shared.shutdown_target frontier v

pub finish_send-IsRetained :
    (t : FlowTask) (frontier : ℕ)
    → IsRetained t frontier
    → IsRetained (finish_send_if_ready t) frontier
unfolding finish_send_if_ready
finish_send-IsRetained t frontier v =
    if_of_both (λ (u : FlowTask). IsRetained u frontier) (t.fin_queued && nothing_pending t)
      (λ _. v) (λ _. v)

next_wire-IsRetained :
    (t : FlowTask) (queue : List WireEntry) (ack : Option (ℕ × List Range)) (credit : Option ℕ)
    (frontier : ℕ)
    → IsRetained t frontier
    → IsRetained (next_wire t queue ack credit) frontier
unfolding next_wire
next_wire-IsRetained t (entry ∷ queue) ack credit frontier v = v
next_wire-IsRetained t [] (some (contiguous, ranges)) credit frontier v = v
next_wire-IsRetained t [] none (some maximum) frontier v = v
next_wire-IsRetained t [] none none frontier v = v

pub take_wire-IsRetained :
    (t : FlowTask) (frontier : ℕ) → IsRetained t frontier → IsRetained (take_wire t) frontier
unfolding take_wire
take_wire-IsRetained t frontier v = elim (Option-cases t.wire_current) [
  | inr (entry, e) ↦ rw (e, take_wire) v
  | inl e ↦
      rw (e, take_wire)
        (next_wire-IsRetained t t.wire_queue t.pending_ack t.pending_credit frontier v)
]

settle_entry-IsRetained :
    (t : FlowTask) (flushed acked : Option ℕ) (frontier : ℕ)
    → IsRetained t frontier
    → IsRetained
        (acknowledge_to
          (record t { wire_current = none; shared = flush_to t.shared flushed })
          acked)
        frontier
settle_entry-IsRetained t none none frontier v = v
settle_entry-IsRetained t none (some acked) frontier v = v
settle_entry-IsRetained t (some flushed) none frontier v = v
settle_entry-IsRetained t (some flushed) (some acked) frontier v = v

pub frame_written-IsRetained :
    (t : FlowTask) (frontier : ℕ) → IsRetained t frontier → IsRetained (frame_written t) frontier
unfolding frame_written
frame_written-IsRetained t frontier v = elim (Option-cases t.wire_current) [
  | inl e ↦ rw (e, frame_written) v
  | inr (entry, e) ↦
      rw (e, frame_written)
        (settle_entry-IsRetained t entry.flushed_offset entry.acked_offset frontier v)
]
