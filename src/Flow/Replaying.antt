-- ===== src/Flow/Replaying.antt =====
-- A turn of the replay of src/flow.rs keeps what the flow retains.
use quicp.Prelude.{
  ℕ, ◌+◌, ◌^◌, ◌≤◌, ◌≡◌, false, not, Option, none, some, List, [], ◌∷◌, leb, ltb, ◌==◌, ◌||◌, ◌&&◌,
  if_of_both, length, arith,
}
use quicp.Wire.{max_wire_offset}
use quicp.Recovery.Chunks.{Chunk, Disjoint}
use quicp.Recovery.Replay.{ReplayBuffer, first, first_after, next_chunk_after}
use quicp.Flow.{is_some}
use quicp.Flow.Task.{FlowTask, Recovery, SendResult, sent, blocked, unsupported, lost}
use quicp.Flow.Task.Replay.{
  TailResult, repairs, not_carried, tail_failed, ReplayTurn, fall_back_chunk, has_wire,
  reliable_turn, resend_chunk, is_fallback, is_repair, source_turn, repair_turn, replay_turn,
  poll_replay,
}
use quicp.Flow.Retention.{IsRetained}
use quicp.Flow.Sending.{Progress, goes_on, no_datagram}

-- The chunk ends within the offsets.
abbrev Ends : Option Chunk → Type 0
Ends none = Unit {0}
Ends (some c) = c.offset + length c.bytes ≤ max_wire_offset

first_after-Ends : (last low : ℕ) (cs : List Chunk) → Disjoint low cs → Ends (first_after last cs)
unfolding first_after
first_after-Ends last low [] v = tt
first_after-Ends last low (c ∷ cs) v =
    if_of_both Ends (ltb last c.offset) (λ _. v.2)
      (λ _. first_after-Ends last (c.offset + length c.bytes) cs v.3)

first-Ends : (low : ℕ) (cs : List Chunk) → Disjoint low cs → Ends (first cs)
first-Ends low [] v = tt
first-Ends low (c ∷ cs) v = v.2

next_chunk_after-Ends :
    (b : ReplayBuffer) (cursor : Option ℕ) → Disjoint 0 b.chunks → Ends (next_chunk_after b cursor)
unfolding next_chunk_after
next_chunk_after-Ends b none v = first-Ends 0 b.chunks v
next_chunk_after-Ends b (some last) v = first_after-Ends last 0 b.chunks v

fall_back_chunk-Progress :
    (t : FlowTask) (next : Option Chunk) (frontier : ℕ)
    → IsRetained t frontier
    → Ends next
    → Progress (fall_back_chunk t next)
unfolding fall_back_chunk
fall_back_chunk-Progress t none frontier v h = goes_on frontier v
fall_back_chunk-Progress t (some c) frontier v h =
    let small : leb (2 ^ 64) (c.offset + length c.bytes) ≡ false = ground (arith, h) in
    rw small (goes_on frontier v)

reliable_turn-Progress :
    (t : FlowTask) (frontier : ℕ) → IsRetained t frontier → Progress (reliable_turn t)
unfolding reliable_turn
reliable_turn-Progress t frontier v =
    if_of_both Progress (is_some t.wire_current || has_wire t.wire_queue) (λ _. goes_on frontier v)
      (λ _.
        fall_back_chunk-Progress t (next_chunk_after t.replay t.replay_cursor) frontier v
          (next_chunk_after-Ends t.replay t.replay_cursor v.replay_inv.disjoint))

resend_chunk-Progress :
    (t : FlowTask) (next : Option Chunk) (result : SendResult) (frontier : ℕ)
    → IsRetained t frontier
    → Progress (resend_chunk t next result)
unfolding resend_chunk
resend_chunk-Progress t none result frontier v = goes_on frontier v
resend_chunk-Progress t (some c) sent frontier v = goes_on frontier v
resend_chunk-Progress t (some c) blocked frontier v = goes_on frontier v
resend_chunk-Progress t (some c) unsupported frontier v = no_datagram
resend_chunk-Progress t (some c) lost frontier v = no_datagram

source_turn-Progress :
    (r : Recovery) (t : FlowTask) (frontier : ℕ)
    → IsRetained t frontier
    → Progress (source_turn r t)
unfolding source_turn
source_turn-Progress r t frontier v =
    if_of_both Progress (not (is_fallback t.replay_stage) && t.datagram_enabled)
      (λ _.
        resend_chunk-Progress t (next_chunk_after t.replay t.replay_cursor) r.send_source frontier
          v)
      (λ _. reliable_turn-Progress t frontier v)

repair_turn-Progress :
    (r : Recovery) (t : FlowTask) (tail : TailResult) (frontier : ℕ)
    → IsRetained t frontier
    → Progress (repair_turn r t tail)
unfolding repair_turn
repair_turn-Progress r t (repairs n) frontier v =
    if_of_both Progress (n == 0) (λ _. source_turn-Progress r t frontier v)
      (λ _. goes_on frontier v)
repair_turn-Progress r t not_carried frontier v =
    if_of_both Progress r.adaptive_required (λ _. no_datagram)
      (λ _. source_turn-Progress r (record t { datagram_enabled = false }) frontier v)
repair_turn-Progress r t tail_failed frontier v = no_datagram

replay_turn-Progress :
    (r : Recovery) (turn : ReplayTurn) (t : FlowTask) (frontier : ℕ)
    → IsRetained t frontier
    → Progress (replay_turn r turn t)
unfolding replay_turn
replay_turn-Progress r turn t frontier v =
    if_of_both Progress (not (t.replay_timer && turn.timer_ready)) (λ _. goes_on frontier v)
      (λ _.
        if_of_both Progress (t.replay.bytes == 0) (λ _. goes_on frontier v)
          (λ _.
            if_of_both Progress (is_repair t.replay_stage && t.datagram_enabled)
              (λ _.
                if_of_both Progress (turn.repair_budget == 0) (λ _. goes_on frontier v)
                  (λ _. repair_turn-Progress r t turn.tail frontier v))
              (λ _. source_turn-Progress r t frontier v)))

pub poll_replay-Progress :
    (r : Recovery) (turn : ReplayTurn) (t : FlowTask) (frontier : ℕ)
    → IsRetained t frontier
    → Progress (poll_replay r turn t)
unfolding poll_replay
poll_replay-Progress r turn t frontier v =
    if_of_both (λ (u : FlowTask). Progress (replay_turn r turn u))
      (t.datagram_enabled && not r.enabled)
      (λ _. replay_turn-Progress r turn (record t { datagram_enabled = false }) frontier v)
      (λ _. replay_turn-Progress r turn t frontier v)
