-- ===== src/Flow/Sending.antt =====
-- A turn of the send side of src/flow.rs: the replay buffer has room for whatever the task sends.
use quicp.Prelude.{
  ℕ, ◌+◌, ◌-◌, ◌^◌, ◌<◌, ◌≤◌, ◌≡◌, refl, sym, min, Bool, true, false, not, Option, none, some, List,
  [], ◌∷◌, Result, ok, err, and_then, leb, leb→le, ◌&&◌, ◌==◌, if_of_both, length, drop,
  length-take, length-drop, arith,
}
use mathlib.Core.Path.{subst}
use quicp.Wire.{max_wire_offset}
use quicp.Recovery.Chunks.{Chunk, insert_chunk-Disjoint}
use quicp.Recovery.Replay.{ReplayBuffer, retained, retain}
use quicp.Recovery.Replay.Inv.{retain_accepts}
use quicp.Flow.{FlowShared}
use quicp.Flow.Task.{
  FlowTask, FlowTaskError, datagram, connection, SendResult, sent, blocked, unsupported, lost,
  Recovery,
}
use quicp.Flow.Task.Send.{
  flushed, reached, is_empty, still_enabled, split_front, fall_back, send_chunk, send_split,
  payload_check, payload_limit, process_chunk, process_outbound, with_outbound,
}
use quicp.Flow.Retention.{
  Queues, IsRetained, Chain-weaken, Before-weaken, Before-insert_chunk, behind-meets,
}

-- A chunk in hand, in front of those that wait.
InHand : FlowTask → Chunk → (frontier : ℕ) → Type 0
InHand t c frontier =
    Queues t (c ∷ t.shared.outbound) frontier × (c.offset + length c.bytes ≤ max_wire_offset)

-- There is room for it, and with it the flow retains what it did.
retain-Retention :
    (t : FlowTask) (c : Chunk) (frontier : ℕ)
    → InHand t c frontier
    → (retain t.replay c ≡ ok (retained t.replay c))
      × Queues
          (record t { replay = retained t.replay c })
          t.shared.outbound
          (c.offset + length c.bytes)
unfolding InHand
retain-Retention t c frontier (q, fits) =
    let apart =
      behind-meets frontier c.offset (c.offset + length c.bytes) t.replay.chunks q.behind
        q.waiting.0 in
    let (disjoint, total, count) =
      insert_chunk-Disjoint 0 c t.replay.chunks (omega arith) q.waiting.1 fits q.replay_inv.disjoint
        apart in
    (
      (retain_accepts t.replay c q.replay_inv).1 (
        fits,
        q.waiting.1,
        omega (arith, q.byte_count, q.bytes_bounded, q.same_limit, q.replay_inv.counted),
        omega (arith, q.chunk_count, q.chunks_bounded, q.same_places),
        apart,
      ),
      record {
        waiting = q.waiting.2;
        behind = Before-insert_chunk (c.offset + length c.bytes) c t.replay.chunks (omega arith) (
            Before-weaken frontier (c.offset + length c.bytes) t.replay.chunks
              (omega (arith, q.waiting.0)) q.behind);
        replay_inv = record {
          disjoint = disjoint;
          counted = omega (arith, total, q.replay_inv.counted);
          bytes_bounded =
              omega (arith, q.byte_count, q.bytes_bounded, q.same_limit, q.replay_inv.counted);
          chunks_bounded = omega (arith, count, q.chunk_count, q.chunks_bounded, q.same_places);
        };
        byte_count = omega (arith, total, q.byte_count);
        chunk_count = omega (arith, count, q.chunk_count);
        bytes_bounded = q.bytes_bounded;
        chunks_bounded = q.chunks_bounded;
        same_limit = q.same_limit;
        same_places = q.same_places;
        peer_bounded = q.peer_bounded;
      },
    )

-- A chunk was cut off, or there is no place for what is left of it.
data Split (frontier : ℕ) : Option (FlowTask × Chunk) → Type 0 where
  no_place : Split frontier none
  cut : {t : FlowTask} {c : Chunk} → InHand t c frontier → Split frontier (some (t, c))

split_front-Split :
    (t : FlowTask) (c : Chunk) (rest : List Chunk) (n frontier : ℕ)
    → 0 < n
    → c.offset + n ≤ max_wire_offset
    → Queues t (c ∷ rest) frontier
    → Split frontier (split_front t c rest n)
unfolding split_front InHand
split_front-Split t c rest n frontier positive fits q =
    if_of_both (Split frontier) (leb (length c.bytes) n)
      (λ e. cut (q, omega (arith, fits, leb→le (length c.bytes) n e)))
      (λ e.
        if_of_both (Split frontier) (leb t.shared.replay_chunk_limit t.shared.retained_chunks)
          (λ _. no_place)
          (λ full.
            let longer : n < length c.bytes = ground (arith, e) in
            let front = length-take n c.bytes in
            let back = length-drop n c.bytes in
            cut (
              record {
                waiting = (
                  q.waiting.0,
                  omega (arith, front, positive, longer),
                  (
                    omega (arith, front, longer),
                    omega (arith, back, longer),
                    Chain-weaken (c.offset + length c.bytes)
                        (c.offset + n + length (drop n c.bytes)) rest t.shared.next_send_offset
                        (omega (arith, back, longer)) q.waiting.2,
                  ),
                );
                behind = q.behind;
                replay_inv = q.replay_inv;
                byte_count = omega (arith, front, back, longer, q.byte_count);
                chunk_count = omega (arith, q.chunk_count);
                bytes_bounded = q.bytes_bounded;
                chunks_bounded = ground (arith, full);
                same_limit = q.same_limit;
                same_places = q.same_places;
                peer_bounded = q.peer_bounded;
              },
              omega (arith, front, longer, fits),
            )))

-- What a turn of the task may come to: it goes on, and retains what it did, or the connection cannot
-- carry the flow.
pub data Progress : Result (FlowTask × Bool) FlowTaskError → Type 0 where
  goes_on : {t : FlowTask} {b : Bool} (frontier : ℕ) → IsRetained t frontier → Progress (ok (t, b))
  no_datagram : Progress (err datagram)
  no_connection : Progress (err connection)

fall_back-Progress :
    (t : FlowTask) (c : Chunk) (frontier : ℕ) → InHand t c frontier → Progress (fall_back t c)
unfolding fall_back
fall_back-Progress t c frontier h =
    let (ran, kept) = retain-Retention t c frontier h in
    rw ran (goes_on (c.offset + length c.bytes) kept)

flushed-Queues :
    (t : FlowTask) (replay : ReplayBuffer) (end frontier : ℕ)
    → Queues (record t { replay = replay }) t.shared.outbound frontier
    → IsRetained
        (record t { replay = replay; replay_timer = true; shared = flushed t.shared end })
        frontier
flushed-Queues t replay end frontier h =
    if_of_both
      (λ (s : FlowShared).
        IsRetained (record t { replay = replay; replay_timer = true; shared = s }) frontier)
      (reached t.shared.flush_target end && is_empty t.shared.outbound) (λ _. h) (λ _. h)

InHand-Queues :
    (t : FlowTask) (c : Chunk) (frontier : ℕ)
    → InHand t c frontier
    → IsRetained (with_outbound t (c ∷ t.shared.outbound)) frontier
unfolding InHand
InHand-Queues t c frontier h = h.0

send_chunk-Progress :
    (r : Recovery) (t : FlowTask) (c : Chunk) (result : SendResult) (frontier : ℕ)
    → InHand t c frontier
    → Progress (send_chunk r t c result)
unfolding send_chunk InHand
send_chunk-Progress r t c sent frontier h =
    let (ran, kept) = retain-Retention t c frontier h in
    rw ran (
      goes_on (c.offset + length c.bytes) (
        flushed-Queues t (retained t.replay c) (c.offset + length c.bytes)
          (c.offset + length c.bytes) kept))
send_chunk-Progress r t c blocked frontier h =
    goes_on {t = with_outbound t (c ∷ t.shared.outbound)} frontier (InHand-Queues t c frontier h)
send_chunk-Progress r t c unsupported frontier h =
    if_of_both Progress r.adaptive_required (λ _. no_datagram)
      (λ _. fall_back-Progress (record t { datagram_enabled = false }) c frontier h)
send_chunk-Progress r t c lost frontier h = no_connection

InHand-small :
    (t : FlowTask) (c : Chunk) (frontier : ℕ)
    → InHand t c frontier
    → leb (2 ^ 64) (c.offset + length c.bytes) ≡ false
unfolding InHand
InHand-small t c frontier (q, fits) = ground arith

send_split-Progress :
    (r : Recovery) (t : FlowTask) (split : Option (FlowTask × Chunk)) (frontier : ℕ)
    → IsRetained t frontier
    → Split frontier split
    → Progress (send_split r t split)
send_split-Progress r t split frontier h no_place = goes_on frontier h
send_split-Progress r t split frontier h (cut {t = t'} {c} k) =
    let small : leb (2 ^ 64) (c.offset + length c.bytes) ≡ false = InHand-small t' c frontier k in
    rw small (
      if_of_both Progress t'.datagram_enabled
        (λ _. send_chunk-Progress r t' c r.send_source frontier k)
        (λ _. fall_back-Progress t' c frontier k))

-- The check passes with a positive payload limit, or ends the flow.
data Checked (r : Recovery) (t : FlowTask) : Result FlowTask FlowTaskError → Type 0 where
  passed :
      (d : Bool)
      → 0 < payload_limit r (record t { datagram_enabled = d })
      → Checked r t (ok (record t { datagram_enabled = d }))
  refused : Checked r t (err datagram)

payload_check-Checked :
    (r : Recovery) (t : FlowTask) → 0 < r.max_stream_payload → Checked r t (payload_check r t)
unfolding payload_check
payload_check-Checked r t h =
    if_of_both (Checked r t) (t.datagram_enabled && r.max_source_payload == 0)
      (λ _. if_of_both (Checked r t) r.adaptive_required (λ _. refused) (λ _. passed false h))
      (λ e. passed t.datagram_enabled (ground arith))

checked-Progress :
    (r : Recovery) (t : FlowTask) (c : Chunk) (rest : List Chunk) (frontier : ℕ)
    (m : Result FlowTask FlowTaskError)
    → c.offset < t.shared.peer_max_offset
    → t.shared.outbound ≡ c ∷ rest
    → Queues t (c ∷ rest) frontier
    → Checked r t m
    → Progress (
        and_then m λ t'. send_split r t' (
          split_front t' c rest (
            min (min (payload_limit r t') (t.shared.peer_max_offset - c.offset)) (length c.bytes))))
checked-Progress r t c rest frontier m credit same q refused = no_datagram
checked-Progress r t c rest frontier m credit same q (passed d positive) =
    let n : ℕ =
      min
        (min (payload_limit r (record t { datagram_enabled = d }))
          (t.shared.peer_max_offset - c.offset))
        (length c.bytes) in
    let some_bytes : 0 < n = omega (arith, positive, credit, q.waiting.1) in
    let within : c.offset + n ≤ max_wire_offset = omega (arith, credit, q.peer_bounded) in
    send_split-Progress r (record t { datagram_enabled = d })
      (split_front (record t { datagram_enabled = d }) c rest n) frontier
      (subst (λ o. Queues t o frontier) (sym same) q)
      (split_front-Split (record t { datagram_enabled = d }) c rest n frontier some_bytes within q)

process_chunk-Progress :
    (r : Recovery) (t : FlowTask) (outbound : List Chunk) (frontier : ℕ)
    → 0 < r.max_stream_payload
    → t.shared.outbound ≡ outbound
    → Queues t outbound frontier
    → Progress (process_chunk r t outbound)
unfolding process_chunk
process_chunk-Progress r t [] frontier h same q =
    goes_on frontier (subst (λ o. Queues t o frontier) (sym same) q)
process_chunk-Progress r t (c ∷ rest) frontier h same q =
    if_of_both Progress (leb t.shared.peer_max_offset c.offset)
      (λ _. goes_on frontier (subst (λ o. Queues t o frontier) (sym same) q))
      (λ e.
        checked-Progress r t c rest frontier (payload_check r t) (ground arith) same q
          (payload_check-Checked r t h))

-- A flow's retention is accounted for and the stream takes some payload. Whatever the connection
-- answers, a turn of the send side goes on with the retention accounted for, or ends because the
-- connection cannot carry the flow: the replay buffer never refuses the bytes that are sent, and no
-- offset overflows.
pub process_outbound-Progress :
    (r : Recovery) (t : FlowTask) (frontier : ℕ)
    → 0 < r.max_stream_payload
    → IsRetained t frontier
    → Progress (process_outbound r t)
unfolding process_outbound
process_outbound-Progress r t frontier h v =
    let enabled : FlowTask = still_enabled r t in
    if_of_both (λ (u : FlowTask). Progress (process_chunk r u u.shared.outbound))
      (t.datagram_enabled && not r.enabled)
      (λ _.
        process_chunk-Progress r (record t { datagram_enabled = false }) t.shared.outbound frontier
          h refl v)
      (λ _. process_chunk-Progress r t t.shared.outbound frontier h refl v)
