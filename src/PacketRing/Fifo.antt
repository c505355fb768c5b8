-- ===== src/PacketRing/Fifo.antt =====
-- The ring of src/packet_ring.rs against a bounded queue of packets, which knows no buffers.
use quicp.Prelude.{
  ℕ, ◌+◌, ◌≡◌, refl, ap, sym, ◌∙◌, List, [], ◌∷◌, ◌++◌, length, length-append, length-replicate,
  Option, none, some, Result, ok, err, ltb, arith, if◌then◌else◌,
}
use mathlib.Core.Path.{subst, ap₂}
use quicp.PacketRing.{
  PacketRing, RingError, too_large, full, buffer_too_small, new, write, recycle, consume_write,
  push_copy, pop_into,
}
use quicp.PacketRing.Pool.{new-eq_ok}

pub data Call : Type 0 where
  push : List ℕ → Call
  pop : (output_len : ℕ) → Call

pub data Answer : Type 0 where
  pushed : Answer
  popped : Option (List ℕ) → Answer
  refused : RingError → Answer

abbrev answer_push : PacketRing → Result PacketRing RingError → Answer × PacketRing
answer_push r (ok r') = (pushed, r')
answer_push r (err e) = (refused e, r)

abbrev answer_pop :
    PacketRing → Result (Option (List ℕ) × PacketRing) RingError → Answer × PacketRing
answer_pop r (ok (packet, r')) = (popped packet, r')
answer_pop r (err e) = (refused e, r)

unfoldable pub answer : PacketRing → Call → Answer × PacketRing
answer r (push packet) = answer_push r (push_copy r packet)
answer r (pop output_len) = answer_pop r (pop_into r output_len)

unfoldable pub answers : PacketRing → List Call → List Answer
answers r [] = []
answers r (call ∷ calls) = let (a, r') = answer r call in a ∷ answers r' calls

-- A bounded queue: what it says to a call, and the packets that it holds afterwards.
unfoldable pub queue_answer :
    (capacity slot_capacity : ℕ) → List (List ℕ) → Call → Answer × List (List ℕ)
queue_answer capacity slot_capacity packets (push packet) =
    if ltb slot_capacity (length packet)
    then (refused (too_large (length packet) slot_capacity), packets)
    else (if ltb (length packets) capacity
        then (pushed, packets ++ (packet ∷ []))
        else (refused full, packets))
queue_answer capacity slot_capacity [] (pop output_len) = (popped none, [])
queue_answer capacity slot_capacity (packet ∷ packets) (pop output_len) =
    if ltb output_len (length packet)
    then (refused (buffer_too_small (length packet) output_len), packet ∷ packets)
    else (popped (some packet), packets)

unfoldable pub queue_answers :
    (capacity slot_capacity : ℕ) → List (List ℕ) → List Call → List Answer
queue_answers capacity slot_capacity packets [] = []
queue_answers capacity slot_capacity packets (call ∷ calls) =
    let (a, packets') = queue_answer capacity slot_capacity packets call in
    a ∷ queue_answers capacity slot_capacity packets' calls

-- A ring without leases stands for the queue of its queued packets.
abbrev Stands : ℕ → ℕ → List (List ℕ) → PacketRing → Type 0
Stands capacity slot_capacity packets r =
    (r.queued ≡ packets)
    × (r.slot_capacity ≡ slot_capacity)
    × (length packets + length r.free ≡ capacity)

abbrev ring : List (List ℕ) → List (List ℕ) → ℕ → PacketRing
ring queued free slot_capacity = record {
  queued = queued;
  free = free;
  slot_capacity = slot_capacity;
}

-- The ring answers a call as the queue does, and stands for what the queue then holds.
abbrev Simulates : ℕ → ℕ → PacketRing → Call → Type 0
Simulates capacity slot r call =
    ((answer r call).0 ≡ (queue_answer capacity slot r.queued call).0)
    × Stands capacity slot (queue_answer capacity slot r.queued call).1 (answer r call).1

push_simulated :
    (queued free : List (List ℕ)) (slot : ℕ) (packet : List ℕ)
    → Simulates (length queued + length free) slot (ring queued free slot) (push packet)
unfolding answer queue_answer push_copy write consume_write
push_simulated queued [] slot packet = ground arith
push_simulated queued (buffer ∷ free) slot packet =
    let l = length-append queued (packet ∷ []) in ground (arith, l)

pop_simulated :
    (queued free : List (List ℕ)) (slot output_len : ℕ)
    → Simulates (length queued + length free) slot (ring queued free slot) (pop output_len)
unfolding answer queue_answer pop_into recycle
pop_simulated [] free slot output_len = (refl, (refl, refl, refl))
pop_simulated (packet ∷ queued) free slot output_len = ground arith

simulated :
    (r : PacketRing) (call : Call)
    → Simulates (length r.queued + length r.free) r.slot_capacity r call
simulated r (push packet) = push_simulated r.queued r.free r.slot_capacity packet
simulated r (pop output_len) = pop_simulated r.queued r.free r.slot_capacity output_len

answers-queue_answers :
    (capacity slot : ℕ) (packets : List (List ℕ)) (r : PacketRing) (calls : List Call)
    → Stands capacity slot packets r
    → answers r calls ≡ queue_answers capacity slot packets calls
unfolding answers queue_answers
answers-queue_answers capacity slot packets r [] v = refl
answers-queue_answers capacity slot packets r (call ∷ calls) (same, slots, room) =
    let total : length r.queued + length r.free ≡ capacity =
      ap (λ (xs : List (List ℕ)). length xs + length r.free) same ∙ room in
    let now : Simulates capacity slot r call =
      subst (λ c. Simulates c slot r call) total
        (subst (λ s. Simulates (length r.queued + length r.free) s r call) slots
          (simulated r call)) in
    let (answered, after) =
      subst
        (λ packets.
          ((answer r call).0 ≡ (queue_answer capacity slot packets call).0)
          × Stands capacity slot (queue_answer capacity slot packets call).1 (answer r call).1)
        same now in
    ap₂ ◌∷◌ answered (
      answers-queue_answers capacity slot (queue_answer capacity slot packets call).1
        (answer r call).1 calls after)

-- A new ring answers any pushes and pops as an empty queue of its capacity does that gives packets
-- back in their order: a push is refused only for a packet larger than a slot or a full queue, a pop
-- only for an output smaller than the oldest packet, which then stays.
pub new-queue_answers :
    (capacity slot_capacity : ℕ) (r : PacketRing) (calls : List Call)
    → new capacity slot_capacity ≡ ok r
    → answers r calls ≡ queue_answers capacity slot_capacity [] calls
new-queue_answers capacity slot_capacity r calls h =
    answers-queue_answers capacity slot_capacity [] r calls (
      subst (Stands capacity slot_capacity []) (sym (new-eq_ok capacity slot_capacity r h))
        (refl, refl, omega (arith, length-replicate {A = List ℕ} capacity [])))
