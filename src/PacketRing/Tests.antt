-- ===== src/PacketRing/Tests.antt =====
-- The packet ring (src/packet_ring.rs) at work, and instances of the theorems.
use quicp.Prelude.{◌≡◌, refl, List, [], ◌∷◌, ok, err, some, none}
use quicp.PacketRing.{
  PacketRing, zero_capacity, capacity_overflow, too_large, full, buffer_too_small, new, write,
  recycle, consume_write, push_copy, pop_into,
}
use quicp.PacketRing.Pool.{leased, lease_write, consume, fresh, next, buffers, reachable_buffers}
use quicp.PacketRing.Fifo.{
  Call, push, pop, pushed, popped, refused, answer, answers, queue_answers, new-queue_answers,
}

abbrev two_slots : PacketRing
two_slots = record { queued = []; free = [] ∷ [] ∷ []; slot_capacity = 4 }

makes :
    (new 2 4 ≡ ok two_slots)
    × (new 0 4 ≡ err zero_capacity)
    × (new 2 (0xffffffffffffffff) ≡ err capacity_overflow)
unfolding new
makes = (refl, refl, refl)

abbrev calls : List Call
calls =
    push (1 ∷ 2 ∷ [])
    ∷ push (3 ∷ [])
    ∷ push (4 ∷ [])
    ∷ pop 1
    ∷ pop 2
    ∷ pop 9
    ∷ pop 9
    ∷ push (1 ∷ 1 ∷ 1 ∷ 1 ∷ 1 ∷ [])
    ∷ []

answered :
    answers two_slots calls
    ≡ pushed
      ∷ pushed
      ∷ refused full
      ∷ refused (buffer_too_small 2 1)
      ∷ popped (some (1 ∷ 2 ∷ []))
      ∷ popped (some (3 ∷ []))
      ∷ popped none
      ∷ refused (too_large 5 4)
      ∷ []
unfolding answers answer push_copy write consume_write pop_into recycle
answered = refl

new-queue_answers_example : answers two_slots calls ≡ queue_answers 2 4 [] calls
new-queue_answers_example = new-queue_answers 2 4 two_slots calls makes.0

abbrev one_left : PacketRing
one_left = record { queued = []; free = [] ∷ []; slot_capacity = 4 }

leases : write two_slots ≡ some ([], one_left)
unfolding write
leases = refl

reachable_buffers_example : buffers (leased (consume_write one_left 3 (λ zeros. zeros)) 0 0) ≡ 2
reachable_buffers_example =
    reachable_buffers
      (next (next (fresh makes.0) (lease_write [] leases)) (consume 3 (λ zeros. zeros)))
