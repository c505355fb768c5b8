-- ===== src/PacketRing.antt =====
-- src/packet_ring.rs: a fixed pool of packet buffers, each of them free, queued, or leased. A buffer is
-- its bytes; what its storage can hold is not kept. The pool's lock is held for each operation on it,
-- so calls of several threads are a sequence of these operations. A vector's last element, which
-- `push` and `pop` work at, is the first of the list `free`.
pub mod Pool
pub mod Fifo
mod Tests
use quicp.Prelude.{
  ℕ, zero, suc, ◌+◌, ◌-◌, ◌*◌, ◌^◌, ◌<◌, ◌≤◌, min, Bool, true, false, List, [], ◌∷◌, ◌++◌, length,
  replicate, Option, none, some, Result, ok, err, ltb, leb, ◌==◌, if◌then◌else◌,
}

pub data RingError : Type 0 where
  zero_capacity zero_slot_capacity capacity_overflow full : RingError
  too_large : (len max_len : ℕ) → RingError
  buffer_too_small : (required available : ℕ) → RingError

pub record PacketRing : Type 0 where
  pub queued : List (List ℕ)
  pub free : List (List ℕ)
  pub slot_capacity : ℕ

abbrev pub usize_max : ℕ
usize_max = 2 ^ 64 - 1

-- `size_of::<Vec<u8>>()`
abbrev pub vec_bytes : ℕ
vec_bytes = 24

-- `PacketRing::new`
unfoldable pub new : (capacity slot_capacity : ℕ) → Result PacketRing RingError
new capacity slot_capacity =
    if capacity == 0
    then err zero_capacity
    else (if slot_capacity == 0
        then err zero_slot_capacity
        else (if ltb usize_max (capacity * slot_capacity)
            then err capacity_overflow
            else (if ltb usize_max (capacity * vec_bytes)
                then err capacity_overflow
                else ok (record {
                  queued = [];
                  free = replicate capacity [];
                  slot_capacity = slot_capacity;
                }))))

abbrev pub with_pool : PacketRing → List (List ℕ) → List (List ℕ) → PacketRing
with_pool r queued free = record { queued = queued; free = free; slot_capacity = r.slot_capacity }

-- A free buffer, taken out of the pool.
unfoldable pub write : PacketRing → Option (List ℕ × PacketRing)
write r = elim r.free [ [] ↦ none | packet ∷ free ↦ some (packet, with_pool r r.queued free) ]

-- The oldest packet, taken out of the queue.
unfoldable pub read : PacketRing → Option (List ℕ × PacketRing)
read r = elim r.queued [ [] ↦ none | packet ∷ queued ↦ some (packet, with_pool r queued r.free) ]

-- `recycle`, which is what dropping a lease does; `packet.clear()` keeps the storage alone.
unfoldable pub recycle : PacketRing → PacketRing
recycle r = with_pool r r.queued ([] ∷ r.free)

-- `WritePacket::consume`, with the bytes that the callback leaves in the zeros it is given: the lease
-- is queued, or dropped if the length is more than a slot.
unfoldable pub consume_write : PacketRing → ℕ → (List ℕ → List ℕ) → PacketRing
unfolding recycle
consume_write r len callback =
    let packet = callback (replicate (min len r.slot_capacity) 0) in
    if leb len r.slot_capacity then with_pool r (r.queued ++ (packet ∷ [])) r.free else recycle r

-- A callback sees a slice, whose length it cannot change: this one copies the packet over it.
unfoldable pub push_copy : PacketRing → List ℕ → Result PacketRing RingError
unfolding write
push_copy r packet =
    if ltb r.slot_capacity (length packet)
    then err (too_large (length packet) r.slot_capacity)
    else elim (write r) [
      | none ↦ err full
      | some lease ↦ ok (consume_write lease.1 (length packet) (λ output. packet))
    ]

-- The packet that is copied to the output of a length, if there is one, and the ring. Copying ends
-- with the buffer back in the pool.
unfoldable pub pop_into : PacketRing → ℕ → Result (Option (List ℕ) × PacketRing) RingError
unfolding recycle
pop_into r output_len = elim r.queued [
  | [] ↦ ok (none, r)
  | packet ∷ queued ↦
      if ltb output_len (length packet)
      then err (buffer_too_small (length packet) output_len)
      else ok (some packet, recycle (with_pool r queued r.free))
]

abbrev pub is_empty : PacketRing → Bool
is_empty r = elim r.queued [ [] ↦ true | packet ∷ queued ↦ false ]
