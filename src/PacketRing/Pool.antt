-- ===== src/PacketRing/Pool.antt =====
-- No buffer of the ring of src/packet_ring.rs is lost or made.
use quicp.Prelude.{
  ℕ, suc, ◌+◌, ◌≡◌, ap, ◌∙◌, List, [], ◌∷◌, min, length, length-append, length-replicate, replicate,
  some, ok, leb, arith, if_of_both,
}
use quicp.PacketRing.{PacketRing, new, write, read, recycle, consume_write}

-- A ring and the numbers of the read and write leases that are out.
pub record Leased : Type 0 where
  pub ring : PacketRing
  pub reading : ℕ
  pub writing : ℕ

abbrev pub leased : PacketRing → ℕ → ℕ → Leased
leased r reading writing = record { ring = r; reading = reading; writing = writing }

-- The operations on a ring. Dropping a lease recycles its buffer, also after `ReadPacket::consume` and
-- when a callback unwinds.
pub data Step : Leased → Leased → Type 0 where
  lease_write :
      {r r' : PacketRing} {reading writing : ℕ} (packet : List ℕ)
      → write r ≡ some (packet, r')
      → Step (leased r reading writing) (leased r' reading (suc writing))
  lease_read :
      {r r' : PacketRing} {reading writing : ℕ} (packet : List ℕ)
      → read r ≡ some (packet, r')
      → Step (leased r reading writing) (leased r' (suc reading) writing)
  consume :
      {r : PacketRing} {reading writing : ℕ} (len : ℕ) (callback : List ℕ → List ℕ)
      → Step
          (leased r reading (suc writing))
          (leased (consume_write r len callback) reading writing)
  drop_write :
      {r : PacketRing} {reading writing : ℕ}
      → Step (leased r reading (suc writing)) (leased (recycle r) reading writing)
  drop_read :
      {r : PacketRing} {reading writing : ℕ}
      → Step (leased r (suc reading) writing) (leased (recycle r) reading writing)

pub data Reachable (capacity slot_capacity : ℕ) : Leased → Type 0 where
  fresh :
      {r : PacketRing}
      → new capacity slot_capacity ≡ ok r
      → Reachable capacity slot_capacity (leased r 0 0)
  next :
      {l l' : Leased}
      → Reachable capacity slot_capacity l
      → Step l l'
      → Reachable capacity slot_capacity l'

-- All buffers, wherever they are.
abbrev pub buffers : Leased → ℕ
buffers l = length l.ring.queued + length l.ring.free + l.reading + l.writing

pub new-eq_ok :
    (capacity slot_capacity : ℕ) (r : PacketRing)
    → new capacity slot_capacity ≡ ok r
    → r ≡ record { queued = []; free = replicate capacity []; slot_capacity = slot_capacity }
unfolding new
new-eq_ok capacity slot_capacity r h = ground (arith, h)

pub write-eq_some :
    (r r' : PacketRing) (packet : List ℕ)
    → write r ≡ some (packet, r')
    → (r.free ≡ packet ∷ r'.free) × (r'.queued ≡ r.queued) × (r'.slot_capacity ≡ r.slot_capacity)
unfolding write
write-eq_some r r' packet h = ground (arith, h)

pub read-eq_some :
    (r r' : PacketRing) (packet : List ℕ)
    → read r ≡ some (packet, r')
    → (r.queued ≡ packet ∷ r'.queued) × (r'.free ≡ r.free) × (r'.slot_capacity ≡ r.slot_capacity)
unfolding read
read-eq_some r r' packet h = ground (arith, h)

-- Wherever the bytes go, a buffer is back in the pool or queued.
consume_total :
    (r : PacketRing) (len : ℕ) (callback : List ℕ → List ℕ)
    → length (consume_write r len callback).queued + length (consume_write r len callback).free
      ≡ suc (length r.queued + length r.free)
unfolding consume_write
consume_total r len callback =
    let packet = callback (replicate (min len r.slot_capacity) 0) in
    if_of_both
      (λ (r' : PacketRing).
        length r'.queued + length r'.free ≡ suc (length r.queued + length r.free))
      (leb len r.slot_capacity) (λ t. omega (arith, length-append r.queued (packet ∷ [])))
      (λ t. omega arith)

recycle_total :
    (r : PacketRing)
    → length (recycle r).queued + length (recycle r).free ≡ suc (length r.queued + length r.free)
unfolding recycle
recycle_total r = omega arith

Step-total : {l l' : Leased} → Step l l' → buffers l' ≡ buffers l
Step-total (lease_write {r} {r'} packet h) =
    let (free, queued, slot) = write-eq_some r r' packet h in
    omega (
      arith,
      ap (λ (xs : List (List ℕ)). length xs) free,
      ap (λ (xs : List (List ℕ)). length xs) queued,
    )
Step-total (lease_read {r} {r'} packet h) =
    let (queued, free, slot) = read-eq_some r r' packet h in
    omega (
      arith,
      ap (λ (xs : List (List ℕ)). length xs) free,
      ap (λ (xs : List (List ℕ)). length xs) queued,
    )
Step-total (consume {r} len callback) = omega (arith, consume_total r len callback)
Step-total (drop_write {r}) = omega (arith, recycle_total r)
Step-total (drop_read {r}) = omega (arith, recycle_total r)

-- Through any operations, the free buffers, the queued packets and the leases that are out are as many
-- as the capacity that the ring was made with.
pub reachable_buffers :
    {capacity slot_capacity : ℕ} {l : Leased}
    → Reachable capacity slot_capacity l
    → buffers l ≡ capacity
reachable_buffers {capacity} {slot_capacity} (fresh {r} h) =
    ap (λ r. buffers (leased r 0 0)) (new-eq_ok capacity slot_capacity r h)
    ∙ omega (arith, length-replicate {A = List ℕ} capacity [])
reachable_buffers (next s step) = Step-total step ∙ reachable_buffers s
