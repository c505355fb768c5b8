-- ===== src/Flow/Retention.antt =====
-- What a flow of src/flow.rs retains: the bytes that wait to be sent and those that were sent and not
-- acknowledged are counted exactly, within the limits, so that the replay buffer has room for
-- whatever the task sends.
use quicp.Prelude.{
  ℕ, ◌+◌, ◌-◌, ◌<◌, ◌≤◌, ◌≡◌, refl, false, List, [], ◌∷◌, ◌++◌, if_of_both, length, arith,
}
use quicp.Wire.{max_wire_offset}
use quicp.Recovery.AckRanges.{AckRanges}
use quicp.Recovery.Chunks.{Chunk, total_bytes, insert_chunk, meets}
use quicp.Recovery.Replay.{ReplayBuffer, acknowledge, drop_covered, is_covered}
use quicp.Recovery.Replay.Inv as Replay
use quicp.Recovery.Replay.Inv.{retain_accepts}
use quicp.Flow.Task.{FlowTask}

-- The chunks wait in the order of their offsets, apart, none empty, from `low` on and up to `high`.
abbrev pub Chain : ℕ → List Chunk → ℕ → Type 0
Chain low [] high = low ≤ high
Chain low (c ∷ cs) high =
    (low ≤ c.offset) × (0 < length c.bytes) × Chain (c.offset + length c.bytes) cs high

-- The chunks end before `frontier`.
abbrev pub Before : ℕ → List Chunk → Type 0
Before frontier [] = Unit {0}
Before frontier (c ∷ cs) = (c.offset + length c.bytes ≤ frontier) × Before frontier cs

-- The send side of a flow: `frontier` parts what was sent from what waits.
pub record Retention (outbound : List Chunk) (next bytes chunks limit places peer : ℕ)
    (replay : ReplayBuffer) (frontier : ℕ) : Type 0 where
  pub waiting : Chain frontier outbound next
  pub behind : Before frontier replay.chunks
  pub replay_inv : Replay.Inv replay
  pub byte_count : bytes ≡ total_bytes outbound + total_bytes replay.chunks
  pub chunk_count : chunks ≡ length outbound + length replay.chunks
  pub bytes_bounded : bytes ≤ limit
  pub chunks_bounded : chunks ≤ places
  pub same_limit : replay.max_bytes ≡ limit
  pub same_places : replay.max_chunks ≡ places
  pub peer_bounded : peer ≤ max_wire_offset

-- A task with this outbound queue.
abbrev pub Queues : FlowTask → List Chunk → (frontier : ℕ) → Type 0
Queues t outbound frontier =
    Retention outbound t.shared.next_send_offset t.shared.retained_bytes t.shared.retained_chunks
      t.shared.replay_limit t.shared.replay_chunk_limit t.shared.peer_max_offset t.replay frontier

abbrev pub IsRetained : FlowTask → (frontier : ℕ) → Type 0
IsRetained t frontier = Queues t t.shared.outbound frontier

pub Chain-weaken :
    (low low' : ℕ) (cs : List Chunk) (high : ℕ)
    → low' ≤ low
    → Chain low cs high
    → Chain low' cs high
Chain-weaken low low' [] high h v = omega (arith, h, v)
Chain-weaken low low' (c ∷ cs) high h (a, b, v) = (omega (arith, h, a), b, v)

pub Chain-append :
    (low : ℕ) (cs : List Chunk) (high : ℕ) (bytes : List ℕ)
    → 0 < length bytes
    → Chain low cs high
    → Chain low (cs ++ record { offset = high; bytes = bytes } ∷ []) (high + length bytes)
Chain-append low [] high bytes h v = (v, h, omega arith)
Chain-append low (c ∷ cs) high bytes h (a, b, v) =
    (a, b, Chain-append (c.offset + length c.bytes) cs high bytes h v)

pub Before-weaken : (f f' : ℕ) (cs : List Chunk) → f ≤ f' → Before f cs → Before f' cs
Before-weaken f f' [] h v = tt
Before-weaken f f' (c ∷ cs) h (a, v) = (omega (arith, h, a), Before-weaken f f' cs h v)

pub Before-insert_chunk :
    (f : ℕ) (c : Chunk) (cs : List Chunk)
    → c.offset + length c.bytes ≤ f
    → Before f cs
    → Before f (insert_chunk c cs)
unfolding insert_chunk
Before-insert_chunk f c [] h v = (h, tt)
Before-insert_chunk f c (d ∷ cs) h (a, v) = ground (arith, Before-insert_chunk f c cs h v)

Before-drop_covered :
    (f : ℕ) (ack : AckRanges) (cs : List Chunk) (bytes : ℕ)
    → Before f cs
    → Before f (drop_covered ack cs bytes).0
unfolding drop_covered
Before-drop_covered f ack [] bytes v = tt
Before-drop_covered f ack (c ∷ cs) bytes (a, v) =
    if_of_both (λ (kept : List Chunk × ℕ). Before f kept.0) (is_covered ack c)
      (λ e. Before-drop_covered f ack cs (bytes - length c.bytes) v)
      (λ e. (a, Before-drop_covered f ack cs bytes v))

pub Before-acknowledge :
    (f : ℕ) (b : ReplayBuffer) (ack : AckRanges)
    → Before f b.chunks
    → Before f (acknowledge b ack).0.chunks
unfolding acknowledge
Before-acknowledge f b ack v = Before-drop_covered f ack b.chunks b.bytes v

-- No chunk behind the frontier shares an offset with one that waits.
pub behind-meets :
    (f offset end : ℕ) (cs : List Chunk) → Before f cs → f ≤ offset → meets offset end cs ≡ false
unfolding meets
behind-meets f offset end [] v h = refl
behind-meets f offset end (c ∷ cs) (a, v) h = ground (arith, a, h, behind-meets f offset end cs v h)
