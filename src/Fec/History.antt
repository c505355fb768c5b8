-- ===== src/Fec/History.antt =====
-- A decoder of src/fec.rs from its start on, through any successful operations on what one sender
-- sent. An operation that fails changes nothing.
use quicp.Prelude.{ℕ, ◌≡◌, Bool, Option, List, [], ◌∷◌, ◌++◌, ok, length, Ensures-eq_ok}
use quicp.Recovery.Budget.{MemoryBudget}
use quicp.Fec.Encoder.{repair_symbol}
use quicp.Fec.Memory.{Layout, RecoveredSource, RecoveredBatch}
use quicp.Fec.Decoder.{Decoder, SourceBytes, with_budget}
use quicp.Fec.Operations.{add_source, add_repair, commit_recovered_precharged}
use quicp.Fec.Solutions.{Symbols, AreBytes}
use quicp.Fec.Soundness.{IsValue}
use quicp.Fec.Coding.{AreSent}
use quicp.Fec.Faithful.{IsFaithful, AreRecovered}
use quicp.Fec.Delivery.{add_source-Delivers}
use quicp.Fec.RepairDelivery.{add_repair-Delivers, commit_recovered_precharged-IsFaithful}

-- The decoder and all sources that it recovered so far.
pub data History (s : Symbols) : List RecoveredSource → Decoder → Type 0 where
  fresh :
      (layout : Layout) (max_symbols max_rows max_symbol_bytes : ℕ) (budget : MemoryBudget)
      → History s [] (with_budget layout max_symbols max_rows max_symbol_bytes budget)
  source :
      {items : List RecoveredSource} {d d' : Decoder} {batch : RecoveredBatch} (id : ℕ)
      (sent : SourceBytes) (reusable : Option ℕ) (work : ℕ)
      → History s items d
      → IsValue s id sent.bytes
      → add_source d id sent reusable work ≡ ok (d', batch)
      → History s (batch.items ++ items) d'
  repair :
      {items : List RecoveredSource} {d d' : Decoder} {batch : RecoveredBatch}
      (first repair_id seed : ℕ) (sources : List (List ℕ)) (coded : List ℕ) (work : ℕ)
      → History s items d
      → AreSent s first 0 sources
      → repair_symbol first repair_id seed sources ≡ ok coded
      → add_repair d first (length sources) repair_id seed coded work ≡ ok (d', batch)
      → History s (batch.items ++ items) d'
  commit :
      {items : List RecoveredSource} {d d' : Decoder} {left : ℕ} (id : ℕ) (sent : SourceBytes)
      (charge : ℕ) (belongs : Bool)
      → History s items d
      → IsValue s id sent.bytes
      → commit_recovered_precharged d id sent charge belongs ≡ ok (d', left)
      → History s items d'

AreRecovered-append :
    (s : Symbols) (xs ys : List RecoveredSource)
    → AreRecovered s xs
    → AreRecovered s ys
    → AreRecovered s (xs ++ ys)
AreRecovered-append s [] ys h k = k
AreRecovered-append s (x ∷ xs) ys (p, h) k = (p, AreRecovered-append s xs ys h k)

-- From the start, through any successful `add_source`, `add_repair` and
-- `commit_recovered_precharged` on symbols of bytes and on coded symbols that `repair_symbol` makes
-- of them: what the decoder holds is true of the symbols, and every source that was recovered is, up
-- to zeros at the end, the symbol with its id.
pub History-AreRecovered :
    (s : Symbols) {items : List RecoveredSource} {d : Decoder}
    → AreBytes s
    → History s items d
    → IsFaithful s d × AreRecovered s items
History-AreRecovered s b (fresh layout max_symbols max_rows max_symbol_bytes budget) =
    (record { known_values = tt; solved_rows = tt }, tt)
History-AreRecovered s b (source {items} {d} {d'} {batch} id sent reusable work h v ran) =
    let before = History-AreRecovered s b h in
    let after = Ensures-eq_ok (add_source-Delivers s b d id sent reusable work before.0 v) ran in
    (after.0, AreRecovered-append s batch.items items after.1 before.1)
History-AreRecovered s b
      (repair {items} {d} {d'} {batch} first repair_id seed sources coded work h sent made ran) =
    let before = History-AreRecovered s b h in
    let after =
      Ensures-eq_ok
        (add_repair-Delivers s b d first repair_id seed sources coded work before.0 sent made)
        ran in
    (after.0, AreRecovered-append s batch.items items after.1 before.1)
History-AreRecovered s b (commit {items} {d} {d'} {left} id sent charge belongs h v ran) =
    let before = History-AreRecovered s b h in
    (
      Ensures-eq_ok (commit_recovered_precharged-IsFaithful s b d id sent charge belongs before.0 v)
          ran,
      before.1,
    )
