-- ===== src/Fec/Tests.antt =====
-- Runs of the erasure code of src/fec.rs and instances of its theorems: two sources, of which the
-- second is lost and recovered.
use quicp.Prelude.{
  ℕ, zero, suc, ◌<◌, ◌≡◌, ◌++◌, ◌∙◌, refl, ◌∷◌, [], List, none, ok, err, length, ◌==◌,
  if◌then◌else◌, if_of_both, arith, Ensures,
}
use quicp.Recovery.Budget
use quicp.Recovery.Budget.{
  MemoryBudget, reserve, grow, transfer, shrink, release, try_reserve, drop_charge,
}
use quicp.Fec.{contradictory_repair, work_budget}
use quicp.Fec.Field.{multiply, inverse, coefficient}
use quicp.Fec.Rows.{
  Row, scale_row, find_coefficient, xor_scaled, xor_scaled_loop, spend, scale_coefficients,
  scale_bytes,
}
use quicp.Fec.Reduce.{reduce}
use quicp.Wire.Bytes.{IsBytes, be_value, split_at}
use quicp.Wire.Varint.{decode_varint}
use quicp.Wire.Cursor.{u8, uint, varint, take}
use quicp.Wire.Source.{
  decode_source_inner, read_source, decode_source_record, checked_slice, skip_source_records,
  decode_source_padded, wire_range_fits,
}
use quicp.Fec.Encoder.{repair_symbol}
use quicp.Fec.Memory.{Layout, RecoveredBatch, empty_batch}
use quicp.Fec.Decoder.{Decoder, SourceBytes, with_budget}
use quicp.Fec.Operations.{add_source, add_repair}
use quicp.Fec.Field.Laws.{multiply-one}
use quicp.Fec.Xor.{bit_xor-zero}
use quicp.Fec.Solutions.{Symbols, AreBytes, byte_at, Solves}
use quicp.Fec.Soundness.{IsSolved, IsValue}
use quicp.Fec.Coding.{span_terms, repair_symbol-Solves}
use quicp.Fec.Faithful.{IsFaithful, AreRecovered}
use quicp.Fec.Delivery.{Delivers, add_source-Delivers}
use quicp.Fec.RepairDelivery.{add_repair-Delivers}
use quicp.Fec.History.{History, History-AreRecovered}
use quicp.Fec.Single.{single, reduce-single}

abbrev layout : Layout
layout = record { row = 56; coefficient = 8; pair = 40; recovered = 48 }

abbrev start : Decoder
start = with_budget layout 4 4 16 (Budget.new 4096)

abbrev first_source : List ℕ
first_source = 0x20 ∷ 0 ∷ 0 ∷ 0 ∷ 7 ∷ 1 ∷ 0 ∷ 0 ∷ 0 ∷ 1 ∷ b'a' ∷ []

abbrev second_source : List ℕ
second_source = 0x20 ∷ 0 ∷ 0 ∷ 0 ∷ 8 ∷ 1 ∷ 0 ∷ 1 ∷ 0 ∷ 2 ∷ b'b' ∷ b'c' ∷ []

abbrev coded : List ℕ
coded = 21 ∷ 0 ∷ 0 ∷ 0 ∷ 83 ∷ 79 ∷ 0 ∷ 76 ∷ 0 ∷ 155 ∷ 164 ∷ 75 ∷ []

made : repair_symbol 7 1 5 (first_source ∷ second_source ∷ []) ≡ ok coded
unfolding repair_symbol coefficient multiply
made = refl

abbrev after_first : Decoder
after_first = record start {
  known = record { symbol_id = 7; bytes = first_source; retained_bytes = 11 } ∷ [];
  known_ids = 7 ∷ [];
  memory_budget = record { used = 11; limit = 4096 };
}

abbrev first_handed : SourceBytes
first_handed = record { bytes = first_source; unique = none }

first_added : add_source start 7 first_handed none 1000 ≡ ok (after_first, empty_batch)
unfolding add_source reserve try_reserve grow transfer release drop_charge
first_added = refl

abbrev recovered : RecoveredBatch
recovered = record {
  items = record { symbol_id = 8; bytes = second_source; retained_bytes = 12 } ∷ [];
  retained_bytes = 60;
  scratch = 60;
}

abbrev after_repair : Decoder
after_repair = record after_first {
  row_bytes = 56;
  memory_budget = record { used = 127; limit = 4096 };
}

-- The lost source comes back, cut to its bytes.
second_recovered : add_repair after_first 7 2 1 5 coded 1000 ≡ ok (after_repair, recovered)
unfolding add_repair reserve try_reserve grow transfer release drop_charge shrink coefficient
    multiply inverse scale_row reduce find_coefficient xor_scaled xor_scaled_loop spend
    scale_coefficients scale_bytes decode_source_padded decode_source_inner read_source
    decode_source_record checked_slice skip_source_records u8 uint varint take decode_varint
    split_at be_value wire_range_fits
second_recovered = refl

-- The work that the elimination needs is refused to it.
too_little_work :
    (add_repair after_first 7 2 1 5 coded 30 ≡ err work_budget)
    × (add_repair after_first 7 2 1 5 coded 10 ≡ err work_budget)
unfolding add_repair reserve try_reserve grow transfer release drop_charge shrink coefficient
    multiply inverse scale_row reduce find_coefficient xor_scaled xor_scaled_loop spend
    scale_coefficients scale_bytes
too_little_work = (refl, refl)

-- A known source that does not fit the coded symbol.
contradiction : add_repair after_first 7 1 1 5 coded 1000 ≡ err contradictory_repair
unfolding add_repair reserve try_reserve grow transfer release drop_charge shrink coefficient
    multiply inverse scale_row reduce find_coefficient xor_scaled xor_scaled_loop spend
    scale_coefficients scale_bytes
contradiction = refl

abbrev sent : Symbols
sent id k =
    if id == 7 then byte_at first_source k else (if id == 8 then byte_at second_source k else 0)

byte_at-lt : (bs : List ℕ) (k : ℕ) → IsBytes bs → byte_at bs k < 256
byte_at-lt [] k h = omega arith
byte_at-lt (b ∷ bs) zero h = h.0
byte_at-lt (b ∷ bs) (suc k) h = byte_at-lt bs k h.1

sent-AreBytes : AreBytes sent
sent-AreBytes id k =
    if_of_both (λ t. t < 256) (id == 7) (λ _. byte_at-lt first_source k (omega arith))
      (λ _.
        if_of_both (λ t. t < 256) (id == 8) (λ _. byte_at-lt second_source k (omega arith))
          (λ _. omega arith))

start-IsFaithful : IsFaithful sent start
start-IsFaithful = record { known_values = tt; solved_rows = tt }

after_first-IsFaithful : IsFaithful sent after_first
after_first-IsFaithful = record { known_values = (λ k. refl, tt); solved_rows = tt }

repair_symbol-Solves_example : Solves sent (span_terms 7 1 5 2 0) coded
repair_symbol-Solves_example =
    repair_symbol-Solves sent 7 1 5 (first_source ∷ second_source ∷ []) coded
      (λ k. refl, (λ k. refl, tt)) made

add_source-Delivers_example :
    Ensures (Delivers sent sent-AreBytes) (add_source start 7 first_handed none 1000)
add_source-Delivers_example =
    add_source-Delivers sent sent-AreBytes start 7 first_handed none 1000 start-IsFaithful
      (λ k. refl)

add_repair-Delivers_example :
    Ensures (Delivers sent sent-AreBytes) (add_repair after_first 7 2 1 5 coded 1000)
add_repair-Delivers_example =
    add_repair-Delivers sent sent-AreBytes after_first 7 1 5 (first_source ∷ second_source ∷ [])
      coded 1000 after_first-IsFaithful (λ k. refl, (λ k. refl, tt)) made

lossy : History sent (recovered.items ++ []) after_repair
lossy =
    History.repair 7 1 5 (first_source ∷ second_source ∷ []) coded 1000
      (History.source 7 first_handed none 1000 (History.fresh layout 4 4 16 (Budget.new 4096))
        (λ k. refl) first_added)
      (λ k. refl, (λ k. refl, tt)) made second_recovered

History-AreRecovered_example :
    IsFaithful sent after_repair × AreRecovered sent (recovered.items ++ [])
History-AreRecovered_example = History-AreRecovered sent sent-AreBytes lossy

second_alone : IsSolved sent (single 8 1 4 second_source 16)
second_alone = record {
  factors = omega arith;
  solved = record {
    at_byte = λ k.
        bit_xor-zero (multiply (byte_at second_source k) 1)
        ∙ multiply-one (byte_at second_source k);
  };
}

reduce-single_example :
    (r : Row) × (found : List ℕ) × (reduce (single 8 1 4 second_source 16 ∷ []) 13
      ≡ ok (r ∷ [], (8, found) ∷ []))
    × (length found ≡ 12)
    × IsValue sent 8 found
reduce-single_example =
    reduce-single 8 1 4 16 second_source 13 (omega arith) (omega arith) sent sent-AreBytes
      second_alone
