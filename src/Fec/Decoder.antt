-- ===== src/Fec/Decoder.antt =====
-- `Decoder` of src/fec.rs, its sources and their storage. `size_of` values are a field of the decoder here.
use quicp.Prelude.{
  same_bytes, ℕ, ◌-◌, Bool, true, false, not, ◌||◌, Option, none, some, List, [], ◌∷◌, ◌++◌, Result,
  ok, err, ltb, leb, ◌==◌, if◌then◌else◌, length,
}
use quicp.Recovery.Budget.{MemoryBudget, release}
use quicp.Fec.{FecError, contradictory_repair}
use quicp.Fec.Rows.{Row}
use quicp.Fec.Memory.{Layout}

pub record KnownSource : Type 0 where
  pub symbol_id : ℕ
  pub bytes : List ℕ
  pub retained_bytes : ℕ

-- A `Bytes` that is handed over: `unique` is its capacity if nobody else holds its storage.
pub record SourceBytes : Type 0 where
  pub bytes : List ℕ
  pub unique : Option ℕ

-- The oldest known source comes first. The hash set of their ids is a list.
pub record Decoder : Type 0 where
  pub known : List KnownSource
  pub known_ids : List ℕ
  pub rows : List Row
  pub max_symbols : ℕ
  pub max_rows : ℕ
  pub max_symbol_bytes : ℕ
  pub row_bytes : ℕ
  pub memory_budget : MemoryBudget
  pub layout : Layout

-- `Decoder::with_budget`
abbrev pub with_budget :
    Layout → (max_symbols max_rows max_symbol_bytes : ℕ) → MemoryBudget → Decoder
with_budget layout max_symbols max_rows max_symbol_bytes memory_budget = record {
  known = [];
  known_ids = [];
  rows = [];
  max_symbols = max_symbols;
  max_rows = max_rows;
  max_symbol_bytes = max_symbol_bytes;
  row_bytes = 0;
  memory_budget = memory_budget;
  layout = layout;
}

unfoldable pub find_known : List KnownSource → (symbol_id : ℕ) → Option KnownSource
find_known [] id = none
find_known (source ∷ known) id = if source.symbol_id == id then some source else find_known known id

unfoldable pub contains : List ℕ → ℕ → Bool
contains [] id = false
contains (j ∷ ids) id = (j == id) || contains ids id

unfoldable pub remove_id : List ℕ → ℕ → List ℕ
remove_id [] id = []
remove_id (j ∷ ids) id = let rest = remove_id ids id in if j == id then rest else j ∷ rest

-- `HashSet::insert`
unfoldable pub insert_id : List ℕ → ℕ → List ℕ
unfolding contains
insert_id ids id = if contains ids id then ids else id ∷ ids

pub data SourceStatus : Type 0 where
  new duplicate : SourceStatus

abbrev pub status_of : Option KnownSource → (source : List ℕ) → Result SourceStatus FecError
status_of none source = err contradictory_repair
status_of (some existing) source =
    if same_bytes existing.bytes source then ok duplicate else err contradictory_repair

-- An id in the set without a source is unreachable in the code, and an error here.
unfoldable pub source_status :
    Decoder → (symbol_id : ℕ) (source : List ℕ) → Result SourceStatus FecError
unfolding find_known contains
source_status d id source =
    if not (contains d.known_ids id) then ok new else status_of (find_known d.known id) source

-- `normalize_source_storage`: a shared source is copied.
unfoldable pub normalize_source_storage : (symbol_id : ℕ) → SourceBytes → KnownSource
normalize_source_storage id source = elim source.unique [
  | some capacity ↦ record { symbol_id = id; bytes = source.bytes; retained_bytes = capacity }
  | none ↦ record { symbol_id = id; bytes = source.bytes; retained_bytes = length source.bytes }
]

abbrev pub front_bytes : List KnownSource → ℕ
front_bytes [] = 0
front_bytes (source ∷ known) = source.retained_bytes

unfoldable pub evicted_known_bytes : Decoder → ℕ
evicted_known_bytes d = if leb d.max_symbols (length d.known) then front_bytes d.known else 0

-- What to reserve, and what to release.
unfoldable pub known_memory_delta : Decoder → (source_bytes : ℕ) → ℕ × ℕ
unfolding evicted_known_bytes
known_memory_delta d source_bytes =
    (source_bytes - evicted_known_bytes d, evicted_known_bytes d - source_bytes)

-- `while self.known.len() > self.max_symbols { self.known.pop_front() }`
unfoldable pub evict :
    (max_symbols : ℕ) → List KnownSource → (ids : List ℕ) → List KnownSource × List ℕ
unfolding remove_id
evict max_symbols [] ids = ([], ids)
evict max_symbols (source ∷ known) ids = elim (ltb max_symbols (length (source ∷ known))) [
  | true ↦ evict max_symbols known (remove_id ids source.symbol_id)
  | false ↦ (source ∷ known, ids)
]

unfoldable pub insert_known : Decoder → KnownSource → (released : ℕ) → Decoder
unfolding evict insert_id
insert_known d source released =
    let (known, ids) =
      evict d.max_symbols (d.known ++ source ∷ []) (insert_id d.known_ids source.symbol_id) in
    record d { known = known; known_ids = ids; memory_budget = release d.memory_budget released }

-- The decoder with its oldest source replaced, and `none` for `false`. `reusable` is the capacity of
-- the oldest source's storage, if nobody else holds it.
unfoldable pub reuse_oldest :
    Decoder
    → List KnownSource
    → (symbol_id : ℕ) (source : List ℕ) (reusable : Option ℕ) → Option Decoder
unfolding remove_id insert_id
reuse_oldest d [] id source reusable = none
reuse_oldest d (oldest ∷ known) id source none = none
reuse_oldest d (oldest ∷ known) id source (some capacity) =
    if ltb oldest.retained_bytes (length source)
    then none
    else some (record d {
      known = known ++ record { symbol_id = id; bytes = source; retained_bytes = capacity } ∷ [];
      known_ids = insert_id (remove_id d.known_ids oldest.symbol_id) id;
      memory_budget = release d.memory_budget (oldest.retained_bytes - capacity);
    })

unfoldable pub try_reuse_oldest_source :
    Decoder → (symbol_id : ℕ) (source : List ℕ) (reusable : Option ℕ) → Option Decoder
unfolding reuse_oldest
try_reuse_oldest_source d id source reusable =
    if ltb (length d.known) d.max_symbols then none else reuse_oldest d d.known id source reusable
