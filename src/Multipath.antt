-- ===== src/Multipath.antt =====
-- src/multipath.rs: the primary and backup paths of a connection and the events that move them.
-- A method with `&mut self` returns the new manager beside its result. The identifier of a path is
-- the number that `noq::PathId` wraps; the code only compares it.
pub mod Calls
pub mod Inv
pub mod Lifecycle
pub mod Health
pub mod Admission
mod Tests
use quicp.Prelude.{
  ℕ, suc, ◌≡◌, Bool, true, false, ◌&&◌, ◌||◌, Option, none, some, ◌==◌, if◌then◌else◌, Result, ok,
  err, is_err, not,
}

-- config.rs
pub data MultipathMode : Type 0 where
  off failover : MultipathMode

unfoldable pub path_limit : MultipathMode → ℕ
path_limit off = 1
path_limit failover = 2

pub data PathRole : Type 0 where
  primary backup : PathRole

-- `noq::PathStatus`
pub data PathStatus : Type 0 where
  available backup : PathStatus

pub data PathHealth : Type 0 where
  not_ready ready degraded failed : PathHealth

pub data PathState : Type 0 where
  validating established lost : PathState

pub data PathError : Type 0 where
  role_disabled role_busy validation_in_flight reused_path_id unknown_path : PathError
  invalid_transition status_mismatch unreliable unknown_transport_event : PathError

-- An index into an array of two.
pub data Index : Type 0 where
  index_0 index_1 : Index

-- `Path` in the source.
pub record PathEntry : Type 0 where
  pub id : ℕ
  pub state : PathState
  pub remote_status : Option PathStatus

-- `[Option<Path>; 2]`
pub record PathSlots : Type 0 where
  pub slot_0 : Option PathEntry
  pub slot_1 : Option PathEntry

pub record PathManager : Type 0 where
  pub mode : MultipathMode
  pub paths : PathSlots
  pub activated : Bool
  pub reliable : Bool

-- `noq::PathEvent`; `other` stands for the variants that the wildcard arm takes.
pub data PathEvent : Type 0 where
  established abandoned discarded : ℕ → PathEvent
  remote_status : ℕ → PathStatus → PathEvent
  observed_addr other : PathEvent

unfoldable pub role_index : PathRole → Index
role_index PathRole.primary = index_0
role_index PathRole.backup = index_1

abbrev pub get_slot : PathSlots → Index → Option PathEntry
get_slot s index_0 = s.slot_0
get_slot s index_1 = s.slot_1

abbrev pub set_slot : PathSlots → Index → Option PathEntry → PathSlots
set_slot s index_0 p = record s { slot_0 = p }
set_slot s index_1 p = record s { slot_1 = p }

abbrev pub is_established : PathState → Bool
is_established PathState.established = true
is_established validating = false
is_established lost = false

abbrev pub is_validating : PathState → Bool
is_validating validating = true
is_validating PathState.established = false
is_validating lost = false

abbrev pub is_lost : PathState → Bool
is_lost lost = true
is_lost validating = false
is_lost PathState.established = false

abbrev pub is_available : Option PathStatus → Bool
is_available none = false
is_available (some available) = true
is_available (some PathStatus.backup) = false

-- `Path::usable`; the expected status is `Available`.
unfoldable pub usable : PathEntry → Bool
usable p = is_established p.state && is_available p.remote_status

-- `is_some_and`, which is also `flatten().any()` over one slot.
abbrev pub is_some_and : Option PathEntry → (PathEntry → Bool) → Bool
is_some_and none f = false
is_some_and (some p) f = f p

abbrev pub any_path : PathSlots → (PathEntry → Bool) → Bool
any_path s f = is_some_and s.slot_0 f || is_some_and s.slot_1 f

unfoldable pub usable_count : PathSlots → ℕ
unfolding usable
usable_count s =
    let rest : ℕ = if is_some_and s.slot_1 usable then 1 else 0 in
    if is_some_and s.slot_0 usable then suc rest else rest

-- `PathManager::new`
unfoldable pub new : MultipathMode → PathManager
new m = record {
  mode = m;
  paths = record { slot_0 = none; slot_1 = none };
  activated = false;
  reliable = true;
}

unfoldable pub event_lagged : PathManager → PathManager
event_lagged m = record m { reliable = false }

abbrev pub Outcome : Type 0
Outcome = PathManager × Result (Unit {0}) PathError

-- An event that is refused leaves the view unreliable.
abbrev pub distrust : PathManager → PathError → Outcome
distrust m e = (record m { reliable = false }, err e)

-- `PathManager::refresh_activation`
unfoldable pub refresh_activation : PathManager → PathManager
unfolding usable_count path_limit
refresh_activation m = record m {
  activated = m.activated || usable_count m.paths == path_limit m.mode;
}

-- `PathManager::path_position`
unfoldable pub path_position : PathManager → ℕ → Option Index
path_position m id =
    if is_some_and m.paths.slot_0 (λ p. p.id == id)
    then some index_0
    else (if is_some_and m.paths.slot_1 (λ p. p.id == id) then some index_1 else none)

abbrev pub mode_is_off : MultipathMode → Bool
mode_is_off off = true
mode_is_off failover = false

abbrev pub role_is_backup : PathRole → Bool
role_is_backup PathRole.primary = false
role_is_backup PathRole.backup = true

abbrev pub fresh_path : ℕ → PathEntry
fresh_path id = record { id = id; state = validating; remote_status = none }

-- `PathManager::begin_path`. A refusal leaves the manager as it was.
unfoldable pub begin_path : PathManager → PathRole → ℕ → Outcome
unfolding role_index
begin_path m role id =
    if not m.reliable
    then (m, err unreliable)
    else (if mode_is_off m.mode && role_is_backup role
        then (m, err role_disabled)
        else (if is_some_and (get_slot m.paths (role_index role)) (λ p. true)
            then (m, err role_busy)
            else (if any_path m.paths (λ p. is_validating p.state)
                then (m, err validation_in_flight)
                else (if any_path m.paths (λ p. p.id == id) then (m, err reused_path_id) else (
                  record m { paths = set_slot m.paths (role_index role) (some (fresh_path id)) },
                  ok tt,
                )))))

-- Each handler of an event looks the path up, `paths[position]` included, and goes on by its state.
abbrev pub established_at : PathManager → Index → PathEntry → PathState → Outcome
established_at m i p PathState.established = (m, ok tt)
established_at m i p validating = (
  refresh_activation
      (record m { paths = set_slot m.paths i (some (record p { state = PathState.established })) }),
  ok tt,
)
established_at m i p lost = distrust m invalid_transition

abbrev pub at_position : PathManager → Option Index → (Index → PathEntry → Outcome) → Outcome
at_position m none f = distrust m unknown_path
at_position m (some i) f = elim (get_slot m.paths i) [
  | none ↦ distrust m unknown_path
  | some p ↦ f i p
]

-- `PathManager::established`
unfoldable pub established_event : PathManager → ℕ → Outcome
unfolding path_position refresh_activation
established_event m id =
    if not m.reliable
    then (m, err unreliable)
    else at_position m (path_position m id) (λ i p. established_at m i p p.state)

abbrev pub is_expected : PathStatus → Bool
is_expected available = true
is_expected PathStatus.backup = false

abbrev pub status_eq : Option PathStatus → PathStatus → Bool
status_eq none s = false
status_eq (some available) available = true
status_eq (some available) PathStatus.backup = false
status_eq (some PathStatus.backup) available = false
status_eq (some PathStatus.backup) PathStatus.backup = true

abbrev pub remote_status_at : PathManager → PathStatus → Index → PathEntry → Outcome
remote_status_at m status i p =
    if not (is_expected status)
    then distrust m status_mismatch
    else (if is_lost p.state
        then distrust m invalid_transition
        else (if status_eq p.remote_status status then (m, ok tt) else (
          refresh_activation (record m {
            paths = set_slot m.paths i (some (record p { remote_status = some status }));
          }),
          ok tt,
        )))

-- `PathManager::remote_status`
unfoldable pub remote_status_event : PathManager → ℕ → PathStatus → Outcome
unfolding path_position refresh_activation
remote_status_event m id status =
    if not m.reliable
    then (m, err unreliable)
    else at_position m (path_position m id) (remote_status_at m status)

abbrev pub lost_at : PathManager → Index → PathEntry → Outcome
lost_at m i p =
    if is_validating p.state || is_established p.state
    then (record m { paths = set_slot m.paths i (some (record p { state = lost })) }, ok tt)
    else distrust m invalid_transition

-- `PathManager::lost`
unfoldable pub lost_event : PathManager → ℕ → Outcome
unfolding path_position
lost_event m id =
    if not m.reliable then (m, err unreliable) else at_position m (path_position m id) (lost_at m)

abbrev pub discarded_at : PathManager → Index → PathEntry → Outcome
discarded_at m i p =
    if is_lost p.state
    then (record m { paths = set_slot m.paths i none }, ok tt)
    else distrust m invalid_transition

-- `PathManager::discarded_event`
unfoldable pub discarded_event : PathManager → ℕ → Outcome
unfolding path_position
discarded_event m id =
    if not m.reliable
    then (m, err unreliable)
    else at_position m (path_position m id) (discarded_at m)

-- The arms of `PathManager::apply_noq_event`.
unfoldable pub dispatch_event : PathManager → PathEvent → Outcome
unfolding established_event remote_status_event lost_event discarded_event
dispatch_event m (established id) = established_event m id
dispatch_event m (abandoned id) = lost_event m id
dispatch_event m (discarded id) = discarded_event m id
dispatch_event m (remote_status id status) = remote_status_event m id status
dispatch_event m observed_addr = (m, ok tt)
dispatch_event m other = distrust m unknown_transport_event

-- `PathManager::apply_noq_event`
unfoldable pub apply_noq_event : PathManager → PathEvent → Outcome
unfolding dispatch_event
apply_noq_event m e =
    let (m', r) = dispatch_event m e in
    if is_err r then (record m' { reliable = false }, r) else (m', r)

-- `PathManager::health`
unfoldable pub health : PathManager → PathHealth
unfolding usable_count path_limit
health m =
    if not m.reliable
    then failed
    else (if not m.activated
        then not_ready
        else (if usable_count m.paths == path_limit m.mode
            then ready
            else (if usable_count m.paths == 0 then failed else degraded)))
