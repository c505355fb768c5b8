-- ===== src/Multipath/Inv.antt =====
-- The invariant of `PathManager` (src/multipath.rs), and that every method keeps it.
use quicp.Prelude.{
  ℕ, ◌≡◌, ◌≢◌, Bool, true, false, ◌&&◌, not, Option, none, some, ◌==◌, arith, is_err, Bool-cases,
  inl, inr, List, [], ◌∷◌,
}
use quicp.Multipath.Calls.{begin, event, lagged, PathCall, call, calls}
use quicp.Multipath.{
  MultipathMode, PathRole, PathStatus, PathEntry, PathSlots, PathManager, PathEvent, is_some_and,
  is_validating, is_available, path_limit, usable_count, new, event_lagged, begin_path,
  established_event, remote_status_event, lost_event, discarded_event, dispatch_event,
  apply_noq_event, mode_is_off, established, abandoned, discarded, remote_status, observed_addr,
  other,
}

-- Both slots are taken, and the test holds of the pair.
abbrev pub both_paths : PathSlots → (PathEntry → PathEntry → Bool) → Bool
both_paths s f = is_some_and s.slot_0 (λ p. is_some_and s.slot_1 (λ q. f p q))

abbrev pub has_odd_status : Option PathStatus → Bool
has_odd_status none = false
has_odd_status (some s) = not (is_available (some s))

pub record IsSound (m : PathManager) : Type 0 where
  pub distinct_ids : both_paths m.paths (λ p q. p.id == q.id) ≡ false
  pub one_validation :
      both_paths m.paths (λ p q. is_validating p.state && is_validating q.state) ≡ false
  pub single_when_off : mode_is_off m.mode ≡ true → is_some_and m.paths.slot_1 (λ p. true) ≡ false
  pub expected_0 : is_some_and m.paths.slot_0 (λ p. has_odd_status p.remote_status) ≡ false
  pub expected_1 : is_some_and m.paths.slot_1 (λ p. has_odd_status p.remote_status) ≡ false
  pub activation_seen : m.activated ≡ false → usable_count m.paths ≢ path_limit m.mode

pub new-IsSound : (mode : MultipathMode) → IsSound (new mode)
unfolding new usable_count path_limit
new-IsSound mode = ground arith

pub event_lagged-IsSound : {m : PathManager} → IsSound m → IsSound (event_lagged m)
unfolding event_lagged usable_count path_limit
event_lagged-IsSound s = ground arith

pub begin_path-IsSound :
    {m : PathManager} (role : PathRole) (id : ℕ) → IsSound m → IsSound (begin_path m role id).0
unfolding begin_path usable_count path_limit
begin_path-IsSound role id s = ground arith

pub established-IsSound :
    {m : PathManager} (id : ℕ) → IsSound m → IsSound (established_event m id).0
unfolding established_event usable_count path_limit
established-IsSound id s = ground arith

pub remote_status-IsSound :
    {m : PathManager} (id : ℕ) (status : PathStatus)
    → IsSound m
    → IsSound (remote_status_event m id status).0
unfolding remote_status_event usable_count path_limit
remote_status-IsSound id status s = ground arith

pub lost-IsSound : {m : PathManager} (id : ℕ) → IsSound m → IsSound (lost_event m id).0
unfolding lost_event usable_count path_limit
lost-IsSound id s = ground arith

pub discarded-IsSound : {m : PathManager} (id : ℕ) → IsSound m → IsSound (discarded_event m id).0
unfolding discarded_event usable_count path_limit
discarded-IsSound id s = ground arith

dispatch-IsSound : {m : PathManager} (e : PathEvent) → IsSound m → IsSound (dispatch_event m e).0
unfolding dispatch_event event_lagged
dispatch-IsSound (established id) s = established-IsSound id s
dispatch-IsSound (abandoned id) s = lost-IsSound id s
dispatch-IsSound (discarded id) s = discarded-IsSound id s
dispatch-IsSound (remote_status id status) s = remote_status-IsSound id status s
dispatch-IsSound observed_addr s = s
dispatch-IsSound other s = event_lagged-IsSound s

pub apply_noq_event-IsSound :
    {m : PathManager} (e : PathEvent) → IsSound m → IsSound (apply_noq_event m e).0
unfolding apply_noq_event event_lagged
apply_noq_event-IsSound {m} e s = elim (Bool-cases (is_err (dispatch_event m e).1)) [
  | inl bad ↦ rw bad (event_lagged-IsSound (dispatch-IsSound e s))
  | inr good ↦ rw good (dispatch-IsSound e s)
]

pub call-IsSound : {m : PathManager} (c : PathCall) → IsSound m → IsSound (call m c)
unfolding call
call-IsSound (begin role id) s = begin_path-IsSound role id s
call-IsSound (event e) s = apply_noq_event-IsSound e s
call-IsSound lagged s = event_lagged-IsSound s

pub calls-IsSound : {m : PathManager} (cs : List PathCall) → IsSound m → IsSound (calls m cs)
unfolding calls
calls-IsSound [] s = s
calls-IsSound {m} (c ∷ cs) s = calls-IsSound {m = call m c} cs (call-IsSound c s)

-- Whatever calls are made of a new manager: two held paths have different identifiers, at most one
-- is being validated, mode `Off` holds no backup path, no held path keeps a status other than
-- `Available`, and an inactive manager does not have all its paths usable.
pub reachable-IsSound : (mode : MultipathMode) (cs : List PathCall) → IsSound (calls (new mode) cs)
reachable-IsSound mode cs = calls-IsSound cs (new-IsSound mode)
