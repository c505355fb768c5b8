-- ===== src/Multipath/Lifecycle.antt =====
-- The life of one path slot (src/multipath.rs) as a relation, which every accepted event follows.
use quicp.Prelude.{ℕ, ◌≡◌, ◌≢◌, Option, none, some, arith, is_err, Bool-cases, inl, inr}
use quicp.Multipath.Calls.{begin, event, lagged, PathCall, call}
use quicp.Multipath.{
  Index, PathRole, PathState, validating, lost, available, PathEntry, PathManager, PathEvent,
  get_slot, fresh_path, begin_path, dispatch_event, apply_noq_event, event_lagged, established,
  abandoned, discarded, remote_status,
}

-- What one call may do to a slot.
pub data SlotStep : Option PathEntry → Option PathEntry → Type 0 where
  keep : {s : Option PathEntry} → SlotStep s s
  reserve : (id : ℕ) → SlotStep none (some (fresh_path id))
  validate :
      {p : PathEntry}
      → p.state ≡ validating
      → SlotStep (some p) (some (record p { state = PathState.established }))
  hear :
      {p : PathEntry}
      → p.state ≢ lost
      → SlotStep (some p) (some (record p { remote_status = some available }))
  lose : {p : PathEntry} → p.state ≢ lost → SlotStep (some p) (some (record p { state = lost }))
  drop : {p : PathEntry} → p.state ≡ lost → SlotStep (some p) none

ruleset slot_steps = (keep, reserve, validate, hear, lose, drop)

begin_path_step :
    (m : PathManager) (role : PathRole) (id : ℕ) (i : Index)
    → SlotStep (get_slot m.paths i) (get_slot (begin_path m role id).0.paths i)
unfolding begin_path
begin_path_step m role id i = grind (arith, slot_steps)

dispatch_step :
    (m : PathManager) (e : PathEvent) (i : Index)
    → SlotStep (get_slot m.paths i) (get_slot (dispatch_event m e).0.paths i)
unfolding dispatch_event
dispatch_step m (established id) i = grind (arith, slot_steps)
dispatch_step m (abandoned id) i = grind (arith, slot_steps)
dispatch_step m (discarded id) i = grind (arith, slot_steps)
dispatch_step m (remote_status id status) i = grind (arith, slot_steps)
dispatch_step m _ i = grind (arith, slot_steps)

get_slot_of_event :
    (m : PathManager) (e : PathEvent) (i : Index)
    → get_slot (apply_noq_event m e).0.paths i ≡ get_slot (dispatch_event m e).0.paths i
unfolding apply_noq_event
get_slot_of_event m e i = elim (Bool-cases (is_err (dispatch_event m e).1)) [
  | inl bad ↦ rw bad
  | inr good ↦ rw good
]

pub call_step :
    (m : PathManager) (c : PathCall) (i : Index)
    → SlotStep (get_slot m.paths i) (get_slot (call m c).paths i)
unfolding call event_lagged
call_step m (begin role id) i = begin_path_step m role id i
call_step m (event e) i = rw (get_slot_of_event m e i) (dispatch_step m e i)
call_step m lagged i = keep

pub data SlotSteps : Option PathEntry → Option PathEntry → Type 0 where
  here : {s : Option PathEntry} → SlotSteps s s
  step : {s t u : Option PathEntry} → SlotStep s t → SlotSteps t u → SlotSteps s u
