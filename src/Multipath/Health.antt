-- ===== src/Multipath/Health.antt =====
-- What `PathManager::health` (src/multipath.rs) reports, and what refused events do to it.
use quicp.Prelude.{
  ◌≡◌, ◌≢◌, ◌↔◌, inl, inr, refl, true, false, ◌||◌, ◌==◌, if◌then◌else◌, ◌∙◌, is_err, arith,
  Bool-cases, List, [], ◌∷◌,
}
use quicp.Multipath.Calls.{begin, event, lagged, PathCall, call, calls}
use quicp.Multipath.Inv.{IsSound}
use quicp.Multipath.{
  PathManager, PathEvent, failed, ready, degraded, health, usable, usable_count, path_limit,
  failover, is_some_and, dispatch_event, apply_noq_event, begin_path, event_lagged, established,
  abandoned, discarded, remote_status,
}

-- Every path that the mode asks for is usable.
pub record AllUsable (m : PathManager) : Type 0 where
  pub first : is_some_and m.paths.slot_0 usable ≡ true
  pub second : m.mode ≡ failover → is_some_and m.paths.slot_1 usable ≡ true

usable_count-limit :
    {m : PathManager} → IsSound m → (usable_count m.paths ≡ path_limit m.mode) ↔ AllUsable m
unfolding usable_count path_limit usable
usable_count-limit s = ground arith

-- A manager reports `Ready` exactly when its view is reliable, it has been activated, and every
-- path that its mode asks for is usable now.
pub health-ready :
    {m : PathManager}
    → IsSound m
    → (health m ≡ ready) ↔ ((m.reliable ≡ true) × (m.activated ≡ true) × AllUsable m)
unfolding health usable_count path_limit usable
health-ready s = ground arith

-- A sound manager reports `Degraded` exactly when, with a reliable view and once activated, it runs in
-- failover mode and one of its two paths is usable and the other is not.
pub health-degraded :
    {m : PathManager}
    → IsSound m
    → (health m ≡ degraded) ↔ (
        (m.reliable ≡ true)
        × (m.activated ≡ true)
        × (m.mode ≡ failover)
        × (is_some_and m.paths.slot_0 usable ≢ is_some_and m.paths.slot_1 usable))
unfolding health usable_count path_limit usable
health-degraded s = ground arith

mode-call : (m : PathManager) (c : PathCall) → (call m c).mode ≡ m.mode
unfolding call apply_noq_event dispatch_event begin_path event_lagged
mode-call m (begin role id) = ground arith
mode-call m (event (established id)) = ground arith
mode-call m (event (remote_status id s)) = ground arith
mode-call m (event (abandoned id)) = ground arith
mode-call m (event (discarded id)) = ground arith
mode-call m _ = ground arith

activated-dispatch :
    {m : PathManager} (e : PathEvent)
    → IsSound m
    → let m' = (dispatch_event m e).0 in
      m'.activated ≡ (m.activated || usable_count m'.paths == path_limit m.mode)
unfolding dispatch_event usable_count path_limit
activated-dispatch (established id) s = ground arith
activated-dispatch (remote_status id st) s = ground arith
activated-dispatch (abandoned id) s = ground arith
activated-dispatch (discarded id) s = ground arith
activated-dispatch _ s = ground arith

-- A call activates the manager exactly when it leaves as many usable paths as the mode asks for,
-- and no call takes the activation back.
pub activated-call :
    {m : PathManager} (c : PathCall)
    → IsSound m
    → (call m c).activated ≡ (m.activated || usable_count (call m c).paths == path_limit m.mode)
unfolding call event_lagged begin_path usable_count path_limit apply_noq_event
activated-call (begin role id) s = ground arith
activated-call {m} (event e) s = elim (Bool-cases (is_err (dispatch_event m e).1)) [
  | inl bad ↦ rw (call, bad) (activated-dispatch e s)
  | inr good ↦ rw (call, good) (activated-dispatch e s)
]
activated-call lagged s = ground arith

-- An event that is refused makes the view unreliable, and an event that is taken keeps its
-- reliability as it was.
pub reliable-apply_noq_event :
    (m : PathManager) (e : PathEvent)
    → let (m', r) = apply_noq_event m e in m'.reliable ≡ (if is_err r then false else m.reliable)
unfolding apply_noq_event dispatch_event
reliable-apply_noq_event m (established id) = ground arith
reliable-apply_noq_event m (remote_status id st) = ground arith
reliable-apply_noq_event m (abandoned id) = ground arith
reliable-apply_noq_event m (discarded id) = ground arith
reliable-apply_noq_event m _ = ground arith

call-distrusted :
    (m : PathManager) (c : PathCall)
    → m.reliable ≡ false
    → ((call m c).reliable ≡ false) × ((call m c).paths ≡ m.paths)
unfolding call apply_noq_event dispatch_event begin_path event_lagged
call-distrusted m (begin role id) h = ground arith
call-distrusted m (event (established id)) h = ground arith
call-distrusted m (event (remote_status id st)) h = ground arith
call-distrusted m (event (abandoned id)) h = ground arith
call-distrusted m (event (discarded id)) h = ground arith
call-distrusted m _ h = ground arith

calls-distrusted :
    (m : PathManager) (cs : List PathCall)
    → m.reliable ≡ false
    → ((calls m cs).reliable ≡ false) × ((calls m cs).paths ≡ m.paths)
unfolding calls
calls-distrusted m [] h = (h, refl)
calls-distrusted m (c ∷ cs) h =
    let now = call-distrusted m c h in
    let later = calls-distrusted (call m c) cs now.0 in (later.0, later.1 ∙ now.1)

-- Once an event has been refused, the manager reports `Failed` and holds the same paths for good,
-- whatever is called afterwards.
pub health-refused :
    (m : PathManager) (e : PathEvent) (cs : List PathCall)
    → is_err (apply_noq_event m e).1 ≡ true
    → let m' = (apply_noq_event m e).0 in
      (health (calls m' cs) ≡ failed) × ((calls m' cs).paths ≡ m'.paths)
unfolding health
health-refused m e cs h =
    let stays =
      calls-distrusted (apply_noq_event m e).0 cs (rw h at (reliable-apply_noq_event m e)) in
    (rw stays.0, stays.1)
