-- ===== src/Multipath/Admission.antt =====
-- Which calls of the `PathManager` (src/multipath.rs) are accepted.
use quicp.Prelude.{ℕ, ◌≡◌, ◌↔◌, Bool, true, false, ◌==◌, ok, arith, refl, ◌&&◌, not}
use quicp.Multipath.Inv.{IsSound}
use quicp.Multipath.{
  observed_addr, other, PathEvent, PathManager, PathEntry, any_path, is_lost, dispatch_event,
  is_expected, apply_noq_event, established, abandoned, discarded, remote_status,
}

-- A held path with this identifier passes the test.
abbrev pub holds : PathManager → ℕ → (PathEntry → Bool) → Bool
holds m id f = any_path m.paths (λ p. p.id == id && f p)

-- The event is one that a path in this state may receive.
abbrev pub event_fits : PathEvent → PathEntry → Bool
event_fits (established id) p = not (is_lost p.state)
event_fits (remote_status id s) p = is_expected s && not (is_lost p.state)
event_fits (abandoned id) p = not (is_lost p.state)
event_fits (discarded id) p = is_lost p.state
event_fits observed_addr p = true
event_fits other p = false

-- What an event asks of the manager.
abbrev pub Acceptable : PathManager → PathEvent → Type 0
Acceptable m (established id) =
    (m.reliable ≡ true) × (holds m id (event_fits (established id)) ≡ true)
Acceptable m (remote_status id s) =
    (m.reliable ≡ true) × (holds m id (event_fits (remote_status id s)) ≡ true)
Acceptable m (abandoned id) = (m.reliable ≡ true) × (holds m id (event_fits (abandoned id)) ≡ true)
Acceptable m (discarded id) = (m.reliable ≡ true) × (holds m id (event_fits (discarded id)) ≡ true)
Acceptable m observed_addr = Unit
Acceptable m other = ⊥

dispatch_accepts :
    {m : PathManager} (e : PathEvent)
    → IsSound m
    → ((dispatch_event m e).1 ≡ ok tt) ↔ Acceptable m e
unfolding dispatch_event
dispatch_accepts (established id) s = ground arith
dispatch_accepts (remote_status id st) s = ground arith
dispatch_accepts (abandoned id) s = ground arith
dispatch_accepts (discarded id) s = ground arith
dispatch_accepts observed_addr s = (λ _. tt, λ _. refl)
dispatch_accepts other s = ground arith

result_of_event :
    (m : PathManager) (e : PathEvent) → (apply_noq_event m e).1 ≡ (dispatch_event m e).1
unfolding apply_noq_event
result_of_event m e = ground arith

-- Of a sound manager an event is accepted exactly when it is an observed address, or the view is
-- reliable and a held path with the event's identifier fits it: a path that is not lost for an
-- establishment, for an abandonment and for the status `Available`, and a lost one for a discard.
pub event_accepts :
    {m : PathManager} (e : PathEvent)
    → IsSound m
    → ((apply_noq_event m e).1 ≡ ok tt) ↔ Acceptable m e
event_accepts {m} e s = rw (result_of_event m e) (dispatch_accepts e s)
