-- ===== src/Multipath/Tests.antt =====
-- Runs of the `PathManager` (src/multipath.rs) and instances of its theorems.
use quicp.Prelude.{
  ◌≡◌, refl, true, List, [], ◌∷◌, ok, arith, is_err, some, none, if◌then◌else◌, ◌↔◌, false,
}
use quicp.Multipath.{
  failover, PathRole, available, PathState, lost, PathEntry, PathManager, established, abandoned,
  discarded, remote_status, new, apply_noq_event, health, ready, degraded, failed, usable_count,
  path_limit, usable, begin_path,
}
use quicp.Multipath.Calls.{PathCall, begin, event, call, calls}
use quicp.Multipath.Inv.{IsSound, reachable-IsSound}
use quicp.Multipath.Health.{reliable-apply_noq_event, health-refused}
use quicp.Multipath.Admission.{event_accepts, Acceptable}

abbrev up : List PathCall
up =
    begin PathRole.primary 0
    ∷ event (established 0)
    ∷ event (remote_status 0 available)
    ∷ begin PathRole.backup 1
    ∷ event (established 1)
    ∷ event (remote_status 1 available)
    ∷ []

abbrev entry : PathEntry
entry = record { id = 0; state = PathState.established; remote_status = some available }

abbrev both_up : PathManager
both_up = record {
  mode = failover;
  paths = record { slot_0 = some entry; slot_1 = some (record entry { id = 1 }) };
  activated = true;
  reliable = true;
}

abbrev one_lost : PathManager
one_lost = record both_up {
  paths = record { slot_0 = some entry; slot_1 = some (record entry { id = 1; state = lost }) };
}

up_runs : calls (new failover) up ≡ both_up
unfolding calls call begin_path apply_noq_event new usable
up_runs = refl

losing :
    (calls both_up (event (abandoned 1) ∷ []) ≡ one_lost)
    × (health both_up ≡ ready)
    × (health one_lost ≡ degraded)
unfolding calls call apply_noq_event health usable
losing = (refl, refl, refl)

both_up-IsSound : IsSound both_up
unfolding usable_count path_limit usable
both_up-IsSound = ground arith

one_lost-IsSound : IsSound one_lost
unfolding usable_count path_limit usable
one_lost-IsSound = ground arith

reachable-IsSound_example : IsSound (calls (new failover) up)
reachable-IsSound_example = reachable-IsSound failover up

reliable-apply_noq_event_example :
    (apply_noq_event both_up (discarded 1)).0.reliable
    ≡ (if is_err (apply_noq_event both_up (discarded 1)).1 then false else true)
reliable-apply_noq_event_example = reliable-apply_noq_event both_up (discarded 1)

early_discard : is_err (apply_noq_event both_up (discarded 1)).1 ≡ true
unfolding apply_noq_event
early_discard = refl

health-refused_example :
    let m' = (apply_noq_event both_up (discarded 1)).0 in
    (health (calls m' up) ≡ failed) × ((calls m' up).paths ≡ m'.paths)
health-refused_example = health-refused both_up (discarded 1) up early_discard

event_accepts_example :
    ((apply_noq_event one_lost (discarded 1)).1 ≡ ok tt) ↔ Acceptable one_lost (discarded 1)
event_accepts_example = event_accepts {m = one_lost} (discarded 1) one_lost-IsSound

abbrev half_up : PathManager
half_up = record both_up {
  paths = record { slot_0 = some entry; slot_1 = none };
  activated = false;
}
