-- ===== src/Multipath/Calls.antt =====
-- Sequences of calls of the `PathManager` (src/multipath.rs) by the owner of a connection.
use quicp.Prelude.{ℕ, List, [], ◌∷◌}
use quicp.Multipath.{PathRole, PathManager, PathEvent, begin_path, apply_noq_event, event_lagged}

pub data PathCall : Type 0 where
  begin : PathRole → ℕ → PathCall
  event : PathEvent → PathCall
  lagged : PathCall

unfoldable pub call : PathManager → PathCall → PathManager
call m (begin role id) = (begin_path m role id).0
call m (event e) = (apply_noq_event m e).0
call m lagged = event_lagged m

unfoldable pub calls : PathManager → List PathCall → PathManager
calls m [] = m
calls m (c ∷ cs) = calls (call m c) cs
