-- ===== src/Flow/Task/Replay.antt =====
-- `poll_replay` of src/flow.rs: what the task sends again when its replay timer has run out. A timer that
-- is set again is armed as before.
use quicp.Prelude.{
  ℕ, ◌+◌, ◌^◌, Bool, true, false, not, Option, none, some, List, [], ◌∷◌, ◌++◌, Result, ok, err,
  leb, ◌==◌, ◌||◌, ◌&&◌, if◌then◌else◌, length,
}
use quicp.Recovery.{offset_overflow}
use quicp.Recovery.Chunks.{Chunk}
use quicp.Recovery.Replay.{next_chunk_after}
use quicp.Flow.{is_some}
use quicp.Flow.Task.{
  FlowTask, FlowTaskError, datagram, recovery, ReplayStage, repair, source_replay,
  reliable_fallback, WireEntry, Recovery, SendResult, sent, blocked, unsupported, lost,
}
use quicp.Flow.Task.Send.{still_enabled, stream_entry}

-- What `send_tail_repairs` answers: how many symbols it sent, that the connection cannot carry them, or
-- that it failed otherwise.
pub data TailResult : Type 0 where
  repairs : ℕ → TailResult
  not_carried tail_failed : TailResult

-- What the task asks of `ConnectionRecovery` in a turn of the replay, beside `Recovery`.
pub record ReplayTurn : Type 0 where
  pub timer_ready : Bool
  pub repair_budget : ℕ
  pub tail : TailResult

abbrev pub at_stage : FlowTask → ReplayStage → Option ℕ → FlowTask
at_stage t stage cursor = record t { replay_stage = stage; replay_cursor = cursor }

abbrev pub is_repair : ReplayStage → Bool
is_repair repair = true
is_repair source_replay = false
is_repair reliable_fallback = false

abbrev pub is_fallback : ReplayStage → Bool
is_fallback repair = false
is_fallback source_replay = false
is_fallback reliable_fallback = true

-- The replay is over: what is left is on the reliable stream.
abbrev pub given_over : FlowTask → FlowTask
given_over t = record t {
  datagram_enabled = false;
  replay_stage = repair;
  replay_cursor = none;
  replay_timer = false;
}

unfoldable pub fall_back_chunk : FlowTask → Option Chunk → Result (FlowTask × Bool) FlowTaskError
fall_back_chunk t none = ok (given_over t, true)
fall_back_chunk t (some c) =
    if leb (2 ^ 64) (c.offset + length c.bytes)
    then err (recovery offset_overflow)
    else ok (
      record t { wire_queue = t.wire_queue ++ stream_entry c ∷ []; replay_cursor = some c.offset },
      true,
    )

abbrev pub has_wire : List WireEntry → Bool
has_wire [] = false
has_wire (e ∷ queue) = true

unfoldable pub reliable_turn : FlowTask → Result (FlowTask × Bool) FlowTaskError
unfolding fall_back_chunk
reliable_turn t =
    if is_some t.wire_current || has_wire t.wire_queue
    then ok (t, false)
    else fall_back_chunk t (next_chunk_after t.replay t.replay_cursor)

unfoldable pub resend_chunk :
    FlowTask → Option Chunk → SendResult → Result (FlowTask × Bool) FlowTaskError
resend_chunk t none result = ok (at_stage t reliable_fallback none, true)
resend_chunk t (some c) sent = ok (record t { replay_cursor = some c.offset }, true)
resend_chunk t (some c) blocked = ok (t, false)
resend_chunk t (some c) unsupported = err datagram
resend_chunk t (some c) lost = err datagram

unfoldable pub source_turn : Recovery → FlowTask → Result (FlowTask × Bool) FlowTaskError
unfolding resend_chunk reliable_turn
source_turn r t =
    if not (is_fallback t.replay_stage) && t.datagram_enabled
    then resend_chunk t (next_chunk_after t.replay t.replay_cursor) r.send_source
    else reliable_turn t

unfoldable pub repair_turn :
    Recovery → FlowTask → TailResult → Result (FlowTask × Bool) FlowTaskError
unfolding source_turn
repair_turn r t (repairs n) =
    if n == 0 then source_turn r t else ok (record t { replay_stage = source_replay }, true)
repair_turn r t not_carried =
    if r.adaptive_required
    then err datagram
    else source_turn r (record t { datagram_enabled = false })
repair_turn r t tail_failed = err datagram

unfoldable pub replay_turn :
    Recovery → ReplayTurn → FlowTask → Result (FlowTask × Bool) FlowTaskError
unfolding repair_turn source_turn
replay_turn r turn t =
    if not (t.replay_timer && turn.timer_ready)
    then ok (t, false)
    else (if t.replay.bytes == 0
        then ok
            (record t { replay_timer = false; replay_stage = repair; replay_cursor = none }, true)
        else (if is_repair t.replay_stage && t.datagram_enabled
            then (if turn.repair_budget == 0
                then ok (record t { replay_stage = source_replay }, true)
                else repair_turn r t turn.tail)
            else source_turn r t))

unfoldable pub poll_replay :
    Recovery → ReplayTurn → FlowTask → Result (FlowTask × Bool) FlowTaskError
unfolding replay_turn
poll_replay r turn t = replay_turn r turn (still_enabled r t)
