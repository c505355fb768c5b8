-- ===== src/Flow/Task.antt =====
-- The control task of src/flow.rs: what it does with a frame, with the bytes that wait to be sent, with
-- acknowledgements and with the end of a flow. The answers of the connection's recovery and of the
-- transport are parameters, a timer is whether it is armed, and a frame is queued before it is encoded.
-- A turn, and the application of a frame, is one operation, although the code takes the lock of the
-- shared state several times in some, between which a call of the handle may come.
-- An operation that fails ends the task, which then drops what it retains, so an error has no state.
pub mod Send
pub mod Frames
pub mod Replay
use quicp.Prelude.{
  ℕ, ◌+◌, ◌-◌, ◌^◌, min, max, Bool, true, false, not, Option, none, some, List, [], ◌∷◌, ◌++◌, map,
  Result, ok, err, and_then, ◌>>=◌, ◌>>◌, fail_if, map_err, ltb, leb, ◌==◌, ◌||◌, ◌&&◌,
  if◌then◌else◌, length, take, drop,
}
use quicp.Wire.{CodecError}
use quicp.Wire.Control.Payload.{ControlFrame}
use quicp.Recovery.{RecoveryError, Range, invalid_range, offset_overflow}
use quicp.Recovery.AckRanges.{range, from_wire}
use quicp.Recovery.Chunks.{Chunk}
use quicp.Recovery.Replay as ReplayBuffer
use quicp.Recovery.Replay.{ReplayBuffer, retain, acknowledge}
use quicp.Recovery.Reassembler.{acknowledge_consumed}
use quicp.Flow.{FlowShared, set_final_offset, insert_bytes_with_reservation, logical_ack_threshold}

pub data ReplayStage : Type 0 where
  repair source_replay reliable_fallback : ReplayStage

-- A frame on its way, what is flushed when it is written, and what it acknowledges.
pub record WireEntry : Type 0 where
  pub frame : ControlFrame
  pub flushed_offset : Option ℕ
  pub acked_offset : Option ℕ

pub record FlowTask : Type 0 where
  pub shared : FlowShared
  pub replay : ReplayBuffer
  pub wire_queue : List WireEntry
  pub wire_current : Option WireEntry
  pub pending_ack : Option (ℕ × List Range)
  pub pending_credit : Option ℕ
  pub datagram_enabled : Bool
  pub replay_stage : ReplayStage
  pub replay_cursor : Option ℕ
  pub replay_timer : Bool
  pub fin_queued : Bool
  pub send_finished : Bool
  pub acked_receive_offset : ℕ

-- `FlowTaskError`, without the transport's errors that its cases carry.
pub data FlowTaskError : Type 0 where
  codec : CodecError → FlowTaskError
  unexpected_control datagram connection : FlowTaskError
  recovery : RecoveryError → FlowTaskError

-- `FlowTask::new`
abbrev pub new_task : FlowShared → (replay_buffer_bytes : ℕ) → (is_adaptive : Bool) → FlowTask
new_task shared replay_buffer_bytes is_adaptive = record {
  shared = shared;
  replay = ReplayBuffer.new replay_buffer_bytes;
  wire_queue = [];
  wire_current = none;
  pending_ack = none;
  pending_credit = none;
  datagram_enabled = is_adaptive;
  replay_stage = repair;
  replay_cursor = none;
  replay_timer = false;
  fin_queued = false;
  send_finished = false;
  acked_receive_offset = 0;
}

-- What `send_source` answers: sent, full, not possible on this connection, or no connection.
pub data SendResult : Type 0 where
  sent blocked unsupported lost : SendResult

-- What the task asks of `ConnectionRecovery` in one turn.
pub record Recovery : Type 0 where
  pub enabled : Bool
  pub adaptive_required : Bool
  pub max_source_payload : ℕ
  pub max_stream_payload : ℕ
  pub max_ack_ranges : ℕ
  pub send_source : SendResult

abbrev pub range_of : ℕ × ℕ → Range
range_of (start, end) = range start end

-- The frame `Ack`: what the replay buffer releases is no longer retained. The subtractions, which the
-- code expects not to pass below 0, stop there.
abbrev pub released : FlowTask → ReplayBuffer → (bytes chunks : ℕ) → FlowTask
released t replay bytes chunks = if bytes == 0 then record t { replay = replay } else record t {
  replay = replay;
  shared = record t.shared {
    retained_bytes = t.shared.retained_bytes - bytes;
    retained_chunks = t.shared.retained_chunks - chunks;
    write_waker = false;
  };
  replay_stage = repair;
  replay_cursor = none;
  replay_timer = t.replay_timer || (not (replay.bytes == 0) && t.datagram_enabled);
}

abbrev pub settled : FlowTask → FlowTask
settled t =
    if t.replay.bytes == 0
    then record t { replay_stage = repair; replay_cursor = none; replay_timer = false }
    else t

unfoldable pub apply_ack :
    Recovery → FlowTask → (contiguous : ℕ) → List (ℕ × ℕ) → Result FlowTask FlowTaskError
apply_ack r t contiguous ranges = do
  ack ←
      map_err recovery
        (from_wire contiguous (map range_of ranges) r.max_ack_ranges t.shared.next_send_offset)
  let kept = acknowledge t.replay ack
  ok (settled (released t kept.0 kept.1.0 kept.1.1))

abbrev pub with_shared : FlowTask → FlowShared → FlowTask
with_shared t shared = record t { shared = shared }

unfoldable pub apply_max_offset : FlowTask → (maximum : ℕ) → Result FlowTask FlowTaskError
apply_max_offset t maximum =
    if ltb maximum t.shared.peer_max_offset
    then err (recovery invalid_range)
    else ok (with_shared t (record t.shared { peer_max_offset = maximum; task_waker = false }))

unfoldable pub apply_fin : FlowTask → (offset : ℕ) → Result FlowTask FlowTaskError
apply_fin t offset = do
  shared ← map_err recovery (set_final_offset t.shared offset)
  ok (with_shared t shared)

module _ (try_reserve : ℕ → Bool) (r : Recovery) where
  unfoldable pub apply_stream_data :
      FlowTask → (offset : ℕ) → (is_fin : Bool) → List ℕ → Result FlowTask FlowTaskError
  apply_stream_data t offset is_fin bytes = do
    fail_if (ltb r.max_stream_payload (length bytes)) (codec CodecError.limit)
    shared ←
        map_err recovery
          (insert_bytes_with_reservation try_reserve t.shared offset bytes is_fin none)
    ok (with_shared t shared)

  unfoldable pub apply_control : FlowTask → ControlFrame → Result FlowTask FlowTaskError
  unfolding apply_ack apply_max_offset apply_fin
  apply_control t (ControlFrame.ack contiguous ranges) = apply_ack r t contiguous ranges
  apply_control t (ControlFrame.max_offset maximum) = apply_max_offset t maximum
  apply_control t (ControlFrame.fin offset) = apply_fin t offset
  apply_control t (ControlFrame.stream_data offset is_fin bytes) =
      apply_stream_data t offset is_fin bytes
  apply_control t (ControlFrame.capabilities c) = err unexpected_control
  apply_control t (ControlFrame.open_request o) = err unexpected_control
  apply_control t (ControlFrame.status s) = err unexpected_control
  apply_control t (ControlFrame.early_open token nonce request initial) = err unexpected_control
