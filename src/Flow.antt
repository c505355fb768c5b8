-- ===== src/Flow.antt =====
-- src/flow.rs: the state that the handle of a flow shares with its control task. A call takes effect
-- under the lock. A waker is a flag, which a wake takes; an error is its kind, without its text.
pub mod Task
pub mod Write
pub mod Writing
pub mod Sending
pub mod Replaying
pub mod Exhaustion
pub mod Handle
pub mod Turns
pub mod Reach
pub mod Retention
pub mod Steps
mod Tests
use quicp.Prelude.{
  ℕ, ◌+◌, ◌-◌, ◌^◌, min, max, Bool, true, false, Option, none, some, List, [], ◌∷◌, ◌++◌, Result,
  ok, err, and_then, ◌>>=◌, ◌>>◌, fail_if, ltb, leb, ◌==◌, ◌||◌, if◌then◌else◌, length,
}
use quicp.Wire.{max_wire_offset}
use quicp.Recovery.{RecoveryError, Range, offset_overflow, flow_control}
use quicp.Recovery.AckRanges
use quicp.Recovery.AckRanges.{AckRanges, validate_insert, range}
use quicp.Recovery.Chunks.{Chunk, total_bytes}
use quicp.Recovery.Replay.{replay_chunk_limit}
use quicp.Recovery.Reassembler
use quicp.Recovery.Reassembler.{Reassembler, is_finished}
use quicp.Recovery.Reassembler.Insert.{Charge, insert_record, insert_record_precharged}
use quicp.Recovery.Reassembler.Read.{read}
use quicp.Session.{ApplicationError, code, flow_protocol}

-- `io::ErrorKind`, as far as a flow uses it.
pub data IoErrorKind : Type 0 where
  connection_aborted connection_reset broken_pipe invalid_data : IoErrorKind

abbrev pub logical_ack_threshold : ℕ
logical_ack_threshold = 16

-- `outbound` has chunks in the order in which they were written.
pub record FlowShared : Type 0 where
  pub outbound : List Chunk
  pub retained_bytes : ℕ
  pub retained_chunks : ℕ
  pub replay_limit : ℕ
  pub replay_chunk_limit : ℕ
  pub next_send_offset : ℕ
  pub receive : Reassembler
  pub receive_final_offset : Option ℕ
  pub receive_window : ℕ
  pub max_receive_offset : ℕ
  pub credit_dirty : Bool
  pub received : AckRanges
  pub ack_pending : ℕ
  pub read_waker : Bool
  pub write_waker : Bool
  pub task_waker : Bool
  pub flush_target : Option ℕ
  pub flushed_offset : ℕ
  pub peer_max_offset : ℕ
  pub shutdown_target : Option ℕ
  pub shutdown_done : Bool
  pub reset : Option ℕ
  pub locally_reset : Bool
  pub handle_dropped : Bool
  pub task_stopped : Bool
  pub error : Option IoErrorKind

-- `FlowState::new`
abbrev pub new :
    (reassembly_buffer_bytes replay_buffer_bytes max_ack_ranges initial_send_offset : ℕ)
    → FlowShared
new reassembly_buffer_bytes replay_buffer_bytes max_ack_ranges initial_send_offset = record {
  outbound = [];
  retained_bytes = 0;
  retained_chunks = 0;
  replay_limit = replay_buffer_bytes;
  replay_chunk_limit = replay_chunk_limit replay_buffer_bytes;
  next_send_offset = initial_send_offset;
  receive = Reassembler.new reassembly_buffer_bytes;
  receive_final_offset = none;
  receive_window = reassembly_buffer_bytes;
  max_receive_offset = reassembly_buffer_bytes;
  credit_dirty = true;
  received = AckRanges.new max_ack_ranges;
  ack_pending = 0;
  read_waker = false;
  write_waker = false;
  task_waker = false;
  flush_target = none;
  flushed_offset = initial_send_offset;
  peer_max_offset = 0;
  shutdown_target = none;
  shutdown_done = false;
  reset = none;
  locally_reset = false;
  handle_dropped = false;
  task_stopped = false;
  error = none;
}

-- `saturating_add(1)` on `u32`
abbrev more_acks : ℕ → ℕ
more_acks pending = min (pending + 1) (2 ^ 32 - 1)

-- The state after an accepted insertion.
abbrev pub with_record : FlowShared → Reassembler → AckRanges → (fin : Bool) (end : ℕ) → FlowShared
with_record s receive received fin end = record s {
  receive = receive;
  receive_final_offset = if fin then some end else s.receive_final_offset;
  received = received;
  ack_pending = more_acks s.ack_pending;
  read_waker = false;
  task_waker =
      if more_acks s.ack_pending == 1 || leb logical_ack_threshold (more_acks s.ack_pending)
      then false
      else s.task_waker;
}

module _ (try_reserve : ℕ → Bool) where
  abbrev pub insert_either :
      Option Charge
      → Reassembler
      → (offset : ℕ) → List ℕ
      → (fin : Bool) → Result Reassembler RecoveryError
  insert_either none receive offset bytes fin = insert_record try_reserve receive offset bytes fin
  insert_either (some charge) receive offset bytes fin =
      insert_record_precharged try_reserve receive offset bytes fin charge

  -- The answers of the shared memory budget are the parameter of the reassembler. The insertion into
  -- the acknowledgement ranges, which the code expects to succeed, is an error where it does not.
  unfoldable pub insert_bytes_with_reservation :
      FlowShared
      → (offset : ℕ) → List ℕ
      → (fin : Bool) → Option Charge
      → Result FlowShared RecoveryError
  insert_bytes_with_reservation s offset bytes fin charge = do
    let end : ℕ = offset + length bytes
    fail_if (leb (2 ^ 64) end) offset_overflow
    fail_if (ltb s.max_receive_offset end) flow_control
    validate_insert s.received (range offset end)
    receive ← insert_either charge s.receive offset bytes fin
    received ← AckRanges.insert s.received (range offset end)
    ok (with_record s receive received fin end)

-- `FlowState::set_final_offset`
unfoldable pub set_final_offset : FlowShared → (offset : ℕ) → Result FlowShared RecoveryError
set_final_offset s offset = do
  fail_if (ltb s.max_receive_offset offset) flow_control
  receive ← Reassembler.set_final_offset s.receive offset
  ok (record s {
    receive = receive;
    receive_final_offset = some offset;
    ack_pending = more_acks s.ack_pending;
    read_waker = false;
    task_waker = false;
  })

-- The credit that the reader's progress allows. The sum saturates beyond the maximal offset.
abbrev pub window_end : FlowShared → Reassembler → ℕ
window_end s receive = min (receive.next_offset + s.receive_window) max_wire_offset

abbrev pub with_credit : FlowShared → Reassembler → FlowShared
with_credit s receive =
    if ltb s.max_receive_offset (window_end s receive)
    then record s {
      receive = receive;
      max_receive_offset = window_end s receive;
      credit_dirty = true;
      task_waker = false;
    }
    else record s { receive = receive }

-- `FlowState::read` for an output of `room` bytes: `none` where the reader has to wait.
abbrev pub read_done :
    FlowShared → List ℕ × Reassembler → FlowShared × Result (Option (List ℕ)) IoErrorKind
read_done s (bytes, receive) =
    let s' = if length bytes == 0 then record s { receive = receive } else with_credit s receive in
    if length bytes == 0
    then (if is_finished receive
        then (s', ok (some bytes))
        else (record s' { read_waker = true }, ok none))
    else (s', ok (some bytes))

unfoldable pub read_flow :
    FlowShared → (room : ℕ) → FlowShared × Result (Option (List ℕ)) IoErrorKind
read_flow s room = elim s.error [
  | some kind ↦ (s, err kind)
  | none ↦ read_done s (read s.receive room)
]

abbrev pub ready_unless :
    Option IoErrorKind
    → (shutdown_target : Option ℕ) → FlowShared
    → (length : ℕ) → FlowShared × Result Bool IoErrorKind
ready_unless (some kind) target s n = (s, err kind)
ready_unless none (some target) s n = (s, err broken_pipe)
ready_unless none none s n =
    if ltb s.replay_limit (s.retained_bytes + n) || leb s.replay_chunk_limit s.retained_chunks
    then (record s { write_waker = true }, ok false)
    else (s, ok true)

-- Whether a write of the length may be queued, and the state with the writer's waker if not.
unfoldable pub enqueue_ready : FlowShared → (length : ℕ) → FlowShared × Result Bool IoErrorKind
enqueue_ready s n = ready_unless s.error s.shutdown_target s n

abbrev pub queued : FlowShared → List ℕ → FlowShared
queued s bytes = record s {
  outbound = s.outbound ++ record { offset = s.next_send_offset; bytes = bytes } ∷ [];
  retained_bytes = s.retained_bytes + length bytes;
  retained_chunks = s.retained_chunks + 1;
  next_send_offset = s.next_send_offset + length bytes;
  task_waker = false;
}

abbrev pub enqueue_if :
    FlowShared × Result Bool IoErrorKind → List ℕ → FlowShared × Result (Option ℕ) IoErrorKind
enqueue_if (s, err kind) bytes = (s, err kind)
enqueue_if (s, ok false) bytes = (s, ok none)
enqueue_if (s, ok true) bytes =
    if leb (2 ^ 64) (s.next_send_offset + length bytes)
    then (s, err invalid_data)
    else (queued s bytes, ok (some (s.next_send_offset + length bytes)))

unfoldable pub enqueue : FlowShared → List ℕ → FlowShared × Result (Option ℕ) IoErrorKind
unfolding enqueue_ready
enqueue s bytes = enqueue_if (enqueue_ready s (length bytes)) bytes

abbrev or_zero : Option ℕ → ℕ
or_zero none = 0
or_zero (some n) = n

unfoldable pub request_flush : FlowShared → FlowShared × Result Bool IoErrorKind
request_flush s = elim s.error [
  | some kind ↦ (s, err kind)
  | none ↦
      let s' = record s { flush_target = some (max (or_zero s.flush_target) s.next_send_offset) } in
      if leb s.next_send_offset s.flushed_offset
      then (s', ok true)
      else (record s' { write_waker = true; task_waker = false }, ok false)
]

abbrev get_or_insert : Option ℕ → ℕ → Option ℕ
get_or_insert none n = some n
get_or_insert (some m) n = some m

unfoldable pub request_shutdown : FlowShared → FlowShared × Result Bool IoErrorKind
request_shutdown s = elim s.error [
  | some kind ↦ (s, err kind)
  | none ↦
      let s' = record s { shutdown_target = get_or_insert s.shutdown_target s.next_send_offset } in
      if s.shutdown_done
      then (s', ok true)
      else (record s' { write_waker = true; task_waker = false }, ok false)
]

abbrev pub is_some : {A : Type 0} → Option A → Bool
is_some none = false
is_some (some a) = true

-- The two subtractions, which the code expects not to pass below 0, stop there.
abbrev pub after_reset : FlowShared → ApplicationError → FlowShared
after_reset s error = record s {
  locally_reset = true;
  reset = some (code error);
  retained_bytes = s.retained_bytes - total_bytes s.outbound;
  retained_chunks = s.retained_chunks - length s.outbound;
  outbound = [];
  error = some connection_aborted;
  read_waker = false;
  write_waker = false;
  task_waker = false;
}

unfoldable pub request_reset : FlowShared → ApplicationError → FlowShared × Bool
request_reset s error =
    if s.locally_reset
    then (s, true)
    else (if s.task_stopped || is_some s.error then (s, false) else (after_reset s error, true))

abbrev pub reject_protocol : FlowShared → FlowShared
reject_protocol s = (request_reset s flow_protocol).0

abbrev or_kind : Option IoErrorKind → IoErrorKind → Option IoErrorKind
or_kind none kind = some kind
or_kind (some k) kind = some k

unfoldable pub fail_with_kind : FlowShared → IoErrorKind → FlowShared
fail_with_kind s kind = record s {
  error = or_kind s.error kind;
  read_waker = false;
  write_waker = false;
}

unfoldable pub drop_handle : FlowShared → FlowShared
drop_handle s = record s { handle_dropped = true; task_waker = false }

unfoldable pub discard_retained : FlowShared → FlowShared
discard_retained s = record s {
  outbound = [];
  retained_bytes = 0;
  retained_chunks = 0;
  write_waker = false;
}

unfoldable pub mark_task_stopped : FlowShared → FlowShared
mark_task_stopped s = record s { task_stopped = true; read_waker = false; write_waker = false }
