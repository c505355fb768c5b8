-- ===== src/Flow/Reach.antt =====
-- The states of a flow of src/flow.rs that the calls of its handle and the turns of its task reach, and
-- that each of them retains exactly what was written and not acknowledged.
use quicp.Prelude.{
  Option, ℕ, ◌<◌, ◌≤◌, ◌≡◌, refl, Bool, List, Result, ok, err, length, Ensures-eq_ok, arith,
}
use quicp.Wire.Control.Payload.{ControlFrame}
use quicp.Recovery.Chunks.{total_bytes}
use quicp.Recovery.Replay.Inv as Replay
use quicp.Session.{ApplicationError}
use quicp.Flow as Flow
use quicp.Flow.{
  FlowShared, insert_bytes_with_reservation, FlowShared, IoErrorKind, broken_pipe, enqueue,
  enqueue_ready, ready_unless, enqueue_if, queued, request_flush, request_shutdown, request_reset,
  after_reset, read_flow, read_done, with_credit, window_end, fail_with_kind, drop_handle, is_some,
}
use quicp.Flow.Task.{FlowTask, FlowTaskError, Recovery, new_task, with_shared, apply_control}
use quicp.Flow.Task.Send.{process_outbound}
use quicp.Flow.Task.Frames.{
  queue_pending_feedback, take_wire, frame_written, queue_terminal_frames, finish_send_if_ready,
}
use quicp.Flow.Retention.{IsRetained}
use quicp.Flow.Sending.{Progress, goes_on, no_datagram, no_connection, process_outbound-Progress}
use quicp.Recovery.Reassembler.Insert.{Charge}
use quicp.Flow.Steps.{insert_bytes-Retained, IsOffered, apply_control-Retained}
use mathlib.Core.Path.{subst}
use quicp.Recovery.AckRanges.{AckRanges}
use quicp.Recovery.Replay.{acknowledge}
use quicp.Flow.Task.Replay.{ReplayTurn, poll_replay}
use quicp.Flow.Replaying.{poll_replay-Progress}
use quicp.Flow.Handle.{
  enqueue-IsRetained, request_flush-IsRetained, request_shutdown-IsRetained,
  request_reset-IsRetained, read_flow-IsRetained, fail_with_kind-IsRetained, drop_handle-IsRetained,
}
use quicp.Flow.Turns.{
  feedback-IsRetained, queue_terminal_frames-IsRetained, finish_send-IsRetained,
  take_wire-IsRetained, frame_written-IsRetained,
}

-- The states that the calls of the handle and the turns of the task reach, from a new flow. A write has
-- a byte at least, and a frame is one that the codec gives. The connection may answer as it likes.
pub data Reaches : FlowTask → Type 0 where
  started :
      (reassembly replay ack_ranges initial : ℕ) (is_adaptive : Bool)
      → Reaches (new_task (Flow.new reassembly replay ack_ranges initial) replay is_adaptive)
  written :
      {t : FlowTask} (bytes : List ℕ)
      → 0 < length bytes
      → Reaches t
      → Reaches (with_shared t (enqueue t.shared bytes).0)
  received :
      {t : FlowTask} (room : ℕ) → Reaches t → Reaches (with_shared t (read_flow t.shared room).0)
  flush_asked : {t : FlowTask} → Reaches t → Reaches (with_shared t (request_flush t.shared).0)
  shut : {t : FlowTask} → Reaches t → Reaches (with_shared t (request_shutdown t.shared).0)
  reset :
      {t : FlowTask} (e : ApplicationError)
      → Reaches t
      → Reaches (with_shared t (request_reset t.shared e).0)
  failed :
      {t : FlowTask} (kind : IoErrorKind)
      → Reaches t
      → Reaches (with_shared t (fail_with_kind t.shared kind))
  dropped : {t : FlowTask} → Reaches t → Reaches (with_shared t (drop_handle t.shared))
  inserted :
      {t : FlowTask} {s : FlowShared} (try_reserve : ℕ → Bool) (offset : ℕ) (is_fin : Bool)
      (bytes : List ℕ) (charge : Option Charge)
      → insert_bytes_with_reservation try_reserve t.shared offset bytes is_fin charge ≡ ok s
      → Reaches t
      → Reaches (with_shared t s)
  controlled :
      {t u : FlowTask} (try_reserve : ℕ → Bool) (r : Recovery) (frame : ControlFrame)
      → IsOffered frame
      → apply_control try_reserve r t frame ≡ ok u
      → Reaches t
      → Reaches u
  acknowledging :
      {t : FlowTask} (timer_ready : Bool)
      → Reaches t
      → Reaches (queue_pending_feedback t timer_ready)
  sending :
      {t u : FlowTask} (r : Recovery) (progressed : Bool)
      → 0 < r.max_stream_payload
      → process_outbound r t ≡ ok (u, progressed)
      → Reaches t
      → Reaches u
  replaying :
      {t u : FlowTask} (r : Recovery) (turn : ReplayTurn) (progressed : Bool)
      → poll_replay r turn t ≡ ok (u, progressed)
      → Reaches t
      → Reaches u
  taken : {t : FlowTask} → Reaches t → Reaches (take_wire t)
  wrote : {t : FlowTask} → Reaches t → Reaches (frame_written t)
  ending : {t : FlowTask} → Reaches t → Reaches (queue_terminal_frames t)
  finishing : {t : FlowTask} → Reaches t → Reaches (finish_send_if_ready t)

-- The flow retains what was written and not acknowledged, for some frontier.
pub data Retains (t : FlowTask) : Type 0 where
  retains : (frontier : ℕ) → IsRetained t frontier → Retains t

start-Retains :
    (reassembly replay ack_ranges initial : ℕ) (is_adaptive : Bool)
    → Retains (new_task (Flow.new reassembly replay ack_ranges initial) replay is_adaptive)
start-Retains reassembly replay ack_ranges initial is_adaptive = retains initial (record {
  waiting = omega arith;
  behind = tt;
  replay_inv = record {
    disjoint = tt;
    counted = refl;
    bytes_bounded = omega arith;
    chunks_bounded = omega arith;
  };
  byte_count = refl;
  chunk_count = refl;
  bytes_bounded = omega arith;
  chunks_bounded = omega arith;
  same_limit = refl;
  same_places = refl;
  peer_bounded = omega arith;
})

abbrev AfterTurn : Result (FlowTask × Bool) FlowTaskError → Type 0
AfterTurn (ok (t, b)) = Retains t
AfterTurn (err e) = Unit {0}

Progress-AfterTurn : (m : Result (FlowTask × Bool) FlowTaskError) → Progress m → AfterTurn m
Progress-AfterTurn m (goes_on frontier v) = retains frontier v
Progress-AfterTurn m no_datagram = tt
Progress-AfterTurn m no_connection = tt

Retains-Progress :
    (r : Recovery) (t : FlowTask)
    → 0 < r.max_stream_payload
    → Retains t
    → Progress (process_outbound r t)
Retains-Progress r t h (retains frontier v) = process_outbound-Progress r t frontier h v

Retains-Replaying :
    (r : Recovery) (turn : ReplayTurn) (t : FlowTask) → Retains t → Progress (poll_replay r turn t)
Retains-Replaying r turn t (retains frontier v) = poll_replay-Progress r turn t frontier v

keeps :
    {t u : FlowTask}
    → ((frontier : ℕ) → IsRetained t frontier → IsRetained u frontier)
    → Retains t
    → Retains u
keeps k (retains frontier v) = retains frontier (k frontier v)

-- In every state of a flow that the calls of its handle and the turns of its task reach, through writes of
-- a byte at least, frames with wire offsets and sends where the stream takes some payload: the bytes and
-- the chunks that are counted as retained are those that wait to be sent and those in the replay
-- buffer together, and within the limits of the flow; what waits is in order, apart, without empty
-- chunks, up to the next offset, and behind it stands what was sent, in a replay buffer that satisfies its invariant.
pub reaches-Retains : {t : FlowTask} → Reaches t → Retains t
reaches-Retains (started reassembly replay ack_ranges initial is_adaptive) =
    start-Retains reassembly replay ack_ranges initial is_adaptive
reaches-Retains (written {t} bytes h s) =
    keeps (λ frontier v. enqueue-IsRetained t bytes frontier h v) (reaches-Retains s)
reaches-Retains (received {t} room s) =
    keeps (λ frontier v. read_flow-IsRetained t room frontier v) (reaches-Retains s)
reaches-Retains (flush_asked {t} s) =
    keeps (λ frontier v. request_flush-IsRetained t frontier v) (reaches-Retains s)
reaches-Retains (shut {t} s) =
    keeps (λ frontier v. request_shutdown-IsRetained t frontier v) (reaches-Retains s)
reaches-Retains (reset {t} e s) =
    keeps (λ frontier v. request_reset-IsRetained t e frontier v) (reaches-Retains s)
reaches-Retains (failed {t} kind s) =
    keeps (λ frontier v. fail_with_kind-IsRetained t kind frontier v) (reaches-Retains s)
reaches-Retains (dropped {t} s) =
    keeps (λ frontier v. drop_handle-IsRetained t frontier v) (reaches-Retains s)
reaches-Retains (inserted {t} {s} try_reserve offset is_fin bytes charge ran h) =
    keeps
      (λ frontier v.
        Ensures-eq_ok (insert_bytes-Retained try_reserve t offset is_fin bytes charge frontier v)
          ran)
      (reaches-Retains h)
reaches-Retains (controlled {t} {u} try_reserve r frame offered ran s) =
    keeps
      (λ frontier v.
        Ensures-eq_ok (apply_control-Retained try_reserve r t frame frontier offered v) ran)
      (reaches-Retains s)
reaches-Retains (acknowledging {t} timer_ready s) =
    keeps (λ frontier v. feedback-IsRetained t timer_ready frontier v) (reaches-Retains s)
reaches-Retains (sending {t} {u} r progressed h ran s) =
    subst AfterTurn ran
      (Progress-AfterTurn (process_outbound r t) (Retains-Progress r t h (reaches-Retains s)))
reaches-Retains (replaying {t} {u} r turn progressed ran s) =
    subst AfterTurn ran
      (Progress-AfterTurn (poll_replay r turn t) (Retains-Replaying r turn t (reaches-Retains s)))
reaches-Retains (taken {t} s) =
    keeps (λ frontier v. take_wire-IsRetained t frontier v) (reaches-Retains s)
reaches-Retains (wrote {t} s) =
    keeps (λ frontier v. frame_written-IsRetained t frontier v) (reaches-Retains s)
reaches-Retains (ending {t} s) =
    keeps (λ frontier v. queue_terminal_frames-IsRetained t frontier v) (reaches-Retains s)
reaches-Retains (finishing {t} s) =
    keeps (λ frontier v. finish_send-IsRetained t frontier v) (reaches-Retains s)

-- In a state that the flow reaches, where the stream takes some payload: whatever the connection and the
-- timer answer, a turn of the send side and a turn of the replay go on with the retention accounted for,
-- or end because the connection cannot carry the flow. The replay buffer never refuses the bytes that
-- are sent, and no offset overflows.
pub reaches-Progress :
    (r : Recovery) (turn : ReplayTurn) (t : FlowTask)
    → 0 < r.max_stream_payload
    → Reaches t
    → Progress (process_outbound r t) × Progress (poll_replay r turn t)
reaches-Progress r turn t h s =
    (Retains-Progress r t h (reaches-Retains s), Retains-Replaying r turn t (reaches-Retains s))

-- The four subtractions of the flow that the code expects to succeed.
abbrev pub NeverAborts : FlowTask → AckRanges → Type 0
NeverAborts t ack =
    ((acknowledge t.replay ack).1.0 ≤ t.shared.retained_bytes)
    × ((acknowledge t.replay ack).1.1 ≤ t.shared.retained_chunks)
    × (total_bytes t.shared.outbound ≤ t.shared.retained_bytes)
    × (length t.shared.outbound ≤ t.shared.retained_chunks)

Retains-NeverAborts : (t : FlowTask) (ack : AckRanges) → Retains t → NeverAborts t ack
Retains-NeverAborts t ack (retains frontier v) =
    let (inv, total, count) = Replay.acknowledge-Inv t.replay ack v.replay_inv in
    (
      omega (arith, v.byte_count, total),
      omega (arith, v.chunk_count, count),
      omega (arith, v.byte_count),
      omega (arith, v.chunk_count),
    )

-- In a state that the flow reaches, the subtractions which the code expects to succeed do: an
-- acknowledgement, whatever its ranges, releases no more bytes and chunks than are retained, and
-- neither does a reset, which drops what waits.
pub reaches-NeverAborts : (t : FlowTask) (ack : AckRanges) → Reaches t → NeverAborts t ack
reaches-NeverAborts t ack s = Retains-NeverAborts t ack (reaches-Retains s)
