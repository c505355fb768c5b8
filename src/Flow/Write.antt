-- ===== src/Flow/Write.antt =====
-- The buffered writes of the handle in src/flow.rs: `poll_buffered_write` and `poll_send_buffer`. An
-- answer is `none` where the caller has to wait.
use quicp.Prelude.{
  ℕ, ◌+◌, ◌-◌, min, Bool, true, false, not, Option, none, some, List, [], ◌∷◌, ◌++◌, Result, ok,
  err, ◌==◌, ◌||◌, ◌&&◌, if◌then◌else◌, length, take,
}
use quicp.Flow.{FlowShared, IoErrorKind, enqueue, enqueue_ready}

-- The state and the send buffer.
abbrev pub Buffered : Type 0
Buffered = FlowShared × List ℕ

abbrev pub buffer_sent :
    FlowShared × Result (Option ℕ) IoErrorKind
    → List ℕ
    → Buffered × Option (Result (Unit {0}) IoErrorKind)
buffer_sent (s, ok (some end)) buffer = ((s, []), some (ok tt))
buffer_sent (s, ok none) buffer = ((s, buffer), none)
buffer_sent (s, err kind) buffer = ((s, buffer), some (err kind))

unfoldable pub poll_send_buffer :
    FlowShared → (buffer : List ℕ) → Buffered × Option (Result (Unit {0}) IoErrorKind)
poll_send_buffer s [] = ((s, []), some (ok tt))
poll_send_buffer s (b ∷ buffer) = buffer_sent (enqueue s (b ∷ buffer)) (b ∷ buffer)

-- The answer for `n` accepted bytes, of which only an error in sending the buffer is seen.
abbrev pub accepted :
    (n : ℕ)
    → Buffered × Option (Result (Unit {0}) IoErrorKind)
    → Buffered × Option (Result ℕ IoErrorKind)
accepted n (b, some (err kind)) = (b, some (err kind))
accepted n (b, some (ok u)) = (b, some (ok n))
accepted n (b, none) = (b, some (ok n))

module _ (nodelay : Bool) (flow_buffer_bytes : ℕ) where
  unfoldable pub extend_buffer :
      Buffered → List ℕ → (n : ℕ) → Buffered × Option (Result ℕ IoErrorKind)
  extend_buffer (s, buffer) bytes n =
      let extended = buffer ++ take n bytes in
      if nodelay || length extended == flow_buffer_bytes
      then accepted n (poll_send_buffer s extended)
      else ((s, extended), some (ok n))

  abbrev pub if_enqueued :
      FlowShared × Result Bool IoErrorKind
      → (buffer bytes : List ℕ) (n : ℕ) → Buffered × Option (Result ℕ IoErrorKind)
  if_enqueued (s, err kind) buffer bytes n = ((s, buffer), some (err kind))
  if_enqueued (s, ok false) buffer bytes n = ((s, buffer), none)
  if_enqueued (s, ok true) buffer bytes n = extend_buffer (s, buffer) bytes n

  -- The part behind the first `poll_send_buffer`. A write that fills the buffer waits until the flow
  -- takes a full buffer.
  unfoldable pub accept_bytes :
      Buffered × Option (Result (Unit {0}) IoErrorKind)
      → List ℕ
      → Buffered × Option (Result ℕ IoErrorKind)
  accept_bytes (b, none) bytes = (b, none)
  accept_bytes (b, some (err kind)) bytes = (b, some (err kind))
  accept_bytes ((s, buffer), some (ok u)) bytes =
      let n = min (flow_buffer_bytes - length buffer) (length bytes) in
      if not nodelay && length buffer + n == flow_buffer_bytes
      then if_enqueued (enqueue_ready s flow_buffer_bytes) buffer bytes n
      else extend_buffer (s, buffer) bytes n

  abbrev pub is_full : List ℕ → Bool
  is_full buffer = nodelay && not (length buffer == 0) || length buffer == flow_buffer_bytes

  unfoldable pub poll_buffered_write : Buffered → List ℕ → Buffered × Option (Result ℕ IoErrorKind)
  poll_buffered_write (s, buffer) [] = ((s, buffer), some (ok 0))
  poll_buffered_write (s, buffer) (b ∷ bytes) =
      if is_full buffer
      then accept_bytes (poll_send_buffer s buffer) (b ∷ bytes)
      else accept_bytes ((s, buffer), some (ok tt)) (b ∷ bytes)
