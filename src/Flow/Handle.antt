-- ===== src/Flow/Handle.antt =====
-- The calls of the handle of a flow of src/flow.rs keep what the flow retains.
use quicp.Prelude.{
  ℕ, ◌+◌, ◌^◌, ◌<◌, ◌≤◌, ◌≡◌, Bool, true, false, Option, none, some, List, [], ◌∷◌, ◌++◌, Result,
  ok, err, ◌==◌, ◌||◌, leb, ltb, if_of_both, length, length-append, arith, Option-cases, inl, inr,
}
use quicp.Recovery.Chunks.{Chunk, total_bytes}
use quicp.Recovery.Reassembler.Read.{read}
use quicp.Recovery.Reassembler.{Reassembler, is_finished}
use quicp.Session.{ApplicationError}
use quicp.Flow.{
  FlowShared, IoErrorKind, broken_pipe, enqueue, enqueue_ready, ready_unless, enqueue_if, queued,
  request_flush, request_shutdown, request_reset, after_reset, read_flow, read_done, window_end,
  fail_with_kind, drop_handle, is_some,
}
use quicp.Flow.Task.{FlowTask, with_shared}
use quicp.Flow.Retention.{Chain, IsRetained, Chain-append}

-- What the answer says of the state.
data Ready (s : FlowShared) (n : ℕ) : FlowShared × Result Bool IoErrorKind → Type 0 where
  fits :
      s.retained_bytes + n ≤ s.replay_limit
      → s.retained_chunks < s.replay_chunk_limit
      → Ready s n (s, ok true)
  waits : Ready s n (record s { write_waker = true }, ok false)
  refused : (kind : IoErrorKind) → Ready s n (s, err kind)

ready_unless-Ready :
    (error : Option IoErrorKind) (target : Option ℕ) (s : FlowShared) (n : ℕ)
    → Ready s n (ready_unless error target s n)
ready_unless-Ready (some kind) target s n = refused kind
ready_unless-Ready none (some target) s n = refused broken_pipe
ready_unless-Ready none none s n =
    if_of_both (Ready s n)
      (ltb s.replay_limit (s.retained_bytes + n) || leb s.replay_chunk_limit s.retained_chunks)
      (λ _. waits) (λ full. fits (ground (arith, full)) (ground (arith, full)))

enqueue_ready-Ready : (s : FlowShared) (n : ℕ) → Ready s n (enqueue_ready s n)
unfolding enqueue_ready
enqueue_ready-Ready s n = ready_unless-Ready s.error s.shutdown_target s n

total_bytes-append :
    (cs : List Chunk) (c : Chunk) → total_bytes (cs ++ c ∷ []) ≡ total_bytes cs + length c.bytes
total_bytes-append [] c = omega arith
total_bytes-append (d ∷ cs) c = omega (arith, total_bytes-append cs c)

queued-IsRetained :
    (t : FlowTask) (bytes : List ℕ) (frontier : ℕ)
    → 0 < length bytes
    → t.shared.retained_bytes + length bytes ≤ t.shared.replay_limit
    → t.shared.retained_chunks < t.shared.replay_chunk_limit
    → IsRetained t frontier
    → IsRetained (with_shared t (queued t.shared bytes)) frontier
queued-IsRetained t bytes frontier h room places v =
    let c : Chunk = record { offset = t.shared.next_send_offset; bytes = bytes } in
    let total = total_bytes-append t.shared.outbound c in
    let count = length-append t.shared.outbound (c ∷ []) in
    record {
      waiting = Chain-append frontier t.shared.outbound t.shared.next_send_offset bytes h v.waiting;
      behind = v.behind;
      replay_inv = v.replay_inv;
      byte_count = omega (arith, total, v.byte_count);
      chunk_count = omega (arith, count, v.chunk_count);
      bytes_bounded = room;
      chunks_bounded = omega (arith, places);
      same_limit = v.same_limit;
      same_places = v.same_places;
      peer_bounded = v.peer_bounded;
    }

enqueue_if-IsRetained :
    (t : FlowTask) (bytes : List ℕ) (frontier : ℕ) (answer : FlowShared × Result Bool IoErrorKind)
    → 0 < length bytes
    → IsRetained t frontier
    → Ready t.shared (length bytes) answer
    → IsRetained (with_shared t (enqueue_if answer bytes).0) frontier
enqueue_if-IsRetained t bytes frontier answer h v (fits room places) =
    if_of_both
      (λ (u : FlowShared × Result (Option ℕ) IoErrorKind). IsRetained (with_shared t u.0) frontier)
      (leb (2 ^ 64) (t.shared.next_send_offset + length bytes)) (λ _. v)
      (λ _. queued-IsRetained t bytes frontier h room places v)
enqueue_if-IsRetained t bytes frontier answer h v waits = v
enqueue_if-IsRetained t bytes frontier answer h v (refused kind) = v

pub enqueue-IsRetained :
    (t : FlowTask) (bytes : List ℕ) (frontier : ℕ)
    → 0 < length bytes
    → IsRetained t frontier
    → IsRetained (with_shared t (enqueue t.shared bytes).0) frontier
unfolding enqueue
enqueue-IsRetained t bytes frontier h v =
    enqueue_if-IsRetained t bytes frontier (enqueue_ready t.shared (length bytes)) h v
      (enqueue_ready-Ready t.shared (length bytes))

pub request_flush-IsRetained :
    (t : FlowTask) (frontier : ℕ)
    → IsRetained t frontier
    → IsRetained (with_shared t (request_flush t.shared).0) frontier
unfolding request_flush
request_flush-IsRetained t frontier v = elim (Option-cases t.shared.error) [
  | inr (kind, e) ↦ rw (e, request_flush) v
  | inl e ↦
      rw (e, request_flush)
        (if_of_both
          (λ (u : FlowShared × Result Bool IoErrorKind). IsRetained (with_shared t u.0) frontier)
          (leb t.shared.next_send_offset t.shared.flushed_offset) (λ _. v) (λ _. v))
]

pub request_shutdown-IsRetained :
    (t : FlowTask) (frontier : ℕ)
    → IsRetained t frontier
    → IsRetained (with_shared t (request_shutdown t.shared).0) frontier
unfolding request_shutdown
request_shutdown-IsRetained t frontier v = elim (Option-cases t.shared.error) [
  | inr (kind, e) ↦ rw (e, request_shutdown) v
  | inl e ↦
      rw (e, request_shutdown)
        (if_of_both
          (λ (u : FlowShared × Result Bool IoErrorKind). IsRetained (with_shared t u.0) frontier)
          t.shared.shutdown_done (λ _. v) (λ _. v))
]

Chain-low : (low : ℕ) (cs : List Chunk) (high : ℕ) → Chain low cs high → low ≤ high
Chain-low low [] high v = v
Chain-low low (c ∷ cs) high (a, b, v) =
    omega (arith, a, Chain-low (c.offset + length c.bytes) cs high v)

after_reset-IsRetained :
    (t : FlowTask) (e : ApplicationError) (frontier : ℕ)
    → IsRetained t frontier
    → IsRetained (with_shared t (after_reset t.shared e)) frontier
after_reset-IsRetained t e frontier v = record {
  waiting = Chain-low frontier t.shared.outbound t.shared.next_send_offset v.waiting;
  behind = v.behind;
  replay_inv = v.replay_inv;
  byte_count = omega (arith, v.byte_count);
  chunk_count = omega (arith, v.chunk_count);
  bytes_bounded = omega (arith, v.bytes_bounded);
  chunks_bounded = omega (arith, v.chunks_bounded);
  same_limit = v.same_limit;
  same_places = v.same_places;
  peer_bounded = v.peer_bounded;
}

pub request_reset-IsRetained :
    (t : FlowTask) (e : ApplicationError) (frontier : ℕ)
    → IsRetained t frontier
    → IsRetained (with_shared t (request_reset t.shared e).0) frontier
unfolding request_reset
request_reset-IsRetained t e frontier v =
    if_of_both (λ (u : FlowShared × Bool). IsRetained (with_shared t u.0) frontier)
      t.shared.locally_reset (λ _. v)
      (λ _.
        if_of_both (λ (u : FlowShared × Bool). IsRetained (with_shared t u.0) frontier)
          (t.shared.task_stopped || is_some t.shared.error) (λ _. v)
          (λ _. after_reset-IsRetained t e frontier v))

with_read-IsRetained :
    (t : FlowTask) (frontier : ℕ) (received : List ℕ × Reassembler)
    → IsRetained t frontier
    → IsRetained (with_shared t (read_done t.shared received).0) frontier
with_read-IsRetained t frontier (bytes, receive) v =
    if_of_both
      (λ (u : FlowShared × Result (Option (List ℕ)) IoErrorKind).
        IsRetained (with_shared t u.0) frontier)
      (length bytes == 0)
      (λ e.
        if_of_both
          (λ (u : FlowShared × Result (Option (List ℕ)) IoErrorKind).
            IsRetained (with_shared t u.0) frontier)
          (is_finished receive) (λ _. rw e v) (λ _. rw e v))
      (λ e. rw e (
        if_of_both (λ (s : FlowShared). IsRetained (with_shared t s) frontier)
          (ltb t.shared.max_receive_offset (window_end t.shared receive)) (λ _. v) (λ _. v)))

pub read_flow-IsRetained :
    (t : FlowTask) (room frontier : ℕ)
    → IsRetained t frontier
    → IsRetained (with_shared t (read_flow t.shared room).0) frontier
unfolding read_flow
read_flow-IsRetained t room frontier v = elim (Option-cases t.shared.error) [
  | inr (kind, e) ↦ rw (e, read_flow) v
  | inl e ↦ rw (e, read_flow) (with_read-IsRetained t frontier (read t.shared.receive room) v)
]

pub fail_with_kind-IsRetained :
    (t : FlowTask) (kind : IoErrorKind) (frontier : ℕ)
    → IsRetained t frontier
    → IsRetained (with_shared t (fail_with_kind t.shared kind)) frontier
unfolding fail_with_kind
fail_with_kind-IsRetained t kind frontier v = v

pub drop_handle-IsRetained :
    (t : FlowTask) (frontier : ℕ)
    → IsRetained t frontier
    → IsRetained (with_shared t (drop_handle t.shared)) frontier
unfolding drop_handle
drop_handle-IsRetained t frontier v = v
