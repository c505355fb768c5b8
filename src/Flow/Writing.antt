-- ===== src/Flow/Writing.antt =====
-- What a buffered write of src/flow.rs accepts, the flow holds.
use quicp.Prelude.{
  ℕ, ◌+◌, ◌-◌, ◌^◌, ◌<◌, ◌≤◌, ◌≡◌, refl, sym, ap, ◌∙◌, min, Bool, true, not, Option, none, some,
  List, [], ◌∷◌, ◌++◌, Result, ok, err, leb, ltb, ◌==◌, ◌||◌, ◌&&◌, if_of_both, length, take,
  length-append, length-take, arith,
}
use quicp.Recovery.Chunks.{Chunk}
use quicp.Flow.{
  FlowShared, IoErrorKind, broken_pipe, enqueue, enqueue_ready, ready_unless, enqueue_if, queued,
}
use quicp.Flow.Write.{
  Buffered, buffer_sent, poll_send_buffer, accepted, extend_buffer, if_enqueued, accept_bytes,
  is_full, poll_buffered_write,
}

-- The bytes that wait to be sent, those of the buffer last.
abbrev pub contents : List Chunk → List ℕ
contents [] = []
contents (c ∷ cs) = c.bytes ++ contents cs

abbrev pub held : Buffered → List ℕ
held (s, buffer) = contents s.outbound ++ buffer

append-append : (xs ys zs : List ℕ) → (xs ++ ys) ++ zs ≡ xs ++ (ys ++ zs)
append-append [] ys zs = refl
append-append (x ∷ xs) ys zs = ap (λ t. x ∷ t) (append-append xs ys zs)

append-nil : (xs : List ℕ) → xs ++ [] ≡ xs
append-nil [] = refl
append-nil (x ∷ xs) = ap (λ t. x ∷ t) (append-nil xs)

contents-append : (cs : List Chunk) (c : Chunk) → contents (cs ++ c ∷ []) ≡ contents cs ++ c.bytes
contents-append [] c = append-nil c.bytes
contents-append (d ∷ cs) c =
    ap (λ t. d.bytes ++ t) (contents-append cs c)
    ∙ sym (append-append d.bytes (contents cs) c.bytes)

-- What `enqueue` does to the chunks: it appends the bytes where it answers with an offset.
data Enqueued (s : FlowShared) (bytes : List ℕ)
    : FlowShared × Result (Option ℕ) IoErrorKind → Type 0 where
  appended : (end : ℕ) → Enqueued s bytes (queued s bytes, ok (some end))
  waits : (w : Bool) → Enqueued s bytes (record s { write_waker = w }, ok none)
  refused : (kind : IoErrorKind) → Enqueued s bytes (s, err kind)

unless-Enqueued :
    (error : Option IoErrorKind) (target : Option ℕ) (s : FlowShared) (bytes : List ℕ)
    → Enqueued s bytes (enqueue_if (ready_unless error target s (length bytes)) bytes)
unless-Enqueued (some kind) target s bytes = refused kind
unless-Enqueued none (some target) s bytes = refused broken_pipe
unless-Enqueued none none s bytes =
    if_of_both (λ r. Enqueued s bytes (enqueue_if r bytes))
      (ltb s.replay_limit (s.retained_bytes + length bytes)
        || leb s.replay_chunk_limit s.retained_chunks)
      (λ _. waits true)
      (λ _.
        if_of_both (Enqueued s bytes) (leb (2 ^ 64) (s.next_send_offset + length bytes))
          (λ _. refused _) (λ _. appended _))

enqueue-Enqueued : (s : FlowShared) (bytes : List ℕ) → Enqueued s bytes (enqueue s bytes)
unfolding enqueue enqueue_ready
enqueue-Enqueued s bytes = unless-Enqueued s.error s.shutdown_target s bytes

-- The buffer is handed over or kept, and nothing is lost.
pub record Kept (limit : ℕ) (b b' : Buffered) : Type 0 where
  pub same : held b' ≡ held b
  pub fits : length b'.1 ≤ limit

-- The buffer is empty where the answer is positive.
data Sent (limit : ℕ) (b : Buffered)
    : Buffered × Option (Result (Unit {0}) IoErrorKind) → Type 0 where
  emptied : (s : FlowShared) → held (s, []) ≡ held b → Sent limit b ((s, []), some (ok tt))
  pending : {b' : Buffered} → Kept limit b b' → Sent limit b (b', none)
  failed :
      {b' : Buffered} (kind : IoErrorKind) → Kept limit b b' → Sent limit b (b', some (err kind))

buffer_sent-Sent :
    (limit : ℕ) (s : FlowShared) (buffer : List ℕ) (r : FlowShared × Result (Option ℕ) IoErrorKind)
    → length buffer ≤ limit
    → Enqueued s buffer r
    → Sent limit (s, buffer) (buffer_sent r buffer)
buffer_sent-Sent limit s buffer r h (appended end) = emptied (queued s buffer) (
    append-nil (contents (queued s buffer).outbound)
    ∙ contents-append s.outbound (record { offset = s.next_send_offset; bytes = buffer }))
buffer_sent-Sent limit s buffer r h (waits w) = pending (record { same = refl; fits = h })
buffer_sent-Sent limit s buffer r h (refused kind) = failed kind (record { same = refl; fits = h })

poll_send_buffer-Sent :
    (limit : ℕ) (s : FlowShared) (buffer : List ℕ)
    → length buffer ≤ limit
    → Sent limit (s, buffer) (poll_send_buffer s buffer)
unfolding poll_send_buffer
poll_send_buffer-Sent limit s [] h = emptied s refl
poll_send_buffer-Sent limit s (b ∷ buffer) h =
    buffer_sent-Sent limit s (b ∷ buffer) (enqueue s (b ∷ buffer)) h
      (enqueue-Enqueued s (b ∷ buffer))

-- What a write of some bytes to a buffer of `limit` bytes may come to: it waits and nothing changes, or
-- it takes a positive number of them, or it fails with some of them taken.
pub data Accepts (limit : ℕ) (b : Buffered) (bytes : List ℕ)
    : Buffered × Option (Result ℕ IoErrorKind) → Type 0 where
  nothing : {b' : Buffered} → Kept limit b b' → Accepts limit b bytes (b', none)
  took :
      {b' : Buffered} (n : ℕ)
      → 0 < n
      → n ≤ length bytes
      → held b' ≡ held b ++ take n bytes
      → length b'.1 ≤ limit
      → Accepts limit b bytes (b', some (ok n))
  broke :
      {b' : Buffered} (kind : IoErrorKind) (n : ℕ)
      → held b' ≡ held b ++ take n bytes
      → length b'.1 ≤ limit
      → Accepts limit b bytes (b', some (err kind))

accepted-Accepts :
    (limit : ℕ) (b c : Buffered) (bytes : List ℕ) (n : ℕ)
    (r : Buffered × Option (Result (Unit {0}) IoErrorKind))
    → 0 < n
    → n ≤ length bytes
    → held c ≡ held b ++ take n bytes
    → Sent limit c r
    → Accepts limit b bytes (accepted n r)
accepted-Accepts limit b c bytes n r p q e (emptied s same) = took n p q (same ∙ e) (omega arith)
accepted-Accepts limit b c bytes n r p q e (pending k) = took n p q (k.same ∙ e) k.fits
accepted-Accepts limit b c bytes n r p q e (failed kind k) = broke kind n (k.same ∙ e) k.fits

module _ (nodelay : Bool) (limit : ℕ) (b : Buffered) (bytes : List ℕ)
    (some_bytes : 0 < length bytes) where
  extend_buffer-Accepts :
      (s : FlowShared) (buffer : List ℕ) (n : ℕ)
      → 0 < n
      → n ≤ length bytes
      → length buffer + n ≤ limit
      → held (s, buffer) ≡ held b
      → Accepts limit b bytes (extend_buffer nodelay limit (s, buffer) bytes n)
  unfolding extend_buffer
  extend_buffer-Accepts s buffer n p q room same =
      let extended : List ℕ = buffer ++ take n bytes in
      let size : length extended ≤ limit =
        omega (arith, length-append buffer (take n bytes), length-take n bytes, room) in
      let holds : held (s, extended) ≡ held b ++ take n bytes =
        sym (append-append (contents s.outbound) buffer (take n bytes))
        ∙ ap (λ t. t ++ take n bytes) same in
      if_of_both (Accepts limit b bytes) (nodelay || length extended == limit)
        (λ _.
          accepted-Accepts limit b (s, extended) bytes n (poll_send_buffer s extended) p q holds
            (poll_send_buffer-Sent limit s extended size))
        (λ _. took n p q holds size)

  broke_with :
      {c : Buffered} (kind : IoErrorKind)
      → held c ≡ held b
      → length c.1 ≤ limit
      → Accepts limit b bytes (c, some (err kind))
  broke_with kind same fits = broke kind 0 (same ∙ sym (append-nil (held b))) fits

  -- `enqueue_ready` changes a waker at most.
  unless-Accepts :
      (error : Option IoErrorKind) (target : Option ℕ) (s : FlowShared) (buffer : List ℕ) (n : ℕ)
      → 0 < n
      → n ≤ length bytes
      → length buffer + n ≤ limit
      → held (s, buffer) ≡ held b
      → Accepts limit b bytes
          (if_enqueued nodelay limit (ready_unless error target s limit) buffer bytes n)
  unless-Accepts (some kind) target s buffer n p q room same =
      broke_with kind same (omega (arith, room))
  unless-Accepts none (some target) s buffer n p q room same =
      broke_with broken_pipe same (omega (arith, room))
  unless-Accepts none none s buffer n p q room same =
      if_of_both (λ r. Accepts limit b bytes (if_enqueued nodelay limit r buffer bytes n))
        (ltb s.replay_limit (s.retained_bytes + limit)
          || leb s.replay_chunk_limit s.retained_chunks)
        (λ _. nothing (record { same = same; fits = omega (arith, room) }))
        (λ _. extend_buffer-Accepts s buffer n p q room same)

  room-Accepts :
      (s : FlowShared) (buffer : List ℕ)
      → length buffer < limit
      → held (s, buffer) ≡ held b
      → Accepts limit b bytes (accept_bytes nodelay limit ((s, buffer), some (ok tt)) bytes)
  unfolding accept_bytes enqueue_ready
  room-Accepts s buffer h same =
      let n : ℕ = min (limit - length buffer) (length bytes) in
      let positive : 0 < n = omega (arith, h, some_bytes) in
      let room : length buffer + n ≤ limit = omega (arith, h) in
      if_of_both (Accepts limit b bytes) (not nodelay && length buffer + n == limit)
        (λ _. unless-Accepts s.error s.shutdown_target s buffer n positive (omega arith) room same)
        (λ _. extend_buffer-Accepts s buffer n positive (omega arith) room same)

  Sent-Accepts :
      (r : Buffered × Option (Result (Unit {0}) IoErrorKind))
      → 0 < limit
      → Sent limit b r
      → Accepts limit b bytes (accept_bytes nodelay limit r bytes)
  unfolding accept_bytes
  Sent-Accepts r h (pending k) = nothing k
  Sent-Accepts r h (failed {b'} kind k) = broke_with kind k.same k.fits
  Sent-Accepts r h (emptied s same) = room-Accepts s [] h same

-- A handle buffers at most `limit` bytes, which is positive, and writes some bytes. Then the write
-- waits, and the flow and the buffer hold what they did; or it takes a positive number of the bytes, and
-- they hold exactly those in addition, in order, behind the others; or it fails, and they hold a prefix
-- of the bytes in addition, which may be empty. The buffer stays within its limit.
pub poll_buffered_write-Accepts :
    (nodelay : Bool) (limit : ℕ) (s : FlowShared) (buffer bytes : List ℕ)
    → 0 < limit
    → 0 < length bytes
    → length buffer ≤ limit
    → Accepts limit (s, buffer) bytes (poll_buffered_write nodelay limit (s, buffer) bytes)
unfolding poll_buffered_write
poll_buffered_write-Accepts nodelay limit s buffer [] h k fits = absurd (omega (arith, k))
poll_buffered_write-Accepts nodelay limit s buffer (x ∷ bytes) h k fits =
    if_of_both (Accepts limit (s, buffer) (x ∷ bytes)) (is_full nodelay limit buffer)
      (λ _.
        Sent-Accepts nodelay limit (s, buffer) (x ∷ bytes) k (poll_send_buffer s buffer) h
          (poll_send_buffer-Sent limit s buffer fits))
      (λ e.
        room-Accepts nodelay limit (s, buffer) (x ∷ bytes) k s buffer (ground (arith, e, fits))
          refl)
