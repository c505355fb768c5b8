-- ===== src/Flow/Exhaustion.antt =====
-- The replay of src/flow.rs comes to an end: a turn that makes progress leaves fewer turns to make.
use quicp.Prelude.{
  ℕ, suc, ◌+◌, ◌<◌, ◌≤◌, ◌≡◌, refl, Bool, true, false, not, Option, none, some, List, [], ◌∷◌,
  Result, ok, err, leb, ltb, ◌==◌, ◌||◌, ◌&&◌, if◌then◌else◌, if_of_both, length, ◌^◌, arith,
}
use mathlib.Core.Path.{subst}
use quicp.Recovery.Chunks.{Chunk}
use quicp.Recovery.Replay.{ReplayBuffer, first, first_after, next_chunk_after}
use quicp.Flow.{is_some}
use quicp.Flow.Task.{
  FlowTask, FlowTaskError, Recovery, SendResult, sent, blocked, unsupported, lost, ReplayStage,
  repair, source_replay, reliable_fallback,
}
use quicp.Flow.Task.Replay.{
  TailResult, repairs, not_carried, tail_failed, ReplayTurn, fall_back_chunk, has_wire,
  reliable_turn, resend_chunk, is_fallback, is_repair, source_turn, repair_turn, replay_turn,
  poll_replay,
}

-- How many chunks start behind an offset.
abbrev after : ℕ → List Chunk → ℕ
after last [] = 0
after last (c ∷ cs) = if ltb last c.offset then suc (after last cs) else after last cs

-- How many chunks the replay has still to send in its stage.
abbrev left : Option ℕ → List Chunk → ℕ
left none cs = length cs
left (some last) cs = after last cs

abbrev height : ReplayStage → ℕ → ℕ
height repair n = suc n + suc n
height source_replay n = suc n
height reliable_fallback n = 0

abbrev while_armed : Bool → ℕ → ℕ
while_armed false n = 0
while_armed true n = suc n

-- A bound on the turns with progress that the replay still makes.
abbrev pub turns_left : FlowTask → ℕ
turns_left t =
    while_armed t.replay_timer
      (height t.replay_stage (length t.replay.chunks) + left t.replay_cursor t.replay.chunks)

after-le : (m n : ℕ) (cs : List Chunk) → m ≤ n → after n cs ≤ after m cs
after-le m n [] h = omega arith
after-le m n (c ∷ cs) h = let rest = after-le m n cs h in ground (arith, rest, h)

after-le-length : (m : ℕ) (cs : List Chunk) → after m cs ≤ length cs
after-le-length m [] = omega arith
after-le-length m (c ∷ cs) = let rest = after-le-length m cs in ground (arith, rest)

-- Behind the chunk there are fewer than behind the cursor.
abbrev Fewer : ℕ → List Chunk → Option Chunk → Type 0
Fewer n cs none = Unit {0}
Fewer n cs (some c) = after c.offset cs < n

abbrev Behind : ℕ → List Chunk → Option Chunk → Type 0
Behind last cs none = Unit {0}
Behind last cs (some c) = (last < c.offset) × (after c.offset cs < after last cs)

skipped-Behind :
    (last : ℕ) (d : Chunk) (ds : List Chunk) (next : Option Chunk)
    → ltb last d.offset ≡ false
    → Behind last ds next
    → Behind last (d ∷ ds) next
skipped-Behind last d ds none e h = tt
skipped-Behind last d ds (some c) e (low, fewer) = (low, ground (arith, e, low, fewer))

first_after-Behind : (last : ℕ) (cs : List Chunk) → Behind last cs (first_after last cs)
unfolding first_after
first_after-Behind last [] = tt
first_after-Behind last (d ∷ ds) =
    if_of_both (Behind last (d ∷ ds)) (ltb last d.offset)
      (λ e.
        let low : last < d.offset = ground (arith, e) in
        let rest = after-le last d.offset ds (omega (arith, low)) in (low, ground (arith, e, rest)))
      (λ e. skipped-Behind last d ds (first_after last ds) e (first_after-Behind last ds))

Behind-Fewer :
    (last : ℕ) (cs : List Chunk) (next : Option Chunk)
    → Behind last cs next
    → Fewer (after last cs) cs next
Behind-Fewer last cs none h = tt
Behind-Fewer last cs (some c) h = h.1

first-Fewer : (cs : List Chunk) → Fewer (length cs) cs (first cs)
first-Fewer [] = tt
first-Fewer (c ∷ cs) = let rest = after-le-length c.offset cs in ground (arith, rest)

next_chunk_after-Fewer :
    (b : ReplayBuffer) (cursor : Option ℕ)
    → Fewer (left cursor b.chunks) b.chunks (next_chunk_after b cursor)
unfolding next_chunk_after
next_chunk_after-Fewer b (some last) =
    Behind-Fewer last b.chunks (first_after last b.chunks) (first_after-Behind last b.chunks)
next_chunk_after-Fewer b none = first-Fewer b.chunks

-- What a turn of the replay does to the bound: it falls with progress, stays without, or the flow ends.
data Falls (t : FlowTask) : Result (FlowTask × Bool) FlowTaskError → Type 0 where
  falls : {u : FlowTask} → turns_left u < turns_left t → Falls t (ok (u, true))
  stays : {u : FlowTask} → turns_left u ≡ turns_left t → Falls t (ok (u, false))
  ends : (e : FlowTaskError) → Falls t (err e)

armed_less :
    (timer : Bool) (m n : ℕ) → timer ≡ true → m < n → while_armed timer m < while_armed timer n
armed_less true m n e h = omega (arith, h)
armed_less false m n e h = cc

armed-positive : (timer : Bool) (n : ℕ) → timer ≡ true → 0 < while_armed timer n
armed-positive true n e = omega arith
armed-positive false n e = cc

height_before_fallback :
    (stage : ReplayStage) (n : ℕ) → is_fallback stage ≡ false → n < height stage n
height_before_fallback repair n e = omega arith
height_before_fallback source_replay n e = omega arith
height_before_fallback reliable_fallback n e = cc

height-repair : (stage : ReplayStage) (n : ℕ) → is_repair stage ≡ true → suc n < height stage n
height-repair repair n e = omega arith
height-repair source_replay n e = cc
height-repair reliable_fallback n e = cc

fall_back_chunk-Falls :
    (t : FlowTask) (next : Option Chunk)
    → t.replay_timer ≡ true
    → Fewer (left t.replay_cursor t.replay.chunks) t.replay.chunks next
    → Falls t (fall_back_chunk t next)
unfolding fall_back_chunk
fall_back_chunk-Falls t none e h = falls (armed-positive t.replay_timer _ e)
fall_back_chunk-Falls t (some c) e h =
    if_of_both (Falls t) (leb (2 ^ 64) (c.offset + length c.bytes)) (λ _. ends _)
      (λ _. falls (armed_less t.replay_timer _ _ e (omega (arith, h))))

reliable_turn-Falls : (t : FlowTask) → t.replay_timer ≡ true → Falls t (reliable_turn t)
unfolding reliable_turn
reliable_turn-Falls t e =
    if_of_both (Falls t) (is_some t.wire_current || has_wire t.wire_queue) (λ _. stays refl)
      (λ _.
        fall_back_chunk-Falls t (next_chunk_after t.replay t.replay_cursor) e
          (next_chunk_after-Fewer t.replay t.replay_cursor))

resend_chunk-Falls :
    (t : FlowTask) (next : Option Chunk) (result : SendResult)
    → t.replay_timer ≡ true
    → is_fallback t.replay_stage ≡ false
    → Fewer (left t.replay_cursor t.replay.chunks) t.replay.chunks next
    → Falls t (resend_chunk t next result)
unfolding resend_chunk
resend_chunk-Falls t none result e early h =
    let higher = height_before_fallback t.replay_stage (length t.replay.chunks) early in
    falls (armed_less t.replay_timer _ _ e (omega (arith, higher)))
resend_chunk-Falls t (some c) sent e early h =
    falls (armed_less t.replay_timer _ _ e (omega (arith, h)))
resend_chunk-Falls t (some c) blocked e early h = stays refl
resend_chunk-Falls t (some c) unsupported e early h = ends _
resend_chunk-Falls t (some c) lost e early h = ends _

source_turn-Falls :
    (r : Recovery) (t : FlowTask) → t.replay_timer ≡ true → Falls t (source_turn r t)
unfolding source_turn
source_turn-Falls r t e =
    if_of_both (Falls t) (not (is_fallback t.replay_stage) && t.datagram_enabled)
      (λ early.
        resend_chunk-Falls t (next_chunk_after t.replay t.replay_cursor) r.send_source e
          (ground (arith, early)) (next_chunk_after-Fewer t.replay t.replay_cursor))
      (λ _. reliable_turn-Falls t e)

to_sources-Falls :
    (t : FlowTask)
    → t.replay_timer ≡ true
    → is_repair t.replay_stage ≡ true
    → Falls t (ok (record t { replay_stage = source_replay }, true))
to_sources-Falls t e r =
    let higher = height-repair t.replay_stage (length t.replay.chunks) r in
    falls (armed_less t.replay_timer _ _ e (omega (arith, higher)))

without_datagrams :
    (t : FlowTask) (m : Result (FlowTask × Bool) FlowTaskError)
    → Falls (record t { datagram_enabled = false }) m
    → Falls t m
without_datagrams t m (falls h) = falls h
without_datagrams t m (stays h) = stays h
without_datagrams t m (ends e) = ends e

repair_turn-Falls :
    (r : Recovery) (t : FlowTask) (tail : TailResult)
    → t.replay_timer ≡ true
    → is_repair t.replay_stage ≡ true
    → Falls t (repair_turn r t tail)
unfolding repair_turn
repair_turn-Falls r t (repairs n) e stage =
    if_of_both (Falls t) (n == 0) (λ _. source_turn-Falls r t e) (λ _. to_sources-Falls t e stage)
repair_turn-Falls r t not_carried e stage =
    if_of_both (Falls t) r.adaptive_required (λ _. ends _)
      (λ _.
        without_datagrams t (source_turn r (record t { datagram_enabled = false }))
          (source_turn-Falls r (record t { datagram_enabled = false }) e))
repair_turn-Falls r t tail_failed e stage = ends _

replay_turn-Falls :
    (r : Recovery) (turn : ReplayTurn) (t : FlowTask) → Falls t (replay_turn r turn t)
unfolding replay_turn
replay_turn-Falls r turn t =
    if_of_both (Falls t) (not (t.replay_timer && turn.timer_ready)) (λ _. stays refl)
      (λ armed.
        let e : t.replay_timer ≡ true = ground (arith, armed) in
        if_of_both (Falls t) (t.replay.bytes == 0) (λ _. falls (armed-positive t.replay_timer _ e))
          (λ _.
            if_of_both (Falls t) (is_repair t.replay_stage && t.datagram_enabled)
              (λ both.
                let stage : is_repair t.replay_stage ≡ true = ground (arith, both) in
                if_of_both (Falls t) (turn.repair_budget == 0) (λ _. to_sources-Falls t e stage)
                  (λ _. repair_turn-Falls r t turn.tail e stage))
              (λ _. source_turn-Falls r t e)))

poll_replay-Falls :
    (r : Recovery) (turn : ReplayTurn) (t : FlowTask) → Falls t (poll_replay r turn t)
unfolding poll_replay
poll_replay-Falls r turn t =
    if_of_both (λ (u : FlowTask). Falls t (replay_turn r turn u))
      (t.datagram_enabled && not r.enabled)
      (λ _.
        without_datagrams t (replay_turn r turn (record t { datagram_enabled = false }))
          (replay_turn-Falls r turn (record t { datagram_enabled = false })))
      (λ _. replay_turn-Falls r turn t)

abbrev Fallen : FlowTask → Result (FlowTask × Bool) FlowTaskError → Type 0
Fallen t (ok (u, true)) = turns_left u < turns_left t
Fallen t (ok (u, false)) = turns_left u ≡ turns_left t
Fallen t (err e) = Unit {0}

Falls-Fallen : (t : FlowTask) (m : Result (FlowTask × Bool) FlowTaskError) → Falls t m → Fallen t m
Falls-Fallen t m (falls h) = h
Falls-Fallen t m (stays h) = h
Falls-Fallen t m (ends e) = tt

ran-Fallen :
    (r : Recovery) (turn : ReplayTurn) (t : FlowTask) (m : Result (FlowTask × Bool) FlowTaskError)
    → poll_replay r turn t ≡ m
    → Fallen t m
ran-Fallen r turn t m ran =
    subst (Fallen t) ran (Falls-Fallen t (poll_replay r turn t) (poll_replay-Falls r turn t))

-- The turns of the replay from one state to another, as many as the number with progress. The connection
-- and the timer may answer otherwise in each.
pub data Replays : ℕ → FlowTask → FlowTask → Type 0 where
  begun : {t : FlowTask} → Replays 0 t t
  progressed :
      {n : ℕ} {t u v : FlowTask} (r : Recovery) (turn : ReplayTurn)
      → Replays n t u
      → poll_replay r turn u ≡ ok (v, true)
      → Replays (suc n) t v
  waited :
      {n : ℕ} {t u v : FlowTask} (r : Recovery) (turn : ReplayTurn)
      → Replays n t u
      → poll_replay r turn u ≡ ok (v, false)
      → Replays n t v

-- Whatever the connection and the timer answer, the turns of the replay alone make progress no more often
-- than `turns_left` says of the state at their start: what is left is a bound on the turns to come.
pub Replays-bounded : {n : ℕ} {t u : FlowTask} → Replays n t u → n + turns_left u ≤ turns_left t
Replays-bounded (begun {t}) = omega arith
Replays-bounded (progressed {n} {t} {u} {v} r turn s ran) =
    let before = Replays-bounded s in
    let less : turns_left v < turns_left u = ran-Fallen r turn u (ok (v, true)) ran in
    omega (arith, before, less)
Replays-bounded (waited {n} {t} {u} {v} r turn s ran) =
    let before = Replays-bounded s in
    let same : turns_left v ≡ turns_left u = ran-Fallen r turn u (ok (v, false)) ran in
    omega (arith, before, same)
