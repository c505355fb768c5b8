-- ===== src/Flow/Steps.antt =====
-- The states of a flow of src/flow.rs that the calls of its handle and the turns of its task reach, and
-- what they retain.
use quicp.Prelude.{
  Option, none, ℕ, ◌+◌, ◌-◌, ◌≤◌, ◌≡◌, refl, Bool, none, List, [], ◌∷◌, Result, and_then, map_err,
  ◌==◌, leb, ltb, if_of_both, length, Ensures, returned, failed, Ensures_any, arith, fail_if, ◌^◌,
  map,
}
use quicp.Wire.{CodecError, max_wire_offset}
use quicp.Wire.Control.Payload.{ControlFrame}
use quicp.Recovery.{flow_control, offset_overflow}
use quicp.Recovery.AckRanges
use quicp.Recovery.AckRanges.{AckRanges, from_wire, validate_insert, range}
use quicp.Recovery.Reassembler
use quicp.Recovery.Reassembler.Insert.{Charge}
use quicp.Recovery.Chunks.{Chunk, total_bytes, Disjoint}
use quicp.Recovery.Replay.{ReplayBuffer, acknowledge, drop_covered, is_covered}
use quicp.Recovery.Replay.Inv as Replay
use quicp.Flow.{insert_either, set_final_offset, insert_bytes_with_reservation}
use quicp.Flow.Task.{
  FlowTask, codec, recovery, Recovery, with_shared, released, settled, apply_ack, apply_max_offset,
  apply_fin, apply_stream_data, apply_control, range_of,
}
use quicp.Flow.Retention.{IsRetained, Before-acknowledge}

-- Every chunk that goes takes at least one byte with it.
drop_covered_fewer :
    (ack : AckRanges) (low : ℕ) (cs : List Chunk) (bytes : ℕ)
    → Disjoint low cs
    → length cs + total_bytes (drop_covered ack cs bytes).0
      ≤ length (drop_covered ack cs bytes).0 + total_bytes cs
unfolding drop_covered
drop_covered_fewer ack low [] bytes v = omega arith
drop_covered_fewer ack low (c ∷ cs) bytes v =
    let gone = drop_covered_fewer ack (c.offset + length c.bytes) cs (bytes - length c.bytes) v.3 in
    let kept = drop_covered_fewer ack (c.offset + length c.bytes) cs bytes v.3 in
    if_of_both
      (λ (k : List Chunk × ℕ).
        length (c ∷ cs) + total_bytes k.0 ≤ length k.0 + total_bytes (c ∷ cs))
      (is_covered ack c) (λ e. omega (arith, gone, v.1)) (λ e. omega (arith, kept))

acknowledge_fewer :
    (b : ReplayBuffer) (ack : AckRanges)
    → Disjoint 0 b.chunks
    → length b.chunks + total_bytes (acknowledge b ack).0.chunks
      ≤ length (acknowledge b ack).0.chunks + total_bytes b.chunks
unfolding acknowledge
acknowledge_fewer b ack v = drop_covered_fewer ack 0 b.chunks b.bytes v

acknowledge_limits :
    (b : ReplayBuffer) (ack : AckRanges)
    → ((acknowledge b ack).0.max_bytes ≡ b.max_bytes)
      × ((acknowledge b ack).0.max_chunks ≡ b.max_chunks)
unfolding acknowledge
acknowledge_limits b ack = (refl, refl)

released-IsRetained :
    (t : FlowTask) (ack : AckRanges) (frontier : ℕ)
    → IsRetained t frontier
    → IsRetained
        (released t
          (acknowledge t.replay ack).0
          (acknowledge t.replay ack).1.0
          (acknowledge t.replay ack).1.1)
        frontier
released-IsRetained t ack frontier v =
    let (inv, total, count) = Replay.acknowledge-Inv t.replay ack v.replay_inv in
    let (same_bytes, same_chunks) = acknowledge_limits t.replay ack in
    let fewer = acknowledge_fewer t.replay ack v.replay_inv.disjoint in
    let behind = Before-acknowledge frontier t.replay ack v.behind in
    if_of_both (λ (u : FlowTask). IsRetained u frontier) ((acknowledge t.replay ack).1.0 == 0)
      (λ e.
        let none_gone : (acknowledge t.replay ack).1.0 ≡ 0 = ground (arith, e) in
        record {
          waiting = v.waiting;
          behind = behind;
          replay_inv = inv;
          byte_count = omega (arith, v.byte_count, none_gone, total);
          chunk_count = omega (arith, v.chunk_count, count, none_gone, total, fewer);
          bytes_bounded = v.bytes_bounded;
          chunks_bounded = v.chunks_bounded;
          same_limit = omega (arith, same_bytes, v.same_limit);
          same_places = omega (arith, same_chunks, v.same_places);
          peer_bounded = v.peer_bounded;
        })
      (λ e. record {
        waiting = v.waiting;
        behind = behind;
        replay_inv = inv;
        byte_count = omega (arith, v.byte_count, total);
        chunk_count = omega (arith, v.chunk_count, count);
        bytes_bounded = omega (arith, v.bytes_bounded);
        chunks_bounded = omega (arith, v.chunks_bounded);
        same_limit = omega (arith, same_bytes, v.same_limit);
        same_places = omega (arith, same_chunks, v.same_places);
        peer_bounded = v.peer_bounded;
      })

settled-IsRetained :
    (t : FlowTask) (frontier : ℕ) → IsRetained t frontier → IsRetained (settled t) frontier
settled-IsRetained t frontier v =
    if_of_both (λ (u : FlowTask). IsRetained u frontier) (t.replay.bytes == 0) (λ _. v) (λ _. v)

-- What the codec gives of a frame: offsets that a variable-length integer holds.
abbrev pub IsOffered : ControlFrame → Type 0
IsOffered (ControlFrame.max_offset maximum) = maximum ≤ max_wire_offset
IsOffered _ = Unit {0}

-- The receive side of the shared state is replaced.
set_final_offset-Retained :
    (t : FlowTask) (offset frontier : ℕ)
    → IsRetained t frontier
    → Ensures (λ s. IsRetained (with_shared t s) frontier) (set_final_offset t.shared offset)
unfolding set_final_offset
set_final_offset-Retained t offset frontier v =
    Ensures_any (fail_if (ltb t.shared.max_receive_offset offset) flow_control) _ (λ _ _.
      Ensures_any (Reassembler.set_final_offset t.shared.receive offset) _
        (λ receive _. returned _ v))

pub insert_bytes-Retained :
    (try_reserve : ℕ → Bool) (t : FlowTask) (offset : ℕ) (is_fin : Bool) (bytes : List ℕ)
    (charge : Option Charge) (frontier : ℕ)
    → IsRetained t frontier
    → Ensures
        (λ s. IsRetained (with_shared t s) frontier)
        (insert_bytes_with_reservation try_reserve t.shared offset bytes is_fin charge)
unfolding insert_bytes_with_reservation
insert_bytes-Retained try_reserve t offset is_fin bytes charge frontier v =
    let end : ℕ = offset + length bytes in
    Ensures_any (fail_if (leb (2 ^ 64) end) offset_overflow) _ (λ _ _.
      Ensures_any (fail_if (ltb t.shared.max_receive_offset end) flow_control) _ (λ _ _.
        Ensures_any (validate_insert t.shared.received (range offset end)) _ (λ _ _.
          Ensures_any (insert_either try_reserve charge t.shared.receive offset bytes is_fin) _
            (λ receive _.
              Ensures_any (AckRanges.insert t.shared.received (range offset end)) _
                (λ received _. returned _ v)))))

with_map_err :
    {A B E F : Type 0} {P : A → Type 0} {Q : B → Type 0} (g : E → F) (m : Result A E)
    (f : A → Result B F)
    → Ensures P m
    → ((a : A) → P a → Ensures Q (f a))
    → Ensures Q (and_then (map_err g m) f)
with_map_err g m f (returned a p) k = k a p
with_map_err g m f (failed e) k = failed (g e)

pub apply_control-Retained :
    (try_reserve : ℕ → Bool) (r : Recovery) (t : FlowTask) (frame : ControlFrame) (frontier : ℕ)
    → IsOffered frame
    → IsRetained t frontier
    → Ensures (λ (u : FlowTask). IsRetained u frontier) (apply_control try_reserve r t frame)
unfolding apply_control apply_ack apply_max_offset apply_fin apply_stream_data
apply_control-Retained try_reserve r t (ControlFrame.ack contiguous ranges) frontier h v =
    Ensures_any
      (map_err recovery
        (from_wire contiguous (map range_of ranges) r.max_ack_ranges t.shared.next_send_offset))
      _ (λ ack _. returned _ (settled-IsRetained _ frontier (released-IsRetained t ack frontier v)))
apply_control-Retained try_reserve r t (ControlFrame.max_offset maximum) frontier h v =
    if_of_both (Ensures (λ (u : FlowTask). IsRetained u frontier))
      (ltb maximum t.shared.peer_max_offset) (λ _. failed _)
      (λ _. returned _ (record {
        waiting = v.waiting;
        behind = v.behind;
        replay_inv = v.replay_inv;
        byte_count = v.byte_count;
        chunk_count = v.chunk_count;
        bytes_bounded = v.bytes_bounded;
        chunks_bounded = v.chunks_bounded;
        same_limit = v.same_limit;
        same_places = v.same_places;
        peer_bounded = h;
      }))
apply_control-Retained try_reserve r t (ControlFrame.fin offset) frontier h v =
    with_map_err _ (set_final_offset t.shared offset) _
      (set_final_offset-Retained t offset frontier v) (λ s w. returned _ w)
apply_control-Retained try_reserve r t (ControlFrame.stream_data offset is_fin bytes) frontier h v =
    Ensures_any (fail_if (ltb r.max_stream_payload (length bytes)) (codec CodecError.limit)) _
      (λ _ _.
        with_map_err _ (insert_bytes_with_reservation try_reserve t.shared offset bytes is_fin none)
          _ (insert_bytes-Retained try_reserve t offset is_fin bytes none frontier v)
          (λ s w. returned _ w))
apply_control-Retained try_reserve r t (ControlFrame.capabilities c) frontier h v = failed _
apply_control-Retained try_reserve r t (ControlFrame.open_request o) frontier h v = failed _
apply_control-Retained try_reserve r t (ControlFrame.status s) frontier h v = failed _
apply_control-Retained try_reserve r t (ControlFrame.early_open token nonce o initial) frontier h
      v =
    failed _
