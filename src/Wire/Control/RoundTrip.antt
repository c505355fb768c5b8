-- ===== src/Wire/Control/RoundTrip.antt =====
-- `decode_control` of src/wire.rs on what `encode_control` writes.
use quicp.Prelude.{
  ℕ, suc, ◌+◌, ◌≤◌, ◌≡◌, refl, ap, sym, ◌∙◌, List, [], ◌∷◌, ◌++◌, length, length-append, drop,
  drop-append, some, Result, ok, err, fail_if, ◌>>◌, arith, ltb, lt→ltb, ◌==◌, not, if◌then◌else◌,
}
use mathlib.Core.List.{append_assoc, append-nil}
use mathlib.Core.Option
use quicp.Wire.{CodecError, limit, trailing_bytes, max_wire_offset}
use quicp.Wire.Bytes.{be_bytes, split_at-append}
use quicp.Wire.Varint.{encode_varint, decode-encode_varint}
use quicp.Wire.OpenRequest.{OpenRequest, IsOpenRequest, encoded_len, decode_open}
use quicp.Wire.OpenRequest.RoundTrip.{decode_open-encode_open}
use quicp.Wire.Control.{control_payload_range, encode_control, decode_control, slice}
use quicp.Wire.Control.Payload.{
  ControlFrame, capabilities, open_request, status, ack, max_offset, fin, stream_data, early_open,
  frame_kind, encode_payload, decode_payload, decode_open_frame, read_capabilities, read_status,
  read_ack, read_max_offset, read_fin, read_stream_data, read_early_open,
}
use quicp.Wire.Control.Frames.{IsAck, IsEarlyOpen, IsFrame}
use quicp.Wire.Control.Reads.{
  complete_lem, returned_lem, capabilities_payload, read_capabilities_lem, read_status_lem,
  ack_payload, read_ack_lem, read_offset_lem, read_stream_data_lem, read_early_open_lem,
}

-- The payload of a frame, and that it is decoded to the frame.
abbrev Decodes : ℕ → ControlFrame → Type 0
Decodes max_ack_ranges f =
    (payload : List ℕ) × (encode_payload f ≡ some payload)
    × (decode_payload (frame_kind f) payload max_ack_ranges ≡ ok f)

exactly :
    (r : OpenRequest) (bytes : List ℕ)
    → length bytes ≡ encoded_len r
    → ◌≡◌ {A = Result ControlFrame CodecError}
        (if not (encoded_len r == length bytes) then err trailing_bytes else ok (open_request r))
        (ok (open_request r))
exactly r bytes l = ground arith

open_request-Decodes :
    (max_ack_ranges : ℕ) (r : OpenRequest)
    → IsOpenRequest r
    → Decodes max_ack_ranges (open_request r)
unfolding encode_payload decode_payload frame_kind decode_open_frame
open_request-Decodes max_ack_ranges r v =
    let (bytes, e, l, d) = decode_open-encode_open r [] v in
    (bytes, rw e refl, rw (ap decode_open (sym (append-nil bytes)) ∙ d) (exactly r bytes l))

ack-Decodes :
    (max_ack_ranges contiguous : ℕ) (ranges : List (ℕ × ℕ))
    → IsAck max_ack_ranges contiguous ranges
    → Decodes max_ack_ranges (ack contiguous ranges)
unfolding encode_payload decode_payload frame_kind
ack-Decodes max_ack_ranges contiguous ranges v =
    let (o, read) = read_ack_lem max_ack_ranges contiguous ranges v in
    (
      ack_payload contiguous ranges,
      rw (lt→ltb (length ranges) 256 v.count_fits) refl,
      complete_lem (read_ack max_ack_ranges) _ _ o read,
    )

early_open-Decodes :
    (max_ack_ranges : ℕ) (token : List ℕ) (nonce : ℕ) (request : OpenRequest) (initial : List ℕ)
    → IsEarlyOpen token nonce initial
    → IsOpenRequest request
    → Decodes max_ack_ranges (early_open token nonce request initial)
unfolding encode_payload decode_payload frame_kind Option.bind
early_open-Decodes max_ack_ranges token nonce request initial v w =
    let (opened, e, l, d) = decode_open-encode_open request initial w in
    let (o, read) = read_early_open_lem token nonce request opened initial v l d in
    (
      length token ∷ (token ++ (be_bytes 8 nonce ++ (opened ++ initial))),
      rw (e, lt→ltb (length token) 256 (omega (arith, v.token_length))) refl,
      returned_lem read_early_open _ _ o read,
    )

decodes :
    (max_ack_ranges : ℕ) (f : ControlFrame) → IsFrame max_ack_ranges f → Decodes max_ack_ranges f
unfolding encode_payload decode_payload frame_kind
decodes max_ack_ranges (capabilities c) v =
    let (o, read) = read_capabilities_lem c v in
    (_, refl, complete_lem read_capabilities (capabilities_payload c) _ o read)
decodes max_ack_ranges (open_request r) v = open_request-Decodes max_ack_ranges r v
decodes max_ack_ranges (status s) v = (_, refl, complete_lem read_status _ _ 1 (read_status_lem s))
decodes max_ack_ranges (ack contiguous ranges) v = ack-Decodes max_ack_ranges contiguous ranges v
decodes max_ack_ranges (max_offset o) v =
    (_, refl, complete_lem read_max_offset _ _ _ (read_offset_lem o v).1)
decodes max_ack_ranges (fin o) v = (_, refl, complete_lem read_fin _ _ _ (read_offset_lem o v).2)
decodes max_ack_ranges (stream_data offset is_fin bytes) v =
    let (o, read) = read_stream_data_lem offset is_fin bytes v in
    (_, refl, returned_lem read_stream_data _ _ o read)
decodes max_ack_ranges (early_open token nonce request initial) v =
    early_open-Decodes max_ack_ranges token nonce request initial v.0 v.1

-- The range of the payload behind its length.
within :
    (max_frame_bytes end : ℕ) (range : ℕ × ℕ)
    → end ≤ max_frame_bytes
    → (fail_if (ltb max_frame_bytes end) limit >> ok range) ≡ ok range
within max_frame_bytes end range h = ground arith

range_lem :
    (kind : ℕ) (payload rest : List ℕ) (max_frame_bytes : ℕ)
    → length payload ≤ max_wire_offset
    → 1 + length (encode_varint (length payload)) + length payload ≤ max_frame_bytes
    → control_payload_range
        (kind ∷ ((encode_varint (length payload) ++ payload) ++ rest))
        max_frame_bytes
      ≡ ok (
        1 + length (encode_varint (length payload)),
        1 + length (encode_varint (length payload)) + length payload,
      )
unfolding control_payload_range
range_lem kind payload rest max_frame_bytes h k =
    rw
      (
        append_assoc (encode_varint (length payload)) payload rest,
        decode-encode_varint (length payload) (payload ++ rest) h,
      )
      (within max_frame_bytes (1 + length (encode_varint (length payload)) + length payload) _ k)

slice_lem :
    (kind : ℕ) (header payload rest : List ℕ)
    → slice
        (kind ∷ ((header ++ payload) ++ rest))
        (1 + length header)
        (1 + length header + length payload)
      ≡ some payload
slice_lem kind header payload rest =
    let whole_length : 1 + length header + length payload ≡ length (kind ∷ (header ++ payload)) =
      omega (arith, length-append header payload) in
    let behind : 1 + length header ≡ suc (length header) = omega arith in
    ap (slice (kind ∷ ((header ++ payload) ++ rest)) (1 + length header)) whole_length
    ∙ rw (split_at-append (kind ∷ (header ++ payload)) rest) (
        ap some (ap (λ n. drop n (kind ∷ (header ++ payload))) behind ∙ drop-append header payload))

whole :
    (kind : ℕ) (f : ControlFrame) (payload rest : List ℕ) (max_ack_ranges max_frame_bytes : ℕ)
    → length payload ≤ max_wire_offset
    → 1 + length (encode_varint (length payload)) + length payload ≤ max_frame_bytes
    → decode_payload kind payload max_ack_ranges ≡ ok f
    → decode_control
        (kind ∷ ((encode_varint (length payload) ++ payload) ++ rest))
        max_ack_ranges
        max_frame_bytes
      ≡ ok (f, 1 + length (encode_varint (length payload)) + length payload)
unfolding decode_control
whole kind f payload rest max_ack_ranges max_frame_bytes h k d =
    rw
      (
        range_lem kind payload rest max_frame_bytes h k,
        slice_lem kind (encode_varint (length payload)) payload rest,
        d,
      )
      refl

-- A frame that a peer with this limit of acknowledged ranges accepts encodes, and whatever bytes
-- stand behind its encoding, decoding gives the frame and the length of the encoding, if that is
-- within the limit of the reader, which is a wire offset at most.
pub decode_control-encode_control :
    (f : ControlFrame) (rest : List ℕ) (max_ack_ranges max_frame_bytes : ℕ)
    → IsFrame max_ack_ranges f
    → max_frame_bytes ≤ max_wire_offset
    → (bytes : List ℕ) × (encode_control f ≡ some bytes)
      × (length bytes ≤ max_frame_bytes
          → decode_control (bytes ++ rest) max_ack_ranges max_frame_bytes ≡ ok (f, length bytes))
unfolding encode_control
decode_control-encode_control f rest max_ack_ranges max_frame_bytes v k =
    let (payload, encoded, decoded) = decodes max_ack_ranges f v in
    let l = length-append (encode_varint (length payload)) payload in
    (
      frame_kind f ∷ (encode_varint (length payload) ++ payload),
      rw encoded refl,
      λ h.
          whole (frame_kind f) f payload rest max_ack_ranges max_frame_bytes
            (omega (arith, l, h, k)) (omega (arith, l, h)) decoded
          ∙ ap (λ n. ok (f, n)) (omega (arith, l)),
    )
