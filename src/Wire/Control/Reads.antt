-- ===== src/Wire/Control/Reads.antt =====
-- The readers of control frames (src/wire.rs) on what the writer of each payload left.
use quicp.Prelude.{
  ℕ, suc, ◌+◌, ◌≤◌, ◌≡◌, refl, ap, sym, ◌∙◌, Bool, true, false, List, [], ◌∷◌, ◌++◌, length, drop,
  drop-append, ok, arith, ltb, leb, ◌==◌, ◌||◌,
}
use mathlib.Core.List.{append_assoc, append-nil}
use quicp.Wire.{limit, invalid_field, max_wire_offset}
use quicp.Wire.Bytes.{be_bytes}
use quicp.Wire.Varint.{encode_varint}
use quicp.Wire.Cursor.{
  at, cursor, Read, >>=-of-ok, >>-of-refuse, lift, u8, u8_lem, uint, uint_lem, varint, varint_lem,
  remaining, take as read_bytes, take_lem,
}
use quicp.Wire.Source.{fin_byte}
use quicp.Wire.Status.{OpenStatus, encode_status, decode_status, decode_status_lem}
use quicp.Wire.OpenRequest.{OpenRequest, encoded_len, decode_open}
use quicp.Wire.Capabilities.{Capabilities}
use quicp.Wire.Control.Payload.{
  ControlFrame, capabilities, status, ack, max_offset, fin, stream_data, early_open, encode_ranges,
  reserved_flags, capabilities_refused, as_invalid, read_capabilities, read_status, read_ranges,
  read_ack, read_max_offset, read_fin, read_stream_data, read_early_open, complete, returned,
}
use quicp.Wire.Control.Frames.{IsCapabilities, AreRanges, IsAck, IsEarlyOpen}

pub complete_lem :
    (m : Read ControlFrame) (payload : List ℕ) (frame : ControlFrame) (o : ℕ)
    → m (cursor payload) ≡ ok (frame, at o [])
    → complete m payload ≡ ok frame
unfolding complete
complete_lem m payload frame o h = rw h refl

pub returned_lem :
    (m : Read ControlFrame) (payload : List ℕ) (frame : ControlFrame) (o : ℕ)
    → m (cursor payload) ≡ ok (frame, at o [])
    → returned m payload ≡ ok frame
unfolding returned
returned_lem m payload frame o h = rw h refl

flags_allowed : (c : Capabilities) → IsCapabilities c → reserved_flags c.flags ≡ false
flags_allowed c v = ground (arith, v.flags_fit, v.flags_known)

limits_allowed : (c : Capabilities) → IsCapabilities c → capabilities_refused c ≡ false
limits_allowed c v = ground (arith, v.symbol, v.span, v.window, v.ranges)

abbrev pub capabilities_payload : Capabilities → List ℕ
capabilities_payload c =
    encode_varint c.flags
    ++ (be_bytes 2 c.max_symbol
        ++ (be_bytes 2 c.max_span ++ (be_bytes 2 c.decoder_window ++ (c.max_ack_ranges ∷ []))))

pub read_capabilities_lem :
    (c : Capabilities)
    → IsCapabilities c
    → (o : ℕ) × (read_capabilities (cursor (capabilities_payload c)) ≡ ok (capabilities c, at o []))
unfolding read_capabilities
read_capabilities_lem c v = (
  _,
  >>=-of-ok varint _ (varint_lem 0 c.flags _ (omega (arith, v.flags_fit))) (
      >>-of-refuse (reserved_flags c.flags) invalid_field _ (flags_allowed c v) (
        >>=-of-ok (uint 2) _ (uint_lem 2 _ c.max_symbol _ (omega (arith, v.symbol))) (
          >>=-of-ok (uint 2) _ (uint_lem 2 _ c.max_span _ (omega (arith, v.span))) (
            >>=-of-ok (uint 2) _ (uint_lem 2 _ c.decoder_window _ (omega (arith, v.window))) (
              >>=-of-ok u8 _ (u8_lem _ c.max_ack_ranges []) (
                >>-of-refuse (capabilities_refused c) invalid_field _ (limits_allowed c v)
                  refl)))))),
)

pub read_status_lem :
    (s : OpenStatus) → read_status (cursor (encode_status s ∷ [])) ≡ ok (status s, at 1 [])
unfolding read_status
read_status_lem s = >>=-of-ok u8 _ (u8_lem 0 (encode_status s) []) (
    >>=-of-ok (lift (as_invalid (decode_status (encode_status s)))) _
      (ap (λ r. lift (as_invalid r) (at 1 [])) (((decode_status_lem (encode_status s)).0 s).1 refl))
      refl)

read_ranges_lem :
    (ranges : List (ℕ × ℕ)) (previous o : ℕ) (bs : List ℕ)
    → AreRanges previous ranges
    → (o' : ℕ) × (read_ranges (length ranges) previous (at o (encode_ranges ranges ++ bs))
        ≡ ok (ranges, at o' bs))
unfolding read_ranges encode_ranges
read_ranges_lem [] previous o bs v = (o, refl)
read_ranges_lem ((start, end) ∷ ranges) previous o bs (after, nonempty, fits, v) =
    let (o', ih) =
      read_ranges_lem ranges end (o + length (encode_varint start) + length (encode_varint end)) bs
        v in
    (
      o',
      ap (λ bytes. read_ranges (suc (length ranges)) previous (at o bytes))
            (append_assoc (encode_varint start) (encode_varint end ++ encode_ranges ranges) bs
              ∙ ap (λ t. encode_varint start ++ t)
                  (append_assoc (encode_varint end) (encode_ranges ranges) bs))
          ∙ >>=-of-ok varint _ (varint_lem o start _ (omega (arith, nonempty, fits))) (
              >>=-of-ok varint _ (varint_lem _ end _ fits) (
                >>-of-refuse (ltb start previous || (leb end start || ltb max_wire_offset end))
                  invalid_field _ (ground (arith, after, nonempty, fits))
                  (>>=-of-ok (read_ranges (length ranges) end) _ ih refl))),
    )

abbrev pub ack_payload : ℕ → List (ℕ × ℕ) → List ℕ
ack_payload contiguous ranges = encode_varint contiguous ++ (length ranges ∷ encode_ranges ranges)

pub read_ack_lem :
    (max_ack_ranges contiguous : ℕ) (ranges : List (ℕ × ℕ))
    → IsAck max_ack_ranges contiguous ranges
    → (o : ℕ) × (read_ack max_ack_ranges (cursor (ack_payload contiguous ranges))
        ≡ ok (ack contiguous ranges, at o []))
unfolding read_ack
read_ack_lem max_ack_ranges contiguous ranges v =
    let (o, read) =
      read_ranges_lem ranges contiguous (0 + length (encode_varint contiguous) + 1) [] v.ordered in
    (
      o,
      >>=-of-ok varint _ (varint_lem 0 contiguous _ v.contiguous_fits) (
          >>=-of-ok u8 _ (u8_lem _ (length ranges) _) (
            >>-of-refuse (ltb max_ack_ranges (length ranges)) limit _
              (ground (arith, v.count_allowed))
              (>>=-of-ok (read_ranges (length ranges) contiguous) _
                (ap
                    (λ t.
                      read_ranges (length ranges) contiguous
                        (at (0 + length (encode_varint contiguous) + 1) t))
                    (sym (append-nil (encode_ranges ranges)))
                  ∙ read)
                refl))),
    )

at_end : (o : ℕ) (bs : List ℕ) → remaining (at o bs) ≡ ok (bs, at (o + length bs) [])
unfolding remaining
at_end o bs = refl

pub read_offset_lem :
    (o : ℕ)
    → o ≤ max_wire_offset
    → (n : ℕ) × (read_max_offset (cursor (encode_varint o)) ≡ ok (max_offset o, at n []))
      × (read_fin (cursor (encode_varint o)) ≡ ok (fin o, at n []))
unfolding read_max_offset read_fin
read_offset_lem o h =
    let read =
      ap (λ t. varint (at 0 t)) (sym (append-nil (encode_varint o))) ∙ varint_lem 0 o [] h in
    (_, >>=-of-ok varint _ read refl, >>=-of-ok varint _ read refl)

pub read_stream_data_lem :
    (offset : ℕ) (is_fin : Bool) (bytes : List ℕ)
    → offset ≤ max_wire_offset
    → (n : ℕ) × (read_stream_data (cursor (encode_varint offset ++ (fin_byte is_fin ∷ bytes)))
        ≡ ok (stream_data offset is_fin bytes, at n []))
unfolding read_stream_data
read_stream_data_lem offset true bytes h = (
  _,
  >>=-of-ok varint _ (varint_lem 0 offset _ h)
      (>>=-of-ok u8 _ (u8_lem _ 1 bytes) (>>=-of-ok remaining _ (at_end _ bytes) refl)),
)
read_stream_data_lem offset false bytes h = (
  _,
  >>=-of-ok varint _ (varint_lem 0 offset _ h)
      (>>=-of-ok u8 _ (u8_lem _ 0 bytes) (>>=-of-ok remaining _ (at_end _ bytes) refl)),
)

pub read_early_open_lem :
    (token : List ℕ) (nonce : ℕ) (request : OpenRequest) (opened initial : List ℕ)
    → IsEarlyOpen token nonce initial
    → length opened ≡ encoded_len request
    → decode_open (opened ++ initial) ≡ ok (request, encoded_len request)
    → (n : ℕ) × (read_early_open
          (cursor (length token ∷ (token ++ (be_bytes 8 nonce ++ (opened ++ initial)))))
        ≡ ok (early_open token nonce request initial, at n []))
unfolding read_early_open
read_early_open_lem token nonce request opened initial v l d =
    let behind : drop (encoded_len request) (opened ++ initial) ≡ initial =
      ap (λ n. drop n (opened ++ initial)) (sym l) ∙ drop-append opened initial in
    let n = 0 + 1 + length token + 8 + length (opened ++ initial) in
    (
      n,
      >>=-of-ok u8 _ (u8_lem 0 (length token) _) (
          >>-of-refuse (length token == 0 || ltb 128 (length token)) limit _
            (ground (arith, v.token_length))
            (>>=-of-ok (read_bytes (length token)) _ (take_lem (length token) _ token _ refl) (
              >>=-of-ok (uint 8) _ (uint_lem 8 _ nonce _ v.nonce_fits) (
                >>=-of-ok remaining _ (at_end _ (opened ++ initial)) (
                  >>=-of-ok (lift (as_invalid (decode_open (opened ++ initial)))) _
                    (ap (λ r. lift (as_invalid r) (at n [])) d)
                    (>>-of-refuse (length (drop (encoded_len request) (opened ++ initial)) == 0)
                      invalid_field _
                      (ap (λ t. length t == 0) behind ∙ ground (arith, v.initial_nonempty))
                      (ap (λ t. ok (early_open token nonce request t, at n [])) behind))))))),
    )
