-- ===== src/Wire/Control/Frames.antt =====
-- The control frames that a peer of src/wire.rs accepts.
use quicp.Prelude.{ℕ, ◌/◌, ◌%◌, ◌^◌, ◌<◌, ◌≤◌, ◌≡◌, List, [], ◌∷◌, length}
use quicp.Wire.{max_wire_offset}
use quicp.Wire.Repair.{max_repair_span}
use quicp.Wire.OpenRequest.{IsOpenRequest}
use quicp.Wire.Capabilities.{Capabilities}
use quicp.Wire.Control.Payload.{
  ControlFrame, capabilities, open_request, status, ack, max_offset, fin, stream_data, early_open,
  max_decoder_window,
}

pub record IsCapabilities (c : Capabilities) : Type 0 where
  pub flags_fit : c.flags < 16
  pub flags_known : c.flags / 4 % 2 ≡ 0
  pub symbol : (64 ≤ c.max_symbol) × (c.max_symbol < 65536)
  pub span : (0 < c.max_span) × (c.max_span ≤ max_repair_span)
  pub window : (512 ≤ c.decoder_window) × (c.decoder_window ≤ max_decoder_window)
  pub ranges : (0 < c.max_ack_ranges) × (c.max_ack_ranges ≤ 32)

-- Ranges in order, none empty, from `previous` on.
abbrev pub AreRanges : ℕ → List (ℕ × ℕ) → Type 0
AreRanges previous [] = Unit
AreRanges previous ((start, end) ∷ ranges) =
    (previous ≤ start) × (start < end) × (end ≤ max_wire_offset) × AreRanges end ranges

pub record IsAck (max_ack_ranges contiguous : ℕ) (ranges : List (ℕ × ℕ)) : Type 0 where
  pub contiguous_fits : contiguous ≤ max_wire_offset
  pub count_fits : length ranges < 256
  pub count_allowed : length ranges ≤ max_ack_ranges
  pub ordered : AreRanges contiguous ranges

pub record IsEarlyOpen (token : List ℕ) (nonce : ℕ) (initial : List ℕ) : Type 0 where
  pub token_length : (0 < length token) × (length token ≤ 128)
  pub nonce_fits : nonce < 2 ^ 64
  pub initial_nonempty : 0 < length initial

abbrev pub IsFrame : ℕ → ControlFrame → Type 0
IsFrame max_ack_ranges (capabilities c) = IsCapabilities c
IsFrame max_ack_ranges (open_request r) = IsOpenRequest r
IsFrame max_ack_ranges (status s) = Unit
IsFrame max_ack_ranges (ack contiguous ranges) = IsAck max_ack_ranges contiguous ranges
IsFrame max_ack_ranges (max_offset o) = o ≤ max_wire_offset
IsFrame max_ack_ranges (fin o) = o ≤ max_wire_offset
IsFrame max_ack_ranges (stream_data offset is_fin bytes) = offset ≤ max_wire_offset
IsFrame max_ack_ranges (early_open token nonce request initial) =
    IsEarlyOpen token nonce initial × IsOpenRequest request
