-- ===== src/Wire/Capabilities.antt =====
-- `Capabilities` of src/wire.rs: what an endpoint offers, and the part that two endpoints share.
mod Laws
mod Tests
use quicp.Prelude.{ℕ, zero, suc, ◌+◌, ◌*◌, ◌/◌, ◌%◌, Bool, true, false, ◌==◌, min}

pub record Capabilities : Type 0 where
  pub flags : ℕ
  pub max_symbol : ℕ
  pub max_span : ℕ
  pub decoder_window : ℕ
  pub max_ack_ranges : ℕ

abbrev pub capability_datagram : ℕ
capability_datagram = 0x01

abbrev pub capability_rlc : ℕ
capability_rlc = 0x02

abbrev pub capability_replay_safe : ℕ
capability_replay_safe = 0x08

-- `&` on the low `n` bits.
unfoldable pub bit_and : ℕ → ℕ → ℕ → ℕ
bit_and zero a b = 0
bit_and (suc n) a b = (a % 2) * (b % 2) + 2 * bit_and n (a / 2) (b / 2)

-- The flags are different bits, so `|` adds.
unfoldable pub local : Bool → Capabilities
local adaptive = record {
  flags = elim adaptive [
    | true ↦ capability_replay_safe + (capability_datagram + capability_rlc)
    | false ↦ capability_replay_safe
  ];
  max_symbol = 0;
  max_span = 0;
  decoder_window = 0;
  max_ack_ranges = 0;
}

unfoldable pub intersect : Capabilities → Capabilities → Capabilities
intersect a peer = record {
  flags = bit_and 8 a.flags peer.flags;
  max_symbol = min a.max_symbol peer.max_symbol;
  max_span = min a.max_span peer.max_span;
  decoder_window = min a.decoder_window peer.decoder_window;
  max_ack_ranges = min a.max_ack_ranges peer.max_ack_ranges;
}

unfoldable pub supports_adaptive : Capabilities → Bool
supports_adaptive c =
    bit_and 8 c.flags (capability_datagram + capability_rlc) == capability_datagram + capability_rlc
