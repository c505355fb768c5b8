-- ===== src/Wire.antt =====
-- src/wire.rs: the wire syntax of QUICP. The errors and limits stand here, the codecs in the modules
-- below. A byte string is the list of its bytes.
pub mod Bytes
pub mod Varint
pub mod Cursor
pub mod Source
pub mod Repair
pub mod Status
pub mod Host
pub mod OpenRequest
pub mod Capabilities
pub mod Control
mod Tests
use quicp.Prelude.{ℕ, ◌-◌, ◌^◌}

pub data WireError : Type 0 where
  truncated invalid_host_length invalid_host zero_port : WireError
  unknown_status : ℕ → WireError
  output_too_small : (required available : ℕ) → WireError

pub data CodecError : Type 0 where
  truncated non_canonical invalid_field unknown_type trailing_bytes limit : CodecError

abbrev pub max_wire_offset : ℕ
max_wire_offset = 2 ^ 62 - 1
