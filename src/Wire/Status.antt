-- ===== src/Wire/Status.antt =====
-- `OpenStatus` of src/wire.rs: the status byte of an OPEN request.
use quicp.Prelude.{ℕ, ◌<◌, ◌≡◌, ◌↔◌, Result, ◌==◌, if◌then◌else◌, arith}
use quicp.Wire.{WireError, unknown_status}

pub data OpenStatus : Type 0 where
  ok general_failure policy_denied resolution_failure : OpenStatus
  connection_refused connection_timeout capacity_exhausted : OpenStatus

unfoldable pub encode_status : OpenStatus → ℕ
encode_status ok = 0x00
encode_status general_failure = 0x01
encode_status policy_denied = 0x02
encode_status resolution_failure = 0x03
encode_status connection_refused = 0x04
encode_status connection_timeout = 0x05
encode_status capacity_exhausted = 0x06

unfoldable pub decode_status : ℕ → Result OpenStatus WireError
decode_status value =
    if value == 0x00
    then Result.ok ok
    else (if value == 0x01
        then Result.ok general_failure
        else (if value == 0x02
            then Result.ok policy_denied
            else (if value == 0x03
                then Result.ok resolution_failure
                else (if value == 0x04
                    then Result.ok connection_refused
                    else (if value == 0x05
                        then Result.ok connection_timeout
                        else (if value == 0x06
                            then Result.ok capacity_exhausted
                            else Result.err (unknown_status value)))))))

-- The status byte of every status reads back, a byte that is read is the one of its status, and the
-- bytes that are refused, as unknown statuses of their value, are those above 6.
pub decode_status_lem :
    (value : ℕ)
    → ((s : OpenStatus) → (decode_status value ≡ Result.ok s) ↔ (value ≡ encode_status s))
      × ((decode_status value ≡ Result.err (unknown_status value)) ↔ (6 < value))
unfolding decode_status encode_status
decode_status_lem value = (λ s. ground arith, ground arith)
