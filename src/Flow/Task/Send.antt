-- ===== src/Flow/Task/Send.antt =====
-- `process_outbound` of src/flow.rs: what the task sends of the bytes that wait.
use quicp.Prelude.{
  ℕ, ◌+◌, ◌-◌, ◌^◌, min, Bool, true, false, not, Option, none, some, List, [], ◌∷◌, ◌++◌, Result,
  ok, err, and_then, ◌>>=◌, map_err, leb, ◌==◌, ◌&&◌, if◌then◌else◌, length, take, drop,
}
use quicp.Wire.Control.Payload.{ControlFrame}
use quicp.Recovery.{offset_overflow}
use quicp.Recovery.Chunks.{Chunk}
use quicp.Recovery.Replay.{retain}
use quicp.Flow.{FlowShared}
use quicp.Flow.Task.{
  FlowTask, FlowTaskError, datagram, connection, recovery, WireEntry, SendResult, sent, blocked,
  unsupported, lost, Recovery,
}

-- `datagram_enabled` at the start of a turn.
abbrev pub still_enabled : Recovery → FlowTask → FlowTask
still_enabled r t =
    if t.datagram_enabled && not r.enabled then record t { datagram_enabled = false } else t

-- A payload limit of 0 ends the datagrams of the flow, or the flow.
unfoldable pub payload_check : Recovery → FlowTask → Result FlowTask FlowTaskError
payload_check r t =
    if t.datagram_enabled && r.max_source_payload == 0
    then (if r.adaptive_required then err datagram else ok (record t { datagram_enabled = false }))
    else ok t

abbrev pub payload_limit : Recovery → FlowTask → ℕ
payload_limit r t = if t.datagram_enabled then r.max_source_payload else r.max_stream_payload

abbrev pub with_outbound : FlowTask → List Chunk → FlowTask
with_outbound t outbound = record t { shared = record t.shared { outbound = outbound } }

-- The first chunk, cut to what may be sent, and the state with the rest in front of the others:
-- `none` if there is no place for one chunk more. The offset of the rest, a sum that the
-- code checks first, is within the credit, so that it cannot overflow.
unfoldable pub split_front :
    FlowTask → Chunk → List Chunk → (send_length : ℕ) → Option (FlowTask × Chunk)
split_front t c rest send_length =
    if leb (length c.bytes) send_length
    then some (with_outbound t rest, c)
    else (if leb t.shared.replay_chunk_limit t.shared.retained_chunks
        then none
        else some (
          record t {
            shared = record t.shared {
              retained_chunks = t.shared.retained_chunks + 1;
              outbound =
                  record { offset = c.offset + send_length; bytes = drop send_length c.bytes }
                  ∷ rest;
            };
          },
          record { offset = c.offset; bytes = take send_length c.bytes },
        ))

abbrev pub stream_entry : Chunk → WireEntry
stream_entry c = record {
  frame = ControlFrame.stream_data c.offset false c.bytes;
  flushed_offset = some (c.offset + length c.bytes);
  acked_offset = none;
}

-- The chunk is retained and queued on the reliable stream.
unfoldable pub fall_back : FlowTask → Chunk → Result (FlowTask × Bool) FlowTaskError
fall_back t c = do
  replay ← map_err recovery (retain t.replay c)
  ok (record t { replay = replay; wire_queue = t.wire_queue ++ stream_entry c ∷ [] }, true)

abbrev pub reached : Option ℕ → (end : ℕ) → Bool
reached none end = false
reached (some target) end = leb target end

abbrev pub is_empty : List Chunk → Bool
is_empty [] = true
is_empty (c ∷ cs) = false

abbrev pub flushed : FlowShared → (end : ℕ) → FlowShared
flushed s end =
    if reached s.flush_target end && is_empty s.outbound
    then record s { flushed_offset = end; write_waker = false }
    else s

unfoldable pub send_chunk :
    Recovery → FlowTask → Chunk → SendResult → Result (FlowTask × Bool) FlowTaskError
unfolding fall_back
send_chunk r t c sent = do
  replay ← map_err recovery (retain t.replay c)
  ok (
    record t {
      replay = replay;
      replay_timer = true;
      shared = flushed t.shared (c.offset + length c.bytes);
    },
    true,
  )
send_chunk r t c blocked = ok (with_outbound t (c ∷ t.shared.outbound), false)
send_chunk r t c unsupported =
    if r.adaptive_required
    then err datagram
    else fall_back (record t { datagram_enabled = false }) c
send_chunk r t c lost = err connection

abbrev pub send_split :
    Recovery → FlowTask → Option (FlowTask × Chunk) → Result (FlowTask × Bool) FlowTaskError
send_split r t none = ok (t, false)
send_split r t (some (t', c)) =
    if leb (2 ^ 64) (c.offset + length c.bytes)
    then err (recovery offset_overflow)
    else (if t'.datagram_enabled then send_chunk r t' c r.send_source else fall_back t' c)

-- The part of `process_outbound` with the first chunk in hand.
unfoldable pub process_chunk :
    Recovery → FlowTask → List Chunk → Result (FlowTask × Bool) FlowTaskError
unfolding split_front send_chunk fall_back payload_check
process_chunk r t [] = ok (t, false)
process_chunk r t (c ∷ rest) =
    if leb t.shared.peer_max_offset c.offset
    then ok (t, false)
    else and_then (payload_check r t) λ t'. send_split r t' (
        split_front t' c rest
          (min (min (payload_limit r t') (t.shared.peer_max_offset - c.offset)) (length c.bytes)))

unfoldable pub process_outbound : Recovery → FlowTask → Result (FlowTask × Bool) FlowTaskError
unfolding process_chunk
process_outbound r t = process_chunk r (still_enabled r t) (still_enabled r t).shared.outbound
