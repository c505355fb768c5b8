-- ===== src/Lib.antt =====
-- QUICP (the crate in src/): reliable flows over QUIC datagrams, with recovery of lost datagrams by repair
-- symbols and replay, over several network paths, below a TUN device or a SOCKS client.
--
-- The parts and how they meet:
--   * src/multipath.rs tracks the transport paths of a connection. Multipath.antt is its PathManager: one
--     function per method, `apply_noq_event` with its dispatch on the events of the transport engine, and
--     `health`. Multipath/Calls lists the calls as data; the files beside it prove what they keep.
--   * src/wire.rs is the syntax of everything that is sent. Wire/Bytes and Wire/Varint are its integers,
--     Wire/Cursor its reader, a state monad with errors over the bytes left, Wire/Source and Wire/Repair
--     the datagrams, Wire/Host, Wire/Status, Wire/Capabilities and Wire/OpenRequest the admission of a
--     flow, and Wire/Control the frames of the reliable stream: Control/Payload has the arms of
--     `encode_control` and `decode_control`, one function each.
--   * src/recovery.rs keeps what a flow needs to recover lost bytes. Recovery/AckRanges is the set of
--     acknowledged offsets that both sides exchange in ACK frames, Recovery/Replay the sender's bytes until
--     such a set covers them, Recovery/Reassembler the receiver's bytes until they are read, and
--     Recovery/Budget the counter of memory that all flows of an endpoint share, with its charges.
--     In Recovery/AckRanges, Covers reads the ranges as a set, and Room says what the test for a free place
--     means. Recovery/RepairBudget is the number of repair symbols that a batch
--     of sources gets.
--     Recovery/Chunks is the ordered map that Replay and Reassembler keep, a list in the order of keys.
--   * src/fec.rs is the erasure code. Fec/Field is the field with 256 elements, Fec/Encoder makes a repair
--     symbol of the sources of a span, Fec/Decoder and Fec/Operations keep sources and equations, Fec/Rows
--     and Fec/Reduce solve them by elimination, and Fec/Memory charges what they keep to the budget. The
--     files beside them prove that what is solved is what was sent: Fec/Solutions says when an equation
--     is true of the symbols, Fec/RowSolutions, Fec/Soundness and Fec/Recovered are about the elimination,
--     Fec/Coding about the encoder, Fec/Delivery and Fec/RepairDelivery about the operations, and Fec/History
--     about a run.
--   * src/session.rs admits peers and early attempts: Session.antt.
--   * src/flow.rs is the two ends of one flow. Flow.antt is the state that the handle and the task share,
--     over a Reassembler and an AckRanges; Flow/Task applies frames, and sends over a ReplayBuffer with
--     Flow/Task/Send, Flow/Task/Replay and Flow/Task/Frames, and Flow/Write is the buffer of the handle.
--     Flow/Retention says what a flow retains, Flow/Sending, Flow/Replaying, Flow/Steps, Flow/Handle and
--     Flow/Turns that each operation keeps it, and Flow/Reach puts them together. Flow/Writing
--     is about writes, Flow/Exhaustion about the end of a replay.
--   * src/packet_ring.rs is the pool of packet buffers below the TUN runner: PacketRing.antt.
--   Prelude has the tests on numbers, results and lists that these share.
--
-- How the code is translated: a method that takes `&mut self` is a function from the state to the next
-- state, in a `Result` where the method returns one, so a method that fails has changed nothing unless
-- the state is returned with the error, as `apply_noq_event` does; a charge that the code
-- drops on an error, as in `commit_recovered_precharged`, does not show in the error. Numbers are natural numbers; where
-- the code checks for overflow against a bound below 2^64 the check is the bound, and where it wraps
-- (the release of a budget) the remainder is written out. Code under a lock or on an atomic counter is
-- one operation, and threads are sequences of operations. A turn of a flow's task is one operation too,
-- although the code takes the lock of the shared state several times in some turns.
--
-- Bounds: the loop of `Reassembler::read` runs on fuel, as many turns as the output has bytes, which is
-- enough because every turn copies one at least; that the read stops only at the room's end or at a gap
-- is part of the theorem on it. The loops of `multiply` and `inverse` run on 8 turns, one for
-- each bit of a byte, after which their counters are 0. The loop of `reduce` is structural in the rows
-- that are left to be pivots. All other loops are structural. Offsets are at most 2^62 - 1.
--
-- Not modelled: src/faketcp.rs, src/host_carrier.rs and the validation in src/config.rs, which the
-- development does not reach yet; in src/flow.rs the reading of frames and the opening of flows; in
-- src/session.rs the reading of the handshake. The asynchronous tasks, sockets, platform backends, the C
-- ABI, and the transport engine under vendor/ are input and output, glue or foreign code. What a library
-- answers is a parameter: the message authentication code, the random source, the sizes of types and
-- whether a buffer is shared. A vector has the capacity that was asked for.
-- A waker is a flag and an error of a flow has its kind and no text. The charges of single chunks are kept
-- in Recovery/Budget only, and the reassembler asks a parameter whether memory is granted.
pub mod Prelude
pub mod Multipath
pub mod Wire
pub mod Recovery
pub mod Fec
pub mod Session
pub mod Flow
pub mod PacketRing
