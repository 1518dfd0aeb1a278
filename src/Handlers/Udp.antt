-- ===== src/Handlers/Udp.antt =====
-- audiowire/src/peer.rs: a UDP peer's read half as the peer of a task.
pub mod Frames
pub mod Link
pub mod Session
use audiowire.Base.{ℕ, List, Outcome, ok, err, panic}
use audiowire.Peer
use audiowire.Peer.{UdpPeerReadHalf, ReadResult, IoError}
use audiowire.Handlers.Peers.{Reader}

-- After `Ok` the caller uses the buffer.
abbrev pub udp_result : ReadResult → Outcome IoError (List ℕ) × UdpPeerReadHalf
udp_result r = elim r.outcome [
  | ok u ↦ (ok r.buf, r.half)
  | err e ↦ (err e, r.half)
  | panic ↦ (panic, r.half)
]

-- `base n` is what the caller's buffer of `n` bytes holds before the call.
abbrev pub udp_reader : (ℕ → List ℕ) → Reader
udp_reader base = record {
  State = UdpPeerReadHalf;
  read_exact = λ n h. udp_result (Peer.read_exact h (base n));
}
