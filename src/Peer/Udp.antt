-- ===== src/Peer/Udp.antt =====
-- audiowire/src/peer.rs: the peers over tokio's sockets and channels, but for the UDP read half.
use audiowire.Base.{
  ℕ, List, [], ◌∷◌, ◌++◌, Option, none, some, Outcome, ok, err, panic, ◌>>=◌, length, leb, ◌==◌,
  if◌then◌else◌,
}
use audiowire.Peer
use audiowire.Peer.{IoError, write_zero, UdpPeerReadHalf, ReadResult}

-- tokio's `UdpSocket`: what `send_to` answers, and the number of bytes sent
pub record UdpSocket : Type 1 where
  pub State : Type 0
  pub SocketAddr : Type 0
  pub send_to : List ℕ → SocketAddr → State → Outcome IoError ℕ × State

module _ (sock : UdpSocket) where
  -- `UdpPeerWriteHalf`, without the socket that its clones share
  pub record UdpPeerWriteHalf : Type 0 where
    pub addr : sock.SocketAddr

  -- `UdpPeerWriteHalf::write_all`
  unfoldable pub write_all :
      UdpPeerWriteHalf → List ℕ → sock.State → Outcome IoError Unit × sock.State
  write_all half src s =
      let (sent, s') = sock.send_to src half.addr s in
      (do n ← sent; if leb (length src) n then ok tt else err write_zero, s')

-- `UdpPeerProducer`: the sender of a channel that has room for `backlog` datagrams
pub record UdpPeerProducer : Type 0 where
  pub backlog : ℕ

-- What a send comes to at this moment: it waits while the channel is full, and fails if the receiver is gone.
pub data Sending : Type 0 where
  sent : UdpPeerReadHalf → Sending
  waiting : Sending
  closed : List ℕ → Sending

-- `UdpPeerProducer::send`, to the half that has the receiver, if there is one
unfoldable pub send : UdpPeerProducer → List ℕ → Option UdpPeerReadHalf → Sending
send p src none = closed src
send p src (some half) =
    if leb p.backlog (length half.backlog)
    then waiting
    else sent (record half { backlog = half.backlog ++ (src ∷ []) })

-- One send after another, until one does not come through
unfoldable pub send_each : UdpPeerProducer → List (List ℕ) → UdpPeerReadHalf → Sending
unfolding send
send_each p [] half = sent half
send_each p (src ∷ srcs) half = elim (send p src (some half)) [
  | sent half' ↦ send_each p srcs half'
  | waiting ↦ waiting
  | closed m ↦ closed m
]

module _ (sock : UdpSocket) where
  pub record UdpPeer : Type 0 where
    pub read : UdpPeerReadHalf
    pub write : UdpPeerWriteHalf sock
    pub producer : UdpPeerProducer

  -- `UdpPeer::new`: tokio's channel panics if it has no room at all.
  unfoldable pub new : sock.SocketAddr → ℕ → Outcome IoError UdpPeer
  new addr backlog =
      if backlog == 0
      then panic
      else ok (record {
        read = record { backlog = []; leftover = none };
        write = record { addr = addr };
        producer = record { backlog = backlog };
      })

  unfoldable pub into_split : UdpPeer → UdpPeerReadHalf × UdpPeerWriteHalf sock × UdpPeerProducer
  into_split peer = (peer.read, peer.write, peer.producer)

  -- The peer's own `read_exact` and `write_all`
  unfoldable pub peer_read_exact : UdpPeer → List ℕ → ReadResult × UdpPeer
  peer_read_exact peer buf =
      let r = Peer.read_exact peer.read buf in (r, record peer { read = r.half })

  unfoldable pub peer_write_all : UdpPeer → List ℕ → sock.State → Outcome IoError Unit × sock.State
  unfolding write_all
  peer_write_all peer = write_all sock peer.write

-- A half of tokio's `TcpStream`: `read_exact` fills a buffer and returns its length.
pub record TcpSocket : Type 1 where
  pub State : Type 0
  pub read_exact : ℕ → State → Outcome IoError (ℕ × List ℕ) × State
  pub write_all : List ℕ → State → Outcome IoError Unit × State

module _ (sock : TcpSocket) where
  -- tokio's halves as the program's: `OwnedReadHalf::read_exact` and `OwnedWriteHalf::write_all`
  unfoldable pub half_read_exact : ℕ → sock.State → Outcome IoError (List ℕ) × sock.State
  half_read_exact n s =
      let (filled, s') = sock.read_exact n s in (do (count, buf) ← filled; ok buf, s')

  unfoldable pub half_write_all : List ℕ → sock.State → Outcome IoError Unit × sock.State
  half_write_all src s = let (written, s') = sock.write_all src s in (do u ← written; ok tt, s')

  -- `TcpPeer`, the whole stream
  pub record TcpPeer : Type 0 where
    pub socket : sock.State

  unfoldable pub tcp_read_exact : TcpPeer → ℕ → Outcome IoError (List ℕ) × TcpPeer
  tcp_read_exact peer n =
      let (filled, s') = sock.read_exact n peer.socket in
      (do (count, buf) ← filled; ok buf, record peer { socket = s' })

  unfoldable pub tcp_write_all : TcpPeer → List ℕ → Outcome IoError Unit × TcpPeer
  tcp_write_all peer src =
      let (written, s') = sock.write_all src peer.socket in
      (do u ← written; ok tt, record peer { socket = s' })
