-- ===== src/Handlers/Udp/Session.antt =====
-- Two UDP peers (audiowire/src/peer.rs) between the Opus record loop and the playback loop.
use audiowire.Base.{
  ℕ, ◌+◌, ◌≤◌, ◌<◌, ◌≡◌, refl, ap, ◌∙◌, arith, false, List, [], ◌∷◌, ◌++◌, Outcome, ok, err, panic,
  length, take, All, le→leb, lt→not_leb, length-append, append_assoc, append-nil,
}
use audiowire.Device.{Driver}
use audiowire.Opus.{Decoder, Encoder}
use audiowire.Stream.{BaseStream}
use audiowire.Peer.{IoError, UdpPeerReadHalf}
use audiowire.Peer.Udp.{
  UdpSocket, UdpPeerWriteHalf, UdpPeerProducer, UdpPeer, sent, write_all, send, send_each, new,
}
use audiowire.Handlers.{Moment}
use audiowire.Handlers.Peers.{Writer}
use audiowire.Handlers.Play
use audiowire.Handlers.Record
use audiowire.Handlers.Record.{Control}
use audiowire.Handlers.Record.Packets.{EncodesWithin}
use audiowire.Handlers.Record.Sent.{IsSeen, kept, opus_loop-Adds}
use audiowire.Handlers.Udp.{udp_reader}
use audiowire.Handlers.Udp.Frames.{fresh}
use audiowire.Handlers.Udp.Link.{udp_opus_link}

-- `UdpPeerWriteHalf` as the peer of a task
abbrev pub udp_writer : (sock : UdpSocket) → UdpPeerWriteHalf sock → Writer
udp_writer sock half = record { State = sock.State; write_all = write_all sock half }

-- What a datagram socket promises of `send_to`: a datagram leaves whole or, with an error, not at all.
pub record IsDatagram (sock : UdpSocket) (out : sock.State → List (List ℕ)) : Type 0 where
  pub whole :
      (x : List ℕ) (a : sock.SocketAddr) (s : sock.State) (n : ℕ)
      → (sock.send_to x a s).0 ≡ ok n
      → n ≡ length x
  pub leaves :
      (x : List ℕ) (a : sock.SocketAddr) (s : sock.State)
      → out (sock.send_to x a s).1 ≡ out s ++ kept (sock.send_to x a s).0 x

module _ (sock : UdpSocket) (out : sock.State → List (List ℕ)) (datagram : IsDatagram sock out)
    (half : UdpPeerWriteHalf sock) where
  write_all-kept :
      (x : List ℕ) (s : sock.State) (o : Outcome IoError ℕ)
      → (sock.send_to x half.addr s).0 ≡ o
      → kept o x ≡ kept (write_all sock half x s).0 x
  unfolding write_all
  write_all-kept x s (ok n) k =
      let size = datagram.whole x half.addr s n k in
      rw (k, le→leb (length x) n (omega (arith, size))) refl
  write_all-kept x s (err e) k = rw k refl
  write_all-kept x s panic k = rw k refl

  udp_writer-IsSeen : IsSeen (udp_writer sock half) out
  unfolding write_all
  udp_writer-IsSeen x s =
      datagram.leaves x half.addr s ∙ ap (λ l. out s ++ l) (write_all-kept x s _ refl)

-- A producer's sends, while the channel has room
send_each_lem :
    (p : UdpPeerProducer) (srcs msgs : List (List ℕ))
    → length msgs + length srcs ≤ p.backlog
    → send_each p srcs (fresh msgs) ≡ sent (fresh (msgs ++ srcs))
unfolding send_each send
send_each_lem p [] msgs h = rw (append-nil msgs)
send_each_lem p (src ∷ srcs) msgs h =
    let room = lt→not_leb (length msgs) p.backlog (omega arith) in
    rw (room, send_each)
      (send_each_lem p srcs (msgs ++ (src ∷ [])) (omega (arith, length-append msgs (src ∷ [])))
        ∙ ap (λ l. sent (fresh l)) (append_assoc msgs (src ∷ []) srcs))

-- Two UDP peers, of which one writes what the Opus record loop sends from a socket that has sent nothing, and the
-- producer of the other, which is new, is given the datagrams that the socket has sent, each once and in order, for a
-- channel with room for them all and for one at least. When the socket sends a datagram whole or not at all, the encoder's packets fit the room that it is
-- given, no signal comes to the playback side, its decoder accepts every packet, and its loop runs for at most as many
-- moments as there are datagrams, then the producer sends them all, and the loop, with the other's read half, hands to its decoder the packets that
-- the encoder made, one at each moment, from the first on and in order.
pub udp_session :
    (d1 d2 : Driver) (sock : UdpSocket) (out : sock.State → List (List ℕ))
    (datagram : IsDatagram sock out) (half : UdpPeerWriteHalf sock) (addr : sock.SocketAddr)
    (backlog : ℕ) (base : ℕ → List ℕ) (sized : (n : ℕ) → length (base n) ≡ n) (enc : Encoder)
    (dec : Decoder) (within : EncodesWithin enc) (b1 : BaseStream d1.Handle)
    (b2 : BaseStream d2.Handle) (ms1 : List (Moment d1.World)) (ms2 : List (Moment d2.World))
    (w1 : d1.World) (w2 : d2.World) (p1 : sock.State) (s1 : enc.State) (s2 : dec.State)
    (n channels : ℕ) (c : Control)
    → let recorded = Record.opus_loop d1 (udp_writer sock half) enc b1 n ms1 c s1 w1 p1 in
      let datagrams = out recorded.peer in
      out p1 ≡ []
      → 0 < backlog
      → length datagrams ≤ backlog
      → All (λ m. m.term ≡ false) ms2
      → ((x : List ℕ) (s : dec.State) → (k : ℕ) × ((dec.decode x s).0 ≡ ok k))
      → length ms2 ≤ length datagrams
      → (peer : UdpPeer sock) × (h : UdpPeerReadHalf) × (new sock addr backlog ≡ ok peer)
        × (send_each peer.producer datagrams peer.read ≡ sent h)
        × ((Play.opus_loop d2 (udp_reader base) dec b2 channels ms2 s2 w2 h).packets
            ≡ take (length ms2) recorded.packets)
unfolding new
udp_session d1 d2 sock out datagram half addr backlog base sized enc dec within b1 b2 ms1 ms2 w1 w2
      p1 s1 s2 n channels c nothing some_room room quiet accepts enough =
    let writer = udp_writer sock half in
    let recorded = Record.opus_loop d1 writer enc b1 n ms1 c s1 w1 p1 in
    let all : out recorded.peer ≡ recorded.sent =
      opus_loop-Adds d1 writer out (udp_writer-IsSeen sock out datagram half) enc b1 n ms1 c s1 w1
        p1
      ∙ ap (λ l. l ++ recorded.sent) nothing in
    (
      record {
        read = fresh [];
        write = record { addr = addr };
        producer = record { backlog = backlog };
      },
      fresh (out recorded.peer),
      ground arith,
      send_each_lem (record { backlog = backlog }) (out recorded.peer) [] (omega (arith, room)),
      ap
            (λ (msgs : List (List ℕ)).
              (Play.opus_loop d2 (udp_reader base) dec b2 channels ms2 s2 w2 (fresh msgs)).packets)
            all
          ∙ udp_opus_link d1 d2 writer base sized enc dec within b1 b2 ms1 ms2 w1 w2 p1 s1 s2 n
              channels c quiet accepts (omega (arith, ap length all, enough)),
    )
