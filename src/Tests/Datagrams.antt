-- ===== src/Tests/Datagrams.antt =====
-- A UDP peer that brings one frame in each datagram.
use audiowire.Base.{ℕ, zero, suc, ◌≡◌, refl, arith, List, [], ◌∷◌, ◌++◌, ok, length, take}
use audiowire.Frame.{frame, to_be_bytes, convert_to_samples}
use audiowire.Stream.{peek, read}
use audiowire.Handlers.Play
use audiowire.Handlers.Play.{receive}
use audiowire.Handlers.Udp.{udp_reader}
use audiowire.Peer.{UdpPeerReadHalf}
use audiowire.Peer.Udp.{UdpSocket, UdpPeerWriteHalf, UdpPeer, new, sent, send_each, write_all}
use audiowire.Handlers.{Moment}
use audiowire.Handlers.Udp.Session.{udp_writer, IsDatagram, udp_session}
use audiowire.Handlers.Record
use audiowire.Handlers.Record.{outer}
use audiowire.Tests.Toys.{
  Machine, working, machine, stream, quiet, decoder, encoder, encoder-EncodesWithin,
}

-- Buffers that hold what was there before
abbrev used : ℕ → List ℕ
used zero = []
used (suc n) = 5 ∷ used n

length-used : (n : ℕ) → length (used n) ≡ n
length-used zero = refl
length-used (suc n) = omega (arith, length-used n)

abbrev payloads : List (List ℕ)
payloads = (7 ∷ []) ∷ [] ∷ (8 ∷ 9 ∷ []) ∷ []

abbrev outbox : UdpSocket
outbox = record {
  State = List (List ℕ);
  SocketAddr = ℕ;
  send_to = λ x a s. (ok (length x), s ++ (x ∷ []));
}

abbrev all_sent : List (List ℕ) → List (List ℕ)
all_sent s = s

outbox-IsDatagram : IsDatagram outbox all_sent
outbox-IsDatagram = record { whole = λ x a s n h. ground arith; leaves = λ x a s. refl }

abbrev half : UdpPeerWriteHalf outbox
half = record { addr = 7 }

abbrev five : List (Moment Machine)
five = quiet ∷ quiet ∷ quiet ∷ quiet ∷ quiet ∷ []

-- Seven bytes are there to record, in buffers of three.
abbrev out : Record.Recorded Machine (List (List ℕ))
out = Record.opus_loop working (udp_writer outbox half) encoder stream 3 five outer tt machine []

two_sent : length out.peer ≡ 2
unfolding Record.opus_loop write_all convert_to_samples frame to_be_bytes peek read
two_sent = refl

udp_session_example :
    (peer : UdpPeer outbox) × (h : UdpPeerReadHalf) × (new outbox 8 4 ≡ ok peer)
    × (send_each peer.producer out.peer peer.read ≡ sent h)
    × ((Play.opus_loop working
          (udp_reader used)
          decoder
          stream
          1
          (quiet ∷ quiet ∷ [])
          tt
          machine
          h).packets
        ≡ take 2 out.packets)
udp_session_example =
    udp_session working working outbox all_sent outbox-IsDatagram half 8 4 used length-used encoder
      decoder encoder-EncodesWithin stream stream five (quiet ∷ quiet ∷ []) machine machine [] tt tt
      3 1 outer refl (omega arith) (omega (arith, two_sent)) (refl, (refl, tt)) (λ x s. (1, refl))
      (omega (arith, two_sent))
