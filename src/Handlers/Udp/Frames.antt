-- ===== src/Handlers/Udp/Frames.antt =====
-- The Opus playback loop over a UDP peer, when each datagram is one frame.
use audiowire.Base.{
  ℕ, ◌-◌, ◌≤◌, ◌<◌, ◌≡◌, refl, ap, ◌∙◌, arith, false, List, [], ◌∷◌, none, some, ok, length,
  length-take, take, drop, All,
}
use mathlib.Core.List.{map}
use audiowire.Device.{Driver}
use audiowire.Opus.{Decoder}
use audiowire.Stream.{BaseStream}
use audiowire.Frame.{frame, from_be_bytes, to_be_bytes, max_payload}
use audiowire.Frame.Laws.{be_bytes_roundtrip}
use audiowire.Peer.{UdpPeerReadHalf, read_exact}
use audiowire.Peer.Copy.{round_same, round_more, take_leftover_same}
use audiowire.Peer.Rounds.{rounds_step, rounds_full}
use audiowire.Peer.Exact.{read_fresh, read_step}
use audiowire.Handlers.{Moment}
use audiowire.Handlers.Play.{opus_loop, receive}
use audiowire.Handlers.Play.Opus.{opus_packet_ok}
use audiowire.Handlers.Peers.{Reader}
use audiowire.Handlers.Udp.{udp_reader, udp_result}

-- A half whose next datagrams are these, and which has nothing left over
abbrev pub fresh : List (List ℕ) → UdpPeerReadHalf
fresh msgs = record { backlog = msgs; leftover = none }

module _ (m : List ℕ) (msgs : List (List ℕ)) (buf : List ℕ) where
  read_whole :
      0 < length buf
      → length m ≡ length buf
      → read_exact (fresh (m ∷ msgs)) buf ≡ record { outcome = ok tt; buf = m; half = fresh msgs }
  read_whole some_room e =
      read_fresh (fresh (m ∷ msgs)) buf refl
      ∙ rounds_step m msgs _ some_room (round_same _ m (omega arith) (omega arith))
      ∙ rounds_full msgs _ (omega arith)

  read_part :
      0 < length buf
      → length buf < length m
      → read_exact (fresh (m ∷ msgs)) buf ≡ record {
        outcome = ok tt;
        buf = take (length buf) m;
        half = record { backlog = msgs; leftover = some (drop (length buf) m) };
      }
  read_part some_room e =
      let whole : length buf - 0 ≡ length buf = omega arith in
      let reached =
        read_fresh (fresh (m ∷ msgs)) buf refl
        ∙ rounds_step m msgs _ some_room (round_more _ m (omega arith) (omega arith))
        ∙ rounds_full msgs _ (omega (arith, length-take (length buf - 0) m)) in
      rw whole at reached

  read_rest :
      length buf ≡ length m
      → read_exact (record { backlog = msgs; leftover = some m }) buf
        ≡ record { outcome = ok tt; buf = m; half = fresh msgs }
  read_rest e =
      read_step (record { backlog = msgs; leftover = some m }) buf (take_leftover_same m buf e)
      ∙ rounds_full msgs _ (omega arith)

read_nothing :
    (msgs : List (List ℕ)) (buf : List ℕ)
    → length buf ≡ 0
    → read_exact (fresh msgs) buf ≡ record { outcome = ok tt; buf = []; half = fresh msgs }
read_nothing msgs [] e = read_fresh (fresh msgs) [] refl ∙ rounds_full msgs _ (omega arith)
read_nothing msgs (b ∷ buf) e = absurd (omega arith)

-- The two reads of `receive`, by what they give.
two_reads :
    (r : Reader) (p p1 p2 : r.State) (head payload : List ℕ)
    → r.read_exact 2 p ≡ (ok head, p1)
    → from_be_bytes head ≤ max_payload
    → r.read_exact (from_be_bytes head) p1 ≡ (ok payload, p2)
    → receive r p ≡ (ok payload, p2)
unfolding receive
two_reads r p p1 p2 head payload h fits h2 = ground (arith, h, fits, h2)

module _ (base : ℕ → List ℕ) (sized : (n : ℕ) → length (base n) ≡ n) where
  udp_read :
      (n : ℕ) (h h' : UdpPeerReadHalf) (bytes : List ℕ)
      → read_exact h (base n) ≡ record { outcome = ok tt; buf = bytes; half = h' }
      → (udp_reader base).read_exact n h ≡ (ok bytes, h')
  udp_read n h h' bytes e = ap udp_result e

  -- When the next datagram of a UDP peer is a frame whose payload fits the buffer, and nothing is left over, exactly
  -- its payload is received, and the datagrams after it are as they were, with nothing left over, whatever the
  -- caller's buffers held before.
  pub udp_receive :
      (payload : List ℕ) (msgs : List (List ℕ))
      → length payload ≤ max_payload
      → receive (udp_reader base) (fresh (frame payload ∷ msgs)) ≡ (ok payload, fresh msgs)
  unfolding frame to_be_bytes from_be_bytes
  udp_receive [] msgs fits =
      two_reads (udp_reader base) _ (fresh msgs) (fresh msgs) (0 ∷ 0 ∷ []) []
        (udp_read 2 _ _ _
          (read_whole (0 ∷ 0 ∷ []) msgs (base 2) (omega (arith, sized 2)) (omega (arith, sized 2))))
        (omega arith) (udp_read 0 _ _ _ (read_nothing msgs (base 0) (sized 0)))
  udp_receive (x ∷ xs) msgs fits =
      let size = length (x ∷ xs) in
      let known : from_be_bytes (to_be_bytes size) ≡ size =
        (be_bytes_roundtrip size (omega arith)).0 in
      let first =
        read_part (frame (x ∷ xs)) msgs (base 2) (omega (arith, sized 2))
          (omega (arith, sized 2)) in
      two_reads (udp_reader base) _ _ (fresh msgs) (to_be_bytes size) (x ∷ xs)
        (udp_read 2 _ _ _ (rw (sized 2) at first)) (omega (arith, known))
        (udp_read _ _ _ _ (read_rest (x ∷ xs) msgs (base _) (sized _ ∙ known)))

  -- When the datagrams of a UDP peer are frames whose payloads fit the buffer, no signal comes, the decoder accepts every
  -- packet, and the loop runs for at most as many moments as there are frames, it hands the decoder one payload at each
  -- moment, from the first on and in order, whatever the caller's buffers held before.
  pub udp_opus_loop :
      (d : Driver) (dec : Decoder) (b : BaseStream d.Handle) (channels : ℕ)
      (ms : List (Moment d.World)) (s : dec.State) (w : d.World) (ps : List (List ℕ))
      → All (λ x. length x ≤ max_payload) ps
      → All (λ m. m.term ≡ false) ms
      → ((x : List ℕ) (s' : dec.State) → (n : ℕ) × ((dec.decode x s').0 ≡ ok n))
      → length ms ≤ length ps
      → (opus_loop d (udp_reader base) dec b channels ms s w (fresh (map frame ps))).packets
        ≡ take (length ms) ps
  udp_opus_loop d dec b channels [] s w ps fits quiet accepts enough = unfold opus_loop in refl
  udp_opus_loop d dec b channels (m ∷ ms) s w [] fits quiet accepts enough = absurd (omega arith)
  udp_opus_loop d dec b channels (m ∷ ms) s w (x ∷ ps) fits quiet accepts enough =
      let got = udp_receive x (map frame ps) fits.0 in
      let (n, k) = accepts x s in
      opus_packet_ok d (udp_reader base) dec b channels m ms s w _ x n quiet.0 (ap (λ y. y.0) got) k
      ∙ ap (λ l. x ∷ l)
          (rw got (udp_opus_loop d dec b channels ms _ _ ps fits.1 quiet.1 accepts (omega arith)))
