-- ===== src/Handlers/Udp/Link.antt =====
-- From the Opus record loop of one side to the playback loop of the other, over datagrams.
use audiowire.Base.{
  ℕ, ◌≤◌, ◌≡◌, refl, sym, ap, ◌∙◌, arith, false, List, [], ◌∷◌, ok, length, take, take-append_le,
  All,
}
use mathlib.Core.List.{map}
use audiowire.Device.{Driver}
use audiowire.Opus.{Decoder, Encoder}
use audiowire.Stream.{BaseStream}
use audiowire.Frame.{frame}
use audiowire.Handlers.{Moment}
use audiowire.Handlers.Peers.{Writer}
use audiowire.Handlers.Play
use audiowire.Handlers.Record
use audiowire.Handlers.Record.{Control}
use audiowire.Handlers.Record.Packets.{EncodesWithin, opus_loop-OnWire}
use audiowire.Handlers.Udp.{udp_reader}
use audiowire.Handlers.Udp.Frames.{fresh, udp_opus_loop}

length-frames : (ps : List (List ℕ)) → length (map frame ps) ≡ length ps
length-frames [] = refl
length-frames (p ∷ ps) = omega (arith, length-frames ps)

-- When each write of the Opus record loop arrives as one datagram, in order, the encoder's packets fit the room that it
-- is given, no signal comes to the playback side, its decoder accepts every packet, and its loop runs for at most as
-- many moments as there are datagrams, then that loop hands to its decoder the packets that the encoder made, one at
-- each moment, from the first on and in order.
pub udp_opus_link :
    (d1 d2 : Driver) (out : Writer) (base : ℕ → List ℕ) (sized : (n : ℕ) → length (base n) ≡ n)
    (enc : Encoder) (dec : Decoder) (within : EncodesWithin enc) (b1 : BaseStream d1.Handle)
    (b2 : BaseStream d2.Handle) (ms1 : List (Moment d1.World)) (ms2 : List (Moment d2.World))
    (w1 : d1.World) (w2 : d2.World) (p1 : out.State) (s1 : enc.State) (s2 : dec.State)
    (n channels : ℕ) (c : Control)
    → let recorded = Record.opus_loop d1 out enc b1 n ms1 c s1 w1 p1 in
      All (λ m. m.term ≡ false) ms2
      → ((x : List ℕ) (s : dec.State) → (k : ℕ) × ((dec.decode x s).0 ≡ ok k))
      → length ms2 ≤ length recorded.sent
      → (Play.opus_loop d2
          (udp_reader base)
          dec
          b2
          channels
          ms2
          s2
          w2
          (fresh recorded.sent)).packets
        ≡ take (length ms2) recorded.packets
udp_opus_link d1 d2 out base sized enc dec within b1 b2 ms1 ms2 w1 w2 p1 s1 s2 n channels c quiet
      accepts enough =
    let v = opus_loop-OnWire d1 out enc b1 n within ms1 c s1 w1 p1 in
    let room : length ms2 ≤ length v.whole =
      omega (arith, enough, ap length v.writes, length-frames v.whole) in
    ap
      (λ (msgs : List (List ℕ)).
        (Play.opus_loop d2 (udp_reader base) dec b2 channels ms2 s2 w2 (fresh msgs)).packets)
      v.writes
    ∙ udp_opus_loop base sized d2 dec b2 channels ms2 s2 w2 v.whole v.fits quiet accepts room
    ∙ sym (take-append_le (length ms2) v.whole v.lost room)
    ∙ ap (take (length ms2)) v.parts
