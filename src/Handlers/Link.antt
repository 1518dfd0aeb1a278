-- ===== src/Handlers/Link.antt =====
-- Both ends of a connection: what a playback loop of audiowire/src/handlers.rs makes of the bytes that a record
-- loop sends to it over a byte stream.
use audiowire.Base.{
  ℕ, ◌≤◌, ◌≡◌, sym, ap, ◌∙◌, arith, false, List, ◌++◌, flatten, ok, length, All, append_assoc,
  length-append, take-of_length_le,
}
use audiowire.Device.{Driver}
use audiowire.Opus.{Encoder, Decoder}
use audiowire.Stream.{BaseStream}
use audiowire.Handlers.{Moment}
use audiowire.Handlers.Peers.{Reader, Writer, IsStream}
use audiowire.Handlers.Play
use audiowire.Handlers.Play.Opus.{opus_loop-prefix, opus_loop-take}
use audiowire.Handlers.Record
use audiowire.Handlers.Record.{Control}
use audiowire.Handlers.Record.Packets.{EncodesWithin, opus_loop-OnWire}

module _ (d1 d2 : Driver) (out : Writer) (into : Reader) (unread : into.State → List ℕ)
    (stream : IsStream into unread) (b1 : BaseStream d1.Handle) (b2 : BaseStream d2.Handle)
    (ms1 : List (Moment d1.World)) (ms2 : List (Moment d2.World)) (w1 : d1.World) (w2 : d2.World)
    (p1 : out.State) (p2 : into.State) (n : ℕ) (c : Control) where
  abbrev pub sent : List (List ℕ)
  sent = (Record.raw_loop d1 out b1 n ms1 c w1 p1).sent

  module _ (enc : Encoder) (dec : Decoder) (channels : ℕ) (s1 : enc.State) (s2 : dec.State)
      (within : EncodesWithin enc) where
    abbrev pub recorded : Record.Recorded d1.World out.State
    recorded = Record.opus_loop d1 out enc b1 n ms1 c s1 w1 p1

    abbrev pub played : Play.Played d2.World into.State
    played = Play.opus_loop d2 into dec b2 channels ms2 s2 w2 p2

    -- When the bytes that the Opus record loop sends are those that a byte stream holds for the playback
    -- loop, and the encoder's packets fit the room that it is given, the packets that the playback loop
    -- hands to its decoder are the packets that the encoder made, from the first on, in order, whole and
    -- without a gap.
    pub opus_link :
        unread p2 ≡ flatten recorded.sent
        → (rest : List (List ℕ)) × (played.packets ++ rest ≡ recorded.packets)
    opus_link u =
        let v = opus_loop-OnWire d1 out enc b1 n within ms1 c s1 w1 p1 in
        let (rest, k) =
          opus_loop-prefix d2 into dec b2 channels unread stream ms2 s2 w2 p2 v.whole v.fits
            (u ∙ v.frames) in
        (
          rest ++ v.lost,
          sym (append_assoc played.packets rest v.lost) ∙ ap (λ l. l ++ v.lost) k ∙ v.parts,
        )

    -- When the bytes that the Opus record loop sends are those that a byte stream holds for the playback
    -- loop, the encoder's packets fit the room that it is given, no signal comes to the playback side,
    -- its decoder accepts every packet, and the playback loop runs for at least as many moments as the
    -- other side made packets, it hands all of those packets to its decoder, in order, but at most the
    -- last.
    pub opus_link_complete :
        unread p2 ≡ flatten recorded.sent
        → All (λ m. m.term ≡ false) ms2
        → ((x : List ℕ) (s : dec.State) → (k : ℕ) × ((dec.decode x s).0 ≡ ok k))
        → length recorded.packets ≤ length ms2
        → (lost : List (List ℕ)) × (played.packets ++ lost ≡ recorded.packets) × (length lost ≤ 1)
    opus_link_complete u quiet accepts enough =
        let v = opus_loop-OnWire d1 out enc b1 n within ms1 c s1 w1 p1 in
        let all : played.packets ≡ v.whole =
          opus_loop-take d2 into dec b2 channels unread stream ms2 s2 w2 p2 v.whole v.fits
            (u ∙ v.frames) quiet accepts
          ∙ take-of_length_le (length ms2) v.whole
              (omega (arith, enough, ap length v.parts, length-append v.whole v.lost)) in
        (v.lost, ap (λ l. l ++ v.lost) all ∙ v.parts, v.at_most_one)
