-- ===== src/Handlers/Record/Packets.antt =====
-- What the Opus record loop puts on the wire.
use audiowire.Base.{
  ℕ, ◌≤◌, ◌≡◌, refl, sym, ap, arith, true, false, List, [], ◌∷◌, ◌++◌, flatten, Outcome, ok, err,
  panic, length, All, ltb, leb, Bool-cases, inl, inr,
}
use mathlib.Core.List.{map}
use audiowire.Device.{Driver}
use audiowire.Opus.{Encoder}
use audiowire.Stream.{BaseStream, peek, read, capture}
use audiowire.Frame.{frame, wire, max_payload, convert_to_samples}
use audiowire.Peer.{IoError}
use audiowire.Handlers.{Moment, scratch_size}
use audiowire.Handlers.Peers.{Writer}
use audiowire.Handlers.Record.{Recorded, Control, outer, inner, opus_loop, log_packet, log_sent}

-- What the Opus library promises of `encode`: the packet fits the room that it is given.
abbrev pub EncodesWithin : Encoder → Type 0
EncodesWithin enc =
    (samples : List ℕ) (room : ℕ) (s : enc.State) (packet : List ℕ)
    → (enc.encode samples room s).0 ≡ ok packet
    → length packet ≤ room

-- What holds of a loop's log: every packet fits the format, and each write is the frame of a packet, of all but the
-- last one at most, whose write failed.
pub record OnWire {W P : Type 0} (out : Recorded W P) : Type 0 where
  pub whole : List (List ℕ)
  pub lost : List (List ℕ)
  pub parts : whole ++ lost ≡ out.packets
  pub fits : All (λ x. length x ≤ max_payload) whole
  pub at_most_one : length lost ≤ 1
  pub writes : out.sent ≡ map frame whole
  pub frames : flatten out.sent ≡ wire whole

module _ {W P : Type 0} (out : Recorded W P) where
  OnWire-none : out.packets ≡ [] → out.sent ≡ [] → OnWire out
  unfolding flatten
  OnWire-none e k = record {
    whole = [];
    lost = [];
    parts = sym e;
    fits = tt;
    at_most_one = omega arith;
    writes = k;
    frames = rw k;
  }

  OnWire-lost : (x : List ℕ) → out.packets ≡ x ∷ [] → out.sent ≡ [] → OnWire out
  unfolding flatten
  OnWire-lost x e k = record {
    whole = [];
    lost = x ∷ [];
    parts = sym e;
    fits = tt;
    at_most_one = omega arith;
    writes = k;
    frames = rw k;
  }

  OnWire-more :
      (x : List ℕ)
      → length x ≤ max_payload
      → OnWire out
      → OnWire (log_packet x (log_sent (frame x) out))
  unfolding flatten
  OnWire-more x e v = record {
    whole = x ∷ v.whole;
    lost = v.lost;
    parts = ap (λ l. x ∷ l) v.parts;
    fits = (e, v.fits);
    at_most_one = v.at_most_one;
    writes = ap (λ l. frame x ∷ l) v.writes;
    frames = ap (λ l. frame x ++ l) v.frames;
  }

module _ (d : Driver) (r : Writer) (enc : Encoder) (b : BaseStream d.Handle) (n : ℕ)
    (within : EncodesWithin enc) where
  abbrev run :
      List (Moment d.World) → Control → enc.State → d.World → r.State → Recorded d.World r.State
  run = opus_loop d r enc b n

  abbrev samples : d.World → List ℕ
  samples w = let bytes = (read d b n w).0 in convert_to_samples bytes (length bytes)

  module _ (m : Moment d.World) (ms : List (Moment d.World)) (s : enc.State) (w : d.World)
      (p : r.State) (room : leb n (peek d capture b (m.before w)) ≡ true)
      (small : ltb scratch_size n ≡ false)
      (ih : (c : Control) (s' : enc.State) (w' : d.World) (p' : r.State)
        → OnWire (run ms c s' w' p')) where
    after_write :
        (x : List ℕ) (o : Outcome IoError Unit)
        → length x ≤ max_payload
        → (enc.encode (samples (m.before w)) max_payload s).0 ≡ ok x
        → (r.write_all (frame x) p).0 ≡ o
        → OnWire (run (m ∷ ms) inner s w p)
    unfolding opus_loop
    after_write x (ok u) fits e k =
        rw (room, opus_loop)
          (rw (small, opus_loop)
            (rw (e, opus_loop) (rw (k, opus_loop) (OnWire-more _ x fits (ih _ _ _ _)))))
    after_write x (err c) fits e k =
        rw (room, opus_loop)
          (rw (small, opus_loop)
            (rw (e, opus_loop) (rw (k, opus_loop) (OnWire-lost _ x refl refl))))
    after_write x panic fits e k =
        rw (room, opus_loop)
          (rw (small, opus_loop)
            (rw (e, opus_loop) (rw (k, opus_loop) (OnWire-lost _ x refl refl))))

    after_encode :
        (o : Outcome ℕ (List ℕ))
        → (enc.encode (samples (m.before w)) max_payload s).0 ≡ o
        → OnWire (run (m ∷ ms) inner s w p)
    unfolding opus_loop
    after_encode (ok x) e = after_write x _ (within _ _ _ _ e) e refl
    after_encode (err c) e =
        rw (room, opus_loop) (rw (small, opus_loop) (rw (e, opus_loop) (OnWire-none _ refl refl)))
    after_encode panic e =
        rw (room, opus_loop) (rw (small, opus_loop) (rw (e, opus_loop) (OnWire-none _ refl refl)))

  opus_too_big :
      (m : Moment d.World) (ms : List (Moment d.World)) (s : enc.State) (w : d.World) (p : r.State)
      → leb n (peek d capture b (m.before w)) ≡ true
      → ltb scratch_size n ≡ true
      → OnWire (run (m ∷ ms) inner s w p)
  unfolding opus_loop
  opus_too_big m ms s w p room big =
      rw (room, opus_loop) (rw (big, opus_loop) (OnWire-none _ refl refl))

  opus_waits :
      (m : Moment d.World) (ms : List (Moment d.World)) (s : enc.State) (w : d.World) (p : r.State)
      → leb n (peek d capture b (m.before w)) ≡ false
      → run (m ∷ ms) inner s w p ≡ run ms outer s (m.before w) p
  unfolding opus_loop
  opus_waits m ms s w p empty = rw (empty, opus_loop)

  opus_test :
      (m : Moment d.World) (ms : List (Moment d.World)) (s : enc.State) (w : d.World) (p : r.State)
      → OnWire (run ms inner s w p)
      → OnWire (run (m ∷ ms) outer s w p)
  unfolding opus_loop
  opus_test m ms s w p v = elim (Bool-cases m.term) [
    | inl t ↦ rw (t, opus_loop) (OnWire-none _ refl refl)
    | inr t ↦ rw (t, opus_loop) v
  ]

  -- With an encoder whose packets fit the room that it is given, what the Opus record loop sends is the frames of
  -- its packets in order, whatever ends the loop: no packet is too long for its two bytes of length, and at most the
  -- last packet is not sent.
  pub opus_loop-OnWire :
      (ms : List (Moment d.World)) (c : Control) (s : enc.State) (w : d.World) (p : r.State)
      → OnWire (run ms c s w p)
  opus_loop-OnWire [] c s w p = unfold opus_loop in OnWire-none _ refl refl
  opus_loop-OnWire (m ∷ ms) outer s w p = opus_test m ms s w p (opus_loop-OnWire ms inner s w p)
  opus_loop-OnWire (m ∷ ms) inner s w p =
      elim (Bool-cases (leb n (peek d capture b (m.before w)))) [
        | inl room ↦ elim (Bool-cases (ltb scratch_size n)) [
          | inl big ↦ opus_too_big m ms s w p room big
          | inr small ↦ after_encode m ms s w p room small (opus_loop-OnWire ms) _ refl
        ]
        | inr empty ↦ rw (opus_waits m ms s w p empty) (opus_loop-OnWire ms outer s (m.before w) p)
      ]
