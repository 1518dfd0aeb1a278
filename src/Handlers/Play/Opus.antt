-- ===== src/Handlers/Play/Opus.antt =====
-- Which packets the Opus playback loop hands to its decoder.
use audiowire.Base.{
  ℕ, ◌*◌, ◌≤◌, ◌≡◌, ◌⊎◌, inl, inr, refl, ap, ◌∙◌, true, false, List, [], ◌∷◌, ◌++◌, Outcome, ok,
  err, panic, length, take, All, append-nil, Bool-cases,
}
use audiowire.Device.{Driver}
use audiowire.Opus.{Decoder}
use audiowire.Stream.{BaseStream}
use audiowire.Frame.{wire, max_payload, convert_to_bytes}
use audiowire.Handlers.{Error, Moment}
use audiowire.Handlers.Peers.{Reader, IsStream}
use audiowire.Handlers.Play.{Played, opus_loop, offer, receive}
use audiowire.Handlers.Play.Packets.{receive-frame, receive-end}

module _ (d : Driver) (r : Reader) (dec : Decoder) (b : BaseStream d.Handle) (channels : ℕ) where
  abbrev run : List (Moment d.World) → dec.State → d.World → r.State → Played d.World r.State
  run = opus_loop d r dec b channels

  -- After a packet the loop has logged it, and has ended or goes on.
  record Logged (x : List ℕ) (ms : List (Moment d.World)) (p1 : r.State)
      (out : Played d.World r.State) : Type 0 where
    more : List (List ℕ)
    head : out.packets ≡ x ∷ more
    tail : (more ≡ []) ⊎ ((s : dec.State) × (w : d.World) × (more ≡ (run ms s w p1).packets))

  -- The state and the world after a packet that is decoded to `n` frames
  abbrev next_world : Moment d.World → dec.State → d.World → List ℕ → ℕ → d.World
  next_world m s w x n =
      (offer d b (convert_to_bytes (dec.decode x s).1 (channels * n)) (m.before w)).0

  pub opus_packet_ok :
      (m : Moment d.World) (ms : List (Moment d.World)) (s : dec.State) (w : d.World) (p : r.State)
      (x : List ℕ) (n : ℕ)
      → m.term ≡ false
      → (receive r p).0 ≡ ok x
      → (dec.decode x s).0 ≡ ok n
      → (run (m ∷ ms) s w p).packets
        ≡ x ∷ (run ms (dec.decode x s).2 (next_world m s w x n) (receive r p).1).packets
  unfolding opus_loop
  opus_packet_ok m ms s w p x n t e k =
      rw (t, opus_loop) (rw (e, opus_loop) (rw (k, opus_loop) refl))

  opus_packet :
      (m : Moment d.World) (ms : List (Moment d.World)) (s : dec.State) (w : d.World) (p : r.State)
      (x : List ℕ) (o : Outcome ℕ ℕ)
      → m.term ≡ false
      → (receive r p).0 ≡ ok x
      → (dec.decode x s).0 ≡ o
      → Logged x ms (receive r p).1 (run (m ∷ ms) s w p)
  unfolding opus_loop
  opus_packet m ms s w p x (ok n) t e k = record {
    more = (run ms (dec.decode x s).2 (next_world m s w x n) (receive r p).1).packets;
    head = opus_packet_ok m ms s w p x n t e k;
    tail = inr ((dec.decode x s).2, next_world m s w x n, refl);
  }
  opus_packet m ms s w p x (err c) t e k =
      rw (t, opus_loop)
        (rw (e, opus_loop) (rw (k, opus_loop) (record { more = []; head = refl; tail = inl refl })))
  opus_packet m ms s w p x panic t e k =
      rw (t, opus_loop)
        (rw (e, opus_loop) (rw (k, opus_loop) (record { more = []; head = refl; tail = inl refl })))

  opus_term :
      (m : Moment d.World) (ms : List (Moment d.World)) (s : dec.State) (w : d.World) (p : r.State)
      → m.term ≡ true
      → (run (m ∷ ms) s w p).packets ≡ []
  unfolding opus_loop
  opus_term m ms s w p t = rw (t, opus_loop)

  opus_fails :
      (m : Moment d.World) (ms : List (Moment d.World)) (s : dec.State) (w : d.World) (p : r.State)
      (e : Error)
      → m.term ≡ false
      → (receive r p).0 ≡ err e
      → (run (m ∷ ms) s w p).packets ≡ []
  unfolding opus_loop
  opus_fails m ms s w p e t k = rw (t, opus_loop) (rw (k, opus_loop))

  module _ (unread : r.State → List ℕ) (stream : IsStream r unread) where
    opus_end :
        (m : Moment d.World) (ms : List (Moment d.World)) (s : dec.State) (w : d.World)
        (p : r.State)
        → unread p ≡ []
        → (run (m ∷ ms) s w p).packets ≡ []
    opus_end m ms s w p u = elim (Bool-cases m.term) [
      | inl t ↦ opus_term m ms s w p t
      | inr t ↦ let (e, k) = receive-end r unread stream p u in opus_fails m ms s w p e t k
    ]

    prefix_after :
        (ms : List (Moment d.World)) (p1 : r.State) (x : List ℕ) (ps : List (List ℕ))
        (out : Played d.World r.State)
        → Logged x ms p1 out
        → ((s : dec.State) (w : d.World)
            → (rest : List (List ℕ)) × ((run ms s w p1).packets ++ rest ≡ ps))
        → (rest : List (List ℕ)) × (out.packets ++ rest ≡ x ∷ ps)
    prefix_after ms p1 x ps out log ih = elim log.tail [
      | inl e ↦ (ps, rw (log.head, e))
      | inr (s, w, e) ↦ let (rest, k) = ih s w in (rest, rw (log.head, e) (ap (λ l. x ∷ l) k))
    ]

    -- From a byte stream of well-formed frames, the decoder is given their payloads from the first on, in order
    -- and without a gap, whatever the decoder answers and whatever ends the loop.
    pub opus_loop-prefix :
        (ms : List (Moment d.World)) (s : dec.State) (w : d.World) (p : r.State)
        (ps : List (List ℕ))
        → All (λ x. length x ≤ max_payload) ps
        → unread p ≡ wire ps
        → (rest : List (List ℕ)) × ((run ms s w p).packets ++ rest ≡ ps)
    opus_loop-prefix [] s w p ps fits u = (ps, unfold opus_loop in refl)
    opus_loop-prefix (m ∷ ms) s w p [] fits u = ([], append-nil _ ∙ opus_end m ms s w p u)
    opus_loop-prefix (m ∷ ms) s w p (x ∷ ps) fits u = elim (Bool-cases m.term) [
      | inl t ↦ (x ∷ ps, rw (opus_term m ms s w p t))
      | inr t ↦
          let (got, left) = receive-frame r unread stream x (wire ps) p fits.0 u in
          prefix_after ms (receive r p).1 x ps _
            (opus_packet m ms s w p x (dec.decode x s).0 t got refl)
            (λ s' w'. opus_loop-prefix ms s' w' (receive r p).1 ps fits.1 left)
    ]

    -- From a byte stream of well-formed frames, while no signal comes and the decoder accepts every
    -- packet, the loop hands the decoder one payload at each moment: after as many moments as there are
    -- frames, every one.
    pub opus_loop-take :
        (ms : List (Moment d.World)) (s : dec.State) (w : d.World) (p : r.State)
        (ps : List (List ℕ))
        → All (λ x. length x ≤ max_payload) ps
        → unread p ≡ wire ps
        → All (λ m. m.term ≡ false) ms
        → ((x : List ℕ) (s' : dec.State) → (n : ℕ) × ((dec.decode x s').0 ≡ ok n))
        → (run ms s w p).packets ≡ take (length ms) ps
    opus_loop-take [] s w p ps fits u quiet accepts = unfold opus_loop in refl
    opus_loop-take (m ∷ ms) s w p [] fits u quiet accepts = opus_end m ms s w p u
    opus_loop-take (m ∷ ms) s w p (x ∷ ps) fits u quiet accepts =
        let (got, left) = receive-frame r unread stream x (wire ps) p fits.0 u in
        let (n, k) = accepts x s in
        opus_packet_ok m ms s w p x n quiet.0 got k
        ∙ ap (λ l. x ∷ l) (opus_loop-take ms _ _ (receive r p).1 ps fits.1 left quiet.1 accepts)
