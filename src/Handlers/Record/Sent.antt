-- ===== src/Handlers/Record/Sent.antt =====
-- The Opus record loop over a peer whose writes are observed.
use audiowire.Base.{
  ℕ, ◌≡◌, refl, sym, ap, ◌∙◌, true, false, List, [], ◌∷◌, ◌++◌, Outcome, ok, err, panic, length,
  ltb, leb, Bool-cases, inl, inr, append_assoc, append-nil,
}
use audiowire.Device.{Driver}
use audiowire.Opus.{Encoder}
use audiowire.Stream.{BaseStream, peek, read, capture}
use audiowire.Frame.{frame, max_payload, convert_to_samples}
use audiowire.Peer.{IoError}
use audiowire.Handlers.{Moment, scratch_size}
use audiowire.Handlers.Peers.{Writer}
use audiowire.Handlers.Record.{Recorded, Control, outer, inner, opus_loop}

abbrev pub kept : {A : Type 0} → Outcome IoError A → List ℕ → List (List ℕ)
kept (ok u) x = x ∷ []
kept (err e) x = []
kept panic x = []

-- A write that succeeds is seen, and no other.
abbrev pub IsSeen : (r : Writer) → (r.State → List (List ℕ)) → Type 0
IsSeen r seen =
    (x : List ℕ) (s : r.State) → seen (r.write_all x s).1 ≡ seen s ++ kept (r.write_all x s).0 x

module _ (d : Driver) (r : Writer) (seen : r.State → List (List ℕ)) (is_seen : IsSeen r seen)
    (enc : Encoder) (b : BaseStream d.Handle) (n : ℕ) where
  abbrev run :
      List (Moment d.World) → Control → enc.State → d.World → r.State → Recorded d.World r.State
  run = opus_loop d r enc b n

  -- A run from the peer `p` adds what it sent.
  abbrev Adds : r.State → Recorded d.World r.State → Type 0
  Adds p out = seen out.peer ≡ seen p ++ out.sent

  Adds-none : (p p' : r.State) → seen p' ≡ seen p → seen p' ≡ seen p ++ []
  Adds-none p p' e = e ∙ sym (append-nil (seen p))

  Adds-more :
      (x : List ℕ) (p p' q : r.State) (xs : List (List ℕ))
      → seen p' ≡ seen p ++ (x ∷ [])
      → seen q ≡ seen p' ++ xs
      → seen q ≡ seen p ++ (x ∷ xs)
  Adds-more x p p' q xs e h = h ∙ ap (λ l. l ++ xs) e ∙ append_assoc (seen p) (x ∷ []) xs

  module _ (m : Moment d.World) (ms : List (Moment d.World)) (s : enc.State) (w : d.World)
      (p : r.State) (room : leb n (peek d capture b (m.before w)) ≡ true)
      (small : ltb scratch_size n ≡ false)
      (ih : (c : Control) (s' : enc.State) (w' : d.World) (p' : r.State)
        → Adds p' (run ms c s' w' p')) where
    abbrev encoded : Outcome ℕ (List ℕ)
    encoded =
        let bytes = (read d b n (m.before w)).0 in
        (enc.encode (convert_to_samples bytes (length bytes)) max_payload s).0

    writes :
        (x : List ℕ) (o : Outcome IoError Unit)
        → (r.write_all (frame x) p).0 ≡ o
        → seen (r.write_all (frame x) p).1 ≡ seen p ++ kept o (frame x)
    writes x o k = is_seen (frame x) p ∙ ap (λ o'. seen p ++ kept o' (frame x)) k

    after_write :
        (x : List ℕ) (o : Outcome IoError Unit)
        → encoded ≡ ok x
        → (r.write_all (frame x) p).0 ≡ o
        → Adds p (run (m ∷ ms) inner s w p)
    unfolding opus_loop
    after_write x (ok u) e k =
        rw (room, opus_loop)
          (rw (small, opus_loop)
            (rw (e, opus_loop)
              (rw (k, opus_loop) (Adds-more (frame x) p _ _ _ (writes x _ k) (ih _ _ _ _)))))
    after_write x (err c) e k =
        rw (room, opus_loop)
          (rw (small, opus_loop) (rw (e, opus_loop) (rw (k, opus_loop) (writes x _ k))))
    after_write x panic e k =
        rw (room, opus_loop)
          (rw (small, opus_loop) (rw (e, opus_loop) (rw (k, opus_loop) (writes x _ k))))

    after_encode : (o : Outcome ℕ (List ℕ)) → encoded ≡ o → Adds p (run (m ∷ ms) inner s w p)
    unfolding opus_loop
    after_encode (ok x) e = after_write x _ e refl
    after_encode (err c) e =
        rw (room, opus_loop) (rw (small, opus_loop) (rw (e, opus_loop) (Adds-none p p refl)))
    after_encode panic e =
        rw (room, opus_loop) (rw (small, opus_loop) (rw (e, opus_loop) (Adds-none p p refl)))

  too_big :
      (m : Moment d.World) (ms : List (Moment d.World)) (s : enc.State) (w : d.World) (p : r.State)
      → leb n (peek d capture b (m.before w)) ≡ true
      → ltb scratch_size n ≡ true
      → Adds p (run (m ∷ ms) inner s w p)
  unfolding opus_loop
  too_big m ms s w p room big = rw (room, opus_loop) (rw (big, opus_loop) (Adds-none p p refl))

  waits :
      (m : Moment d.World) (ms : List (Moment d.World)) (s : enc.State) (w : d.World) (p : r.State)
      → leb n (peek d capture b (m.before w)) ≡ false
      → run (m ∷ ms) inner s w p ≡ run ms outer s (m.before w) p
  unfolding opus_loop
  waits m ms s w p empty = rw (empty, opus_loop)

  tests :
      (m : Moment d.World) (ms : List (Moment d.World)) (s : enc.State) (w : d.World) (p : r.State)
      → Adds p (run ms inner s w p)
      → Adds p (run (m ∷ ms) outer s w p)
  unfolding opus_loop
  tests m ms s w p v = elim (Bool-cases m.term) [
    | inl t ↦ rw (t, opus_loop) (Adds-none p p refl)
    | inr t ↦ rw (t, opus_loop) v
  ]

  -- The writes of the loop that succeed are what its log says was sent.
  pub opus_loop-Adds :
      (ms : List (Moment d.World)) (c : Control) (s : enc.State) (w : d.World) (p : r.State)
      → Adds p (run ms c s w p)
  opus_loop-Adds [] c s w p = unfold opus_loop in Adds-none p p refl
  opus_loop-Adds (m ∷ ms) outer s w p = tests m ms s w p (opus_loop-Adds ms inner s w p)
  opus_loop-Adds (m ∷ ms) inner s w p = elim (Bool-cases (leb n (peek d capture b (m.before w)))) [
    | inl room ↦ elim (Bool-cases (ltb scratch_size n)) [
      | inl big ↦ too_big m ms s w p room big
      | inr small ↦ after_encode m ms s w p room small (opus_loop-Adds ms) _ refl
    ]
    | inr empty ↦ rw (waits m ms s w p empty) (opus_loop-Adds ms outer s (m.before w) p)
  ]
