-- ===== src/Handlers/Record/Stops.antt =====
-- How the record loops of audiowire/src/handlers.rs come to an end after a signal.
use audiowire.Base.{
  ℕ, ◌+◌, ◌≤◌, ◌<◌, ◌≡◌, refl, arith, true, false, List, [], ◌∷◌, some, Outcome, ok, err, panic,
  length, All, ltb, leb, Bool-cases, inl, inr,
}
use audiowire.Device.{Driver}
use audiowire.Opus.{Encoder}
use audiowire.Stream.{BaseStream, peek, read, capture}
use audiowire.Frame.{frame, max_payload, convert_to_samples}
use audiowire.Peer.{IoError}
use audiowire.Handlers.{Error, Moment, scratch_size}
use audiowire.Handlers.Peers.{Writer}
use audiowire.Handlers.Record.{Recorded, Control, outer, inner, raw_loop, opus_loop}

module _ (d : Driver) (r : Writer) (b : BaseStream d.Handle) (n : ℕ) (level : d.World → ℕ) where
  -- A read of a full buffer lowers the level, with what comes in during the write.
  abbrev pub Drains : Moment d.World → Type 0
  Drains m =
      (w : d.World)
      → leb n (peek d capture b (m.before w)) ≡ true
      → level (m.during (read d b n (m.before w)).1) < level w

  -- The signal has come, and the stream drains.
  abbrev pub Ending : Moment d.World → Type 0
  Ending m = (m.term ≡ true) × Drains m

  -- A loop that has come to its end
  abbrev pub Ends : Recorded d.World r.State → Type 0
  Ends out = (o : Outcome Error Unit) × (out.outcome ≡ some o)

  module _ (m : Moment d.World) (ms : List (Moment d.World)) (w : d.World) (p : r.State) where
    raw_signalled : m.term ≡ true → Ends (raw_loop d r b n (m ∷ ms) outer w p)
    unfolding raw_loop
    raw_signalled t = rw (t, raw_loop) (ok tt, refl)

    raw_waits :
        leb n (peek d capture b (m.before w)) ≡ false
        → Ends (raw_loop d r b n ms outer (m.before w) p)
        → Ends (raw_loop d r b n (m ∷ ms) inner w p)
    unfolding raw_loop
    raw_waits empty v = rw (empty, raw_loop) v

    raw_write :
        (o : Outcome IoError Unit)
        → leb n (peek d capture b (m.before w)) ≡ true
        → (r.write_all (read d b n (m.before w)).0 p).0 ≡ o
        → ((p' : r.State)
            → Ends (raw_loop d r b n ms inner (m.during (read d b n (m.before w)).1) p'))
        → Ends (raw_loop d r b n (m ∷ ms) inner w p)
    unfolding raw_loop
    raw_write (ok u) room k ih = rw (room, raw_loop) (rw (k, raw_loop) ((ih _).0, (ih _).1))
    raw_write (err e) room k ih = rw (room, raw_loop) (rw (k, raw_loop) (_, refl))
    raw_write panic room k ih = rw (room, raw_loop) (rw (k, raw_loop) (_, refl))

  -- From a test of `term` or of `peek` on, the raw record loop ends within as many moments as `level` measures and
  -- two more, if the signal has come and, whenever a full buffer waits, `level` is lower at the test after its read
  -- than at the test before it.
  pub raw_loop-Ends :
      (ms : List (Moment d.World)) (c : Control) (w : d.World) (p : r.State)
      → All Ending ms
      → level w + 2 ≤ length ms
      → Ends (raw_loop d r b n ms c w p)
  raw_loop-Ends [] c w p all enough = absurd (omega arith)
  raw_loop-Ends (m ∷ ms) outer w p ((t, drains), all) enough = raw_signalled m ms w p t
  raw_loop-Ends (m ∷ []) inner w p all enough = absurd (omega arith)
  raw_loop-Ends (m ∷ m' ∷ ms) inner w p ((t, drains), ((t', drains'), all)) enough =
      elim (Bool-cases (leb n (peek d capture b (m.before w)))) [
        | inl room ↦ raw_write m (m' ∷ ms) w p _ room refl (λ p'.
            raw_loop-Ends (m' ∷ ms) inner _ p' ((t', drains'), all)
              (omega (arith, enough, drains w room)))
        | inr empty ↦ raw_waits m (m' ∷ ms) w p empty (raw_signalled m' ms (m.before w) p t')
      ]

  module _ (enc : Encoder) where
    module _ (m : Moment d.World) (ms : List (Moment d.World)) (s : enc.State) (w : d.World)
        (p : r.State) where
      opus_signalled : m.term ≡ true → Ends (opus_loop d r enc b n (m ∷ ms) outer s w p)
      unfolding opus_loop
      opus_signalled t = rw (t, opus_loop) (ok tt, refl)

      opus_waits :
          leb n (peek d capture b (m.before w)) ≡ false
          → Ends (opus_loop d r enc b n ms outer s (m.before w) p)
          → Ends (opus_loop d r enc b n (m ∷ ms) inner s w p)
      unfolding opus_loop
      opus_waits empty v = rw (empty, opus_loop) v

      opus_too_big :
          leb n (peek d capture b (m.before w)) ≡ true
          → ltb scratch_size n ≡ true
          → Ends (opus_loop d r enc b n (m ∷ ms) inner s w p)
      unfolding opus_loop
      opus_too_big room big = rw (room, opus_loop) (rw (big, opus_loop) (panic, refl))

      module _ (room : leb n (peek d capture b (m.before w)) ≡ true)
          (small : ltb scratch_size n ≡ false)
          (ih : (s' : enc.State) (p' : r.State)
            → Ends
                (opus_loop d r enc b n ms inner s' (m.during (read d b n (m.before w)).1) p')) where
        abbrev encoded : Outcome ℕ (List ℕ)
        encoded =
            let bytes = (read d b n (m.before w)).0 in
            (enc.encode (convert_to_samples bytes (length bytes)) max_payload s).0

        opus_write :
            (x : List ℕ) (o : Outcome IoError Unit)
            → encoded ≡ ok x
            → (r.write_all (frame x) p).0 ≡ o
            → Ends (opus_loop d r enc b n (m ∷ ms) inner s w p)
        unfolding opus_loop
        opus_write x (ok u) e k =
            rw (room, opus_loop)
              (rw (small, opus_loop)
                (rw (e, opus_loop) (rw (k, opus_loop) ((ih _ _).0, (ih _ _).1))))
        opus_write x (err c) e k =
            rw (room, opus_loop)
              (rw (small, opus_loop) (rw (e, opus_loop) (rw (k, opus_loop) (_, refl))))
        opus_write x panic e k =
            rw (room, opus_loop)
              (rw (small, opus_loop) (rw (e, opus_loop) (rw (k, opus_loop) (_, refl))))

        opus_encode :
            (o : Outcome ℕ (List ℕ))
            → encoded ≡ o
            → Ends (opus_loop d r enc b n (m ∷ ms) inner s w p)
        unfolding opus_loop
        opus_encode (ok x) e = opus_write x _ e refl
        opus_encode (err c) e =
            rw (room, opus_loop) (rw (small, opus_loop) (rw (e, opus_loop) (_, refl)))
        opus_encode panic e =
            rw (room, opus_loop) (rw (small, opus_loop) (rw (e, opus_loop) (_, refl)))

    -- From a test of `term` or of `peek` on, the Opus record loop ends within as many moments as `level` measures and
    -- two more, if the signal has come and, whenever a full buffer waits, `level` is lower at the test after its read
    -- than at the test before it.
    pub opus_loop-Ends :
        (ms : List (Moment d.World)) (c : Control) (s : enc.State) (w : d.World) (p : r.State)
        → All Ending ms
        → level w + 2 ≤ length ms
        → Ends (opus_loop d r enc b n ms c s w p)
    opus_loop-Ends [] c s w p all enough = absurd (omega arith)
    opus_loop-Ends (m ∷ ms) outer s w p ((t, drains), all) enough = opus_signalled m ms s w p t
    opus_loop-Ends (m ∷ []) inner s w p all enough = absurd (omega arith)
    opus_loop-Ends (m ∷ m' ∷ ms) inner s w p ((t, drains), ((t', drains'), all)) enough =
        elim (Bool-cases (leb n (peek d capture b (m.before w)))) [
          | inl room ↦ elim (Bool-cases (ltb scratch_size n)) [
            | inl big ↦ opus_too_big m (m' ∷ ms) s w p room big
            | inr small ↦
                opus_encode m (m' ∷ ms) s w p room small
                  (λ s' p'.
                    opus_loop-Ends (m' ∷ ms) inner s' _ p' ((t', drains'), all)
                      (omega (arith, enough, drains w room)))
                  _ refl
          ]
          | inr empty ↦
              opus_waits m (m' ∷ ms) s w p empty (opus_signalled m' ms s (m.before w) p t')
        ]
