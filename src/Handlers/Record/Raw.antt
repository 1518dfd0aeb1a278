-- ===== src/Handlers/Record/Raw.antt =====
-- What the raw record loop sends.
use audiowire.Base.{
  ℕ, ◌≡◌, refl, true, false, List, [], ◌∷◌, Outcome, ok, err, panic, length, All, leb, Bool-cases,
  inl, inr,
}
use audiowire.Device.{Driver}
use audiowire.Stream.{BaseStream, peek, read, capture}
use audiowire.Peer.{IoError}
use audiowire.Handlers.{Moment}
use audiowire.Handlers.Peers.{Writer}
use audiowire.Handlers.Record.{Recorded, Control, outer, inner, raw_loop}

-- What libaudiowire promises of `aw_record_read`: it fills a buffer of `n` bytes if so many can be read.
abbrev pub ReadsFull : (d : Driver) → BaseStream d.Handle → ℕ → Type 0
ReadsFull d b n = (w : d.World) → leb n (peek d capture b w) ≡ true → length (read d b n w).0 ≡ n

module _ (d : Driver) (r : Writer) (b : BaseStream d.Handle) (n : ℕ) (full : ReadsFull d b n) where
  abbrev run : List (Moment d.World) → Control → d.World → r.State → Recorded d.World r.State
  run = raw_loop d r b n

  abbrev Sized : Recorded d.World r.State → Type 0
  Sized out = All (λ c. length c ≡ n) out.sent

  raw_write :
      (m : Moment d.World) (ms : List (Moment d.World)) (w : d.World) (p : r.State)
      (o : Outcome IoError Unit)
      → leb n (peek d capture b (m.before w)) ≡ true
      → (r.write_all (read d b n (m.before w)).0 p).0 ≡ o
      → ((w' : d.World) (p' : r.State) → Sized (run ms inner w' p'))
      → Sized (run (m ∷ ms) inner w p)
  unfolding raw_loop
  raw_write m ms w p (ok u) room e ih =
      rw (room, raw_loop) (rw (e, raw_loop) (full (m.before w) room, ih _ _))
  raw_write m ms w p (err x) room e ih = rw (room, raw_loop) (rw (e, raw_loop) tt)
  raw_write m ms w p panic room e ih = rw (room, raw_loop) (rw (e, raw_loop) tt)

  raw_waits :
      (m : Moment d.World) (ms : List (Moment d.World)) (w : d.World) (p : r.State)
      → leb n (peek d capture b (m.before w)) ≡ false
      → run (m ∷ ms) inner w p ≡ run ms outer (m.before w) p
  unfolding raw_loop
  raw_waits m ms w p empty = rw (empty, raw_loop)

  raw_test :
      (m : Moment d.World) (ms : List (Moment d.World)) (w : d.World) (p : r.State)
      → Sized (run ms inner w p)
      → Sized (run (m ∷ ms) outer w p)
  unfolding raw_loop
  raw_test m ms w p v = elim (Bool-cases m.term) [
    | inl t ↦ rw (t, raw_loop) tt
    | inr t ↦ rw (t, raw_loop) v
  ]

  -- Every write of the raw record loop to its peer is one whole buffer.
  pub raw_loop-sizes :
      (ms : List (Moment d.World)) (c : Control) (w : d.World) (p : r.State) → Sized (run ms c w p)
  raw_loop-sizes [] c w p = unfold raw_loop in tt
  raw_loop-sizes (m ∷ ms) outer w p = raw_test m ms w p (raw_loop-sizes ms inner w p)
  raw_loop-sizes (m ∷ ms) inner w p = elim (Bool-cases (leb n (peek d capture b (m.before w)))) [
    | inl room ↦ raw_write m ms w p _ room refl (raw_loop-sizes ms inner)
    | inr empty ↦ rw (raw_waits m ms w p empty) (raw_loop-sizes ms outer (m.before w) p)
  ]
