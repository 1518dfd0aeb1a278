-- ===== src/Peer/Valid.antt =====
-- The invariant of `UdpPeerReadHalf`: what is left over is never an empty datagram.
use audiowire.Base.{
  ℕ, ◌-◌, ◌<◌, ◌≡◌, refl, arith, List, [], ◌∷◌, Option, none, some, Outcome, ok, err, panic, length,
  length-drop, inl, inr, lt_or_le, lt→ltb, le→not_ltb,
}
use audiowire.Peer.{UdpPeerReadHalf, Progress, IoError, read_exact, rounds, round, take_leftover}

abbrev pub RestNonEmpty : Option (List ℕ) → Type 0
RestNonEmpty none = Unit
RestNonEmpty (some src) = 0 < length src

pub record IsValid (h : UdpPeerReadHalf) : Type 0 where
  pub rest : RestNonEmpty h.leftover

abbrev Keeps : Outcome IoError Progress → Type 0
Keeps (ok q) = RestNonEmpty q.leftover
Keeps (err e) = Unit
Keeps panic = Unit

round-Keeps : (m : List ℕ) (p : Progress) → RestNonEmpty p.leftover → Keeps (round m p)
unfolding round
round-Keeps m p h = ground (arith, length-drop (length p.buf - p.off) m)

take_leftover-Keeps :
    (l : Option (List ℕ)) (buf : List ℕ) → RestNonEmpty l → Keeps (take_leftover l buf)
unfolding take_leftover
take_leftover-Keeps none buf h = h
take_leftover-Keeps (some src) buf h = ground (arith, length-drop (length buf) src)

-- One round, by what it ends with; `ih` is the invariant after the rounds that follow.
step-IsValid :
    (m : List ℕ) (msgs : List (List ℕ)) (p : Progress) (o : Outcome IoError Progress)
    → round m p ≡ o
    → RestNonEmpty p.leftover
    → Keeps o
    → ((q : Progress) → RestNonEmpty q.leftover → IsValid (rounds msgs q).half)
    → IsValid (rounds (m ∷ msgs) p).half
unfolding rounds
step-IsValid m msgs p (ok q) e h k ih = elim (lt_or_le p.off (length p.buf)) [
  | inl more ↦ rw (lt→ltb _ _ more, e) (ih q k)
  | inr done ↦ rw (le→not_ltb _ _ done) (record { rest = h })
]
step-IsValid m msgs p (err x) e h k ih = elim (lt_or_le p.off (length p.buf)) [
  | inl more ↦ rw (lt→ltb _ _ more, e) (record { rest = h })
  | inr done ↦ rw (le→not_ltb _ _ done) (record { rest = h })
]
step-IsValid m msgs p panic e h k ih = elim (lt_or_le p.off (length p.buf)) [
  | inl more ↦ rw (lt→ltb _ _ more, e) (record { rest = h })
  | inr done ↦ rw (le→not_ltb _ _ done) (record { rest = h })
]

rounds-IsValid :
    (msgs : List (List ℕ)) (p : Progress) → RestNonEmpty p.leftover → IsValid (rounds msgs p).half
rounds-IsValid [] p h = unfold rounds in record { rest = ground arith }
rounds-IsValid (m ∷ msgs) p h =
    step-IsValid m msgs p (round m p) refl h (round-Keeps m p h) (rounds-IsValid msgs)

start-IsValid :
    (h : UdpPeerReadHalf) (buf : List ℕ) (o : Outcome IoError Progress)
    → take_leftover h.leftover buf ≡ o
    → IsValid h
    → Keeps o
    → IsValid (read_exact h buf).half
unfolding read_exact
start-IsValid h buf (ok p) e v k = rw (e, read_exact) (rounds-IsValid h.backlog p k)
start-IsValid h buf (err x) e v k = rw (e, read_exact) v
start-IsValid h buf panic e v k = rw (e, read_exact) v

-- Whatever `read_exact` ends with, `Ok`, an error or a panic, a leftover is not empty afterwards if it was not before.
pub read_exact-IsValid :
    (h : UdpPeerReadHalf) (buf : List ℕ) → IsValid h → IsValid (read_exact h buf).half
read_exact-IsValid h buf v =
    start-IsValid h buf (take_leftover h.leftover buf) refl v
      (take_leftover-Keeps h.leftover buf v.rest)
