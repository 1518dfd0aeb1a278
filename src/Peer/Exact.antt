-- ===== src/Peer/Exact.antt =====
-- Where `UdpPeerReadHalf::read_exact` hands out the bytes of the datagrams in order.
use audiowire.Base.{
  ℕ, ◌≤◌, ◌≡◌, inl, inr, refl, sym, ap, ◌∙◌, arith, List, [], ◌∷◌, ◌++◌, flatten, Option, none,
  some, ok, length, take, drop, length-take, take-of_length_le, drop-of_length_le, eq_or_ne,
}
use audiowire.Peer.{UdpPeerReadHalf, Progress, read_exact, rounds, take_leftover, unread}
use audiowire.Peer.Copy.{take_leftover_same, take_leftover_more}
use audiowire.Peer.Rounds.{Delivers, rounds_full, rounds-Delivers, fills-Delivers, split_append}

-- The datagram that the next bytes come from.
abbrev pub current : UdpPeerReadHalf → List ℕ
current h = first h.leftover h.backlog
  where
    first : Option (List ℕ) → List (List ℕ) → List ℕ
    first (some src) msgs = src
    first none [] = []
    first none (m ∷ msgs) = m

pub read_fresh :
    (h : UdpPeerReadHalf) (buf : List ℕ)
    → h.leftover ≡ none
    → read_exact h buf ≡ rounds h.backlog (record { buf = buf; leftover = none; off = 0 })
unfolding read_exact
read_fresh h buf l = rw l

pub read_step :
    (h : UdpPeerReadHalf) (buf : List ℕ) {p : Progress}
    → take_leftover h.leftover buf ≡ ok p
    → read_exact h buf ≡ rounds h.backlog p
unfolding read_exact
read_step h buf e = ground (arith, e)

-- Nothing but what was left over is read when that is enough.
pub read_leftover :
    (src buf : List ℕ) (msgs : List (List ℕ))
    → length buf ≤ length src
    → let r = read_exact (record { backlog = msgs; leftover = some src }) buf in
      (r.outcome ≡ ok tt)
      × (r.buf ≡ take (length buf) src)
      × (unread r.half ≡ drop (length buf) src ++ flatten msgs)
read_leftover src buf msgs h = elim (eq_or_ne (length buf) (length src)) [
  | inl same ↦
      let e =
        read_step (record { backlog = msgs; leftover = some src }) buf
          (take_leftover_same src buf same)
        ∙ rounds_full msgs _ (omega arith) in
      rw e (
        refl,
        sym (take-of_length_le (length buf) src (omega arith)),
        rw (drop-of_length_le (length buf) src (omega arith)),
      )
  | inr ne ↦
      let e =
        read_step (record { backlog = msgs; leftover = some src }) buf
          (take_leftover_more src buf (omega arith))
        ∙ rounds_full msgs _ (omega (arith, length-take (length buf) src)) in
      rw e (refl, refl, refl)
]

-- When nothing is left over from an earlier datagram, a `read_exact` that returns `Ok` has filled the
-- whole buffer with the next bytes of the datagrams, in order, and every later byte is still unread.
pub read_exact-Delivers :
    (h : UdpPeerReadHalf) (buf : List ℕ)
    → h.leftover ≡ none
    → (read_exact h buf).outcome ≡ ok tt
    → Delivers (length buf) (unread h) (read_exact h buf)
read_exact-Delivers h buf l o =
    rw (read_fresh h buf l, l)
      (rounds-Delivers h.backlog _ refl (omega arith) (rw (read_fresh h buf l) at o))

within :
    (l : Option (List ℕ)) (msgs : List (List ℕ)) (buf : List ℕ)
    → length buf ≤ length (current (record { backlog = msgs; leftover = l }))
    → let h : UdpPeerReadHalf = record { backlog = msgs; leftover = l } in
      ((read_exact h buf).outcome ≡ ok tt) × Delivers (length buf) (unread h) (read_exact h buf)
unfolding flatten
within (some src) msgs buf fits =
    let (o, b, u) = read_leftover src buf msgs fits in
    (
      o,
      record {
        full = omega (arith, ap length b, length-take (length buf) src);
        in_order = rw (b, u) (split_append [] src (flatten msgs) (length buf));
      },
    )
within none [] [] fits =
    rw (read_fresh (record { backlog = []; leftover = none }) [] refl)
      (unfold rounds in (refl, record { full = refl; in_order = refl }))
within none [] (b ∷ buf) fits = absurd (omega arith)
within none (m ∷ msgs) [] fits =
    rw (read_fresh (record { backlog = m ∷ msgs; leftover = none }) [] refl)
      (unfold rounds in (refl, record { full = refl; in_order = refl }))
within none (m ∷ msgs) (b ∷ buf) fits =
    rw (read_fresh (record { backlog = m ∷ msgs; leftover = none }) (b ∷ buf) refl) (
      let (d, o) =
        fills-Delivers m msgs (record { buf = b ∷ buf; leftover = none; off = 0 }) refl
          (omega arith) (omega arith) in
      (o, d))

-- A `read_exact` of no more bytes than the current datagram still holds returns `Ok`, fills the whole
-- buffer with those bytes, and leaves every later byte unread.
pub read_exact_within :
    (h : UdpPeerReadHalf) (buf : List ℕ)
    → length buf ≤ length (current h)
    → ((read_exact h buf).outcome ≡ ok tt) × Delivers (length buf) (unread h) (read_exact h buf)
read_exact_within h buf fits = within h.leftover h.backlog buf fits
