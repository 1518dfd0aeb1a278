-- ===== src/Peer/Rounds.antt =====
-- The loop of `UdpPeerReadHalf::read_exact`: whatever it returns `Ok` with is in order.
use audiowire.Base.{
  ℕ, ◌+◌, ◌-◌, ◌*◌, ◌≤◌, ◌<◌, ◌≡◌, inl, inr, refl, sym, ap, ◌∙◌, arith, List, [], ◌∷◌, ◌++◌,
  flatten, none, ok, panic, length, take, drop, lt→ltb, append_assoc, length-append, length-take,
  length-drop, take-append-drop, take-append_at, take-of_length_le, lt_or_le, eq_or_ne,
}
use audiowire.Peer.{Progress, ReadResult, rounds, round, unread}
use audiowire.Peer.Copy.{round_same, round_more, round_less, round_half}

-- Once the buffer is full the loop ends.
pub rounds_full :
    (msgs : List (List ℕ)) (p : Progress)
    → length p.buf ≤ p.off
    → rounds msgs p ≡ record {
      outcome = ok tt;
      buf = p.buf;
      half = record { backlog = msgs; leftover = p.leftover };
    }
unfolding rounds
rounds_full [] p h = ground arith
rounds_full (m ∷ msgs) p h = ground arith

-- A round as the loop makes it.
pub rounds_step :
    (m : List ℕ) (msgs : List (List ℕ)) (p : Progress) {q : Progress}
    → p.off < length p.buf
    → round m p ≡ ok q
    → rounds (m ∷ msgs) p ≡ rounds msgs q
unfolding rounds
rounds_step m msgs p h e = rw (lt→ltb _ _ h, e)

pub rounds_panic :
    (m : List ℕ) (msgs : List (List ℕ)) (p : Progress)
    → p.off < length p.buf
    → round m p ≡ panic
    → (rounds (m ∷ msgs) p).outcome ≡ panic
unfolding rounds
rounds_panic m msgs p h e = rw (lt→ltb _ _ h, e)

-- What it means that the result `r` of filling a buffer of `n` bytes hands out the first bytes of `bytes`.
pub record Delivers (n : ℕ) (bytes : List ℕ) (r : ReadResult) : Type 0 where
  pub full : length r.buf ≡ n
  pub in_order : r.buf ++ unread r.half ≡ bytes

pub split_append :
    (xs m : List ℕ) (rest : List ℕ) (k : ℕ)
    → (xs ++ take k m) ++ (drop k m ++ rest) ≡ xs ++ (m ++ rest)
split_append xs m rest k =
    append_assoc xs (take k m) (drop k m ++ rest)
    ∙ ap (λ l. xs ++ l)
        (sym (append_assoc (take k m) (drop k m) rest) ∙ ap (λ l. l ++ rest) (take-append-drop k m))

module _ (m : List ℕ) (msgs : List (List ℕ)) (p : Progress) (l : p.leftover ≡ none)
    (more : p.off < length p.buf) where
  open p use {buf, off}

  -- A datagram that fills the buffer, or more, ends the loop with the right bytes.
  pub fills-Delivers :
      length buf ≤ off + length m
      → Delivers (length buf) (take off buf ++ (m ++ flatten msgs)) (rounds (m ∷ msgs) p)
        × ((rounds (m ∷ msgs) p).outcome ≡ ok tt)
  fills-Delivers h = elim (eq_or_ne (off + length m) (length buf)) [
    | inl same ↦
        let filled : length (take off buf ++ m) ≡ length buf =
          omega (arith, length-append (take off buf) m, length-take off buf) in
        let e =
          rounds_step m msgs p more (round_same p m (omega arith) same)
          ∙ rounds_full msgs _ (omega (arith, filled)) in
        rw e (
          record { full = filled; in_order = rw l (append_assoc (take off buf) m (flatten msgs)) },
          refl,
        )
    | inr ne ↦
        let filled : length (take off buf ++ take (length buf - off) m) ≡ length buf = omega (
          arith,
          length-append (take off buf) (take (length buf - off) m),
          length-take off buf,
          length-take (length buf - off) m,
        ) in
        let e =
          rounds_step m msgs p more (round_more p m (omega arith) (omega arith))
          ∙ rounds_full msgs _ (omega (arith, filled)) in
        rw e (
          record {
            full = filled;
            in_order = split_append (take off buf) m (flatten msgs) (length buf - off);
          },
          refl,
        )
  ]

  length-copied :
      length (take off buf ++ (m ++ drop (off + length m) buf))
      ≡ off + length m + (length buf - (off + length m))
  length-copied = omega (
    arith,
    length-append (take off buf) (m ++ drop (off + length m) buf),
    length-append m (drop (off + length m) buf),
    length-take off buf,
    length-drop (off + length m) buf,
  )

  -- A shorter one is copied only if it is half of what is wanted.
  half_step :
      off + length m < length buf
      → (rounds (m ∷ msgs) p).outcome ≡ ok tt
      → (q : Progress) × (rounds (m ∷ msgs) p ≡ rounds msgs q)
        × (q.leftover ≡ none)
        × (q.off ≤ length q.buf)
        × (length q.buf ≡ length buf)
        × (take q.off q.buf ≡ take off buf ++ m)
  half_step h o = elim (eq_or_ne (off + 2 * length m) (length buf)) [
    | inl e ↦ (
      record p { buf = take off buf ++ (m ++ drop (off + length m) buf); off = off + length m },
      rounds_step m msgs p more (round_half p m (omega arith) h e),
      l,
      omega (arith, length-copied),
      omega (arith, length-copied),
      ap (λ t. take (off + length m) t) (sym (append_assoc (take off buf) m _))
          ∙ take-append_at (off + length m) (take off buf ++ m) _
              (omega (arith, length-append (take off buf) m, length-take off buf)),
    )
    | inr ne ↦ cc (rounds_panic m msgs p more (round_less p m (omega arith) h ne))
  ]

-- The loop, when nothing is left over: whatever it returns `Ok` with is exact.
pub rounds-Delivers :
    (msgs : List (List ℕ)) (p : Progress)
    → p.leftover ≡ none
    → p.off ≤ length p.buf
    → (rounds msgs p).outcome ≡ ok tt
    → Delivers (length p.buf) (take p.off p.buf ++ flatten msgs) (rounds msgs p)
unfolding flatten
rounds-Delivers [] p l h o =
    unfold rounds in
    record { full = ground arith; in_order = ground (arith, take-of_length_le p.off p.buf) }
rounds-Delivers (m ∷ msgs) p l h o = elim (lt_or_le p.off (length p.buf)) [
  | inr done ↦
      rw (rounds_full (m ∷ msgs) p done)
        (record { full = refl; in_order = rw (l, take-of_length_le p.off p.buf done) })
  | inl more ↦ elim (lt_or_le (p.off + length m) (length p.buf)) [
    | inr fills ↦ (fills-Delivers m msgs p l more fills).0
    | inl short ↦
        let (q, e, ql, qo, qn, qt) = half_step m msgs p l more short o in
        let r = rounds-Delivers msgs q ql qo (rw (← e) o) in
        rw e (record {
          full = r.full ∙ qn;
          in_order =
              r.in_order
              ∙ ap (λ t. t ++ flatten msgs) qt
              ∙ append_assoc (take p.off p.buf) m (flatten msgs);
        })
  ]
]
