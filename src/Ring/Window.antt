-- ===== src/Ring/Window.antt =====
-- The bytes of a ring's array from an index on, going round at the capacity.
use audiowire.Base.{
  ℕ, zero, suc, ◌+◌, ◌-◌, ◌≤◌, ◌<◌, ◌≡◌, inl, inr, refl, sym, ap, ap₂, ◌∙◌, arith, List, [], ◌∷◌,
  ◌++◌, some, length, take, drop, ltb, if◌then◌else◌, append_assoc, append-nil, take-append_at,
  drop-append_at, lt_or_le,
}
use audiowire.Base.Arrays.{get_or, set, length-set, get_or-set_self, get_or-set_ne, drop-get_or}
use audiowire.Ring.{load, put}

-- An index that has gone round at most once
abbrev pub wrap : ℕ → ℕ → ℕ
wrap cap i = if ltb i cap then i else i - cap

module _ (cap : ℕ) where
  pub wrap-wrap :
      (i m n total : ℕ)
      → i < cap
      → i + m ≤ cap
      → total ≡ m + n
      → total ≤ cap
      → wrap cap (wrap cap (i + m) + n) ≡ wrap cap (i + total)
  wrap-wrap i m n total hi hm ht hn = ground arith

  abbrev pub window : List ℕ → ℕ → ℕ → List ℕ
  window xs h zero = []
  window xs h (suc n) = get_or xs h 0 ∷ window xs (wrap cap (h + 1)) n

  pub length-window : (xs : List ℕ) (h n : ℕ) → length (window xs h n) ≡ n
  length-window xs h zero = refl
  length-window xs h (suc n) = ap suc (length-window xs (wrap cap (h + 1)) n)

  pub window-append :
      (xs : List ℕ) (h m n : ℕ)
      → h < cap
      → m ≤ cap
      → window xs h (m + n) ≡ window xs h m ++ window xs (wrap cap (h + m)) n
  window-append xs h zero n hh hm =
      let e : zero + n ≡ n = omega arith in
      let k : wrap cap (h + zero) ≡ h = ground arith in rw (e, k) refl
  window-append xs h (suc m) n hh hm =
      let e : suc m + n ≡ suc (m + n) = omega arith in
      let k : wrap cap (wrap cap (h + 1) + m) ≡ wrap cap (h + suc m) = ground arith in
      rw e (
        ap (λ l. get_or xs h 0 ∷ l)
          (window-append xs (wrap cap (h + 1)) m n (ground arith) (omega arith)
            ∙ ap (λ i. window xs (wrap cap (h + 1)) m ++ window xs i n) k))

  pub take-window :
      (xs : List ℕ) (h m n : ℕ) → h < cap → m ≤ cap → m ≤ n → take m (window xs h n) ≡ window xs h m
  take-window xs h m n hh hm hn =
      let e : n ≡ m + (n - m) = omega arith in
      ap (λ k. take m (window xs h k)) e
      ∙ ap (take m) (window-append xs h m (n - m) hh hm)
      ∙ take-append_at m _ _ (sym (length-window xs h m))

  pub drop-window :
      (xs : List ℕ) (h m n : ℕ)
      → h < cap
      → m ≤ cap
      → m ≤ n
      → drop m (window xs h n) ≡ window xs (wrap cap (h + m)) (n - m)
  drop-window xs h m n hh hm hn =
      let e : n ≡ m + (n - m) = omega arith in
      ap (λ k. drop m (window xs h k)) e
      ∙ ap (drop m) (window-append xs h m (n - m) hh hm)
      ∙ drop-append_at m _ _ (sym (length-window xs h m))

  -- A block that does not go round
  pub window_block :
      (xs : List ℕ) (h n : ℕ) → length xs ≡ cap → h + n ≤ cap → take n (drop h xs) ≡ window xs h n
  window_block xs h zero e hn = refl
  window_block xs h (suc n) e hn = rw (drop-get_or h xs 0 (omega arith)) (
      ap (λ l. get_or xs h 0 ∷ l)
        (elim (lt_or_le (h + 1) cap) [
          | inl inside ↦
              let k : wrap cap (h + 1) ≡ suc h = ground arith in
              rw k (window_block xs (suc h) n e (omega arith))
          | inr edge ↦ let z : n ≡ 0 = omega arith in rw z refl
        ]))

  pub load-window :
      (xs : List ℕ) (h n : ℕ) → length xs ≡ cap → h + n ≤ cap → load xs h n ≡ some (window xs h n)
  load-window xs h n e hn = ground (arith, window_block xs h n e hn)

  -- A write just past a window extends it.
  window-set :
      (xs : List ℕ) (b h n i : ℕ)
      → length xs ≡ cap
      → h < cap
      → n < cap
      → i ≡ wrap cap (h + n)
      → window (set xs i b) h (suc n) ≡ window xs h n ++ (b ∷ [])
  window-set xs b h zero i e hh hn k =
      let same : i ≡ h = ground arith in
      rw same (ap (λ l. l ∷ []) (get_or-set_self xs h b 0 (omega arith)))
  window-set xs b h (suc n) i e hh hn k =
      ap₂ ◌∷◌ (get_or-set_ne xs i h b 0 (λ q. ground arith))
        (window-set xs b (wrap cap (h + 1)) n i e (ground arith) (omega arith) (ground arith))

  pub window-put :
      (bs xs : List ℕ) (h n i : ℕ)
      → length xs ≡ cap
      → h < cap
      → n + length bs ≤ cap
      → i + length bs ≤ cap
      → (0 < length bs → i ≡ wrap cap (h + n))
      → (window (put xs i bs) h (n + length bs) ≡ window xs h n ++ bs)
        × (length (put xs i bs) ≡ cap)
  window-put [] xs h n i e hh hn hi k =
      let z : n + 0 ≡ n = omega arith in (rw z (sym (append-nil _)), e)
  window-put (b ∷ bs) xs h n i e hh hn hi k =
      let here : i ≡ wrap cap (h + n) = k (omega arith) in
      let (w, l) =
        window-put bs (set xs i b) h (suc n) (suc i) (length-set xs i b ∙ e) hh (omega arith)
          (omega arith) (λ p. ground arith) in
      let z : n + suc (length bs) ≡ suc n + length bs = omega arith in
      (
        rw z (
            w
            ∙ ap (λ l. l ++ bs) (window-set xs b h n i e hh (omega arith) here)
            ∙ append_assoc _ (b ∷ []) bs),
        l,
      )
