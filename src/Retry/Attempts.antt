-- ===== src/Retry/Attempts.antt =====
-- How often `with_retry` tries, how long it sleeps, and that it returns.
use audiowire.Base.{
  ℕ, zero, suc, ◌+◌, ◌*◌, ◌%◌, ◌≤◌, ◌<◌, ◌≡◌, refl, ◌∙◌, arith, List, [], ◌∷◌, some, Outcome, ok,
  err, panic, le→leb, lt→not_leb, lt_or_le, inl, inr,
}
use native.Mathlib.Nat.{add-zero, zero-add}
use audiowire.Retry.{returns, max_retry, retry_loop, with_retry}

-- The sleeps before `j` further attempts after the one numbered `r`: three seconds more each time.
abbrev pub delays : ℕ → ℕ → List ℕ
delays r zero = []
delays r (suc j) = (3 * (r + 1)) ∷ delays (r + 1) j

module _ {E T : Type 0} (g : ℕ → Outcome E T) where
  -- The attempts from `r` on, `j` of them, fail.
  abbrev pub Fails : ℕ → ℕ → Type 0
  Fails r zero = Unit
  Fails r (suc j) = ((e : E) × (g r ≡ err e)) × Fails (r + 1) j

  step_ok : (f r : ℕ) (v : T) → g r ≡ ok v → retry_loop g (suc f) r ≡ returns (ok v)
  unfolding retry_loop
  step_ok f r v e = rw (e, retry_loop)

  step_last :
      (f r : ℕ) (x : E) → g r ≡ err x → max_retry ≤ r → retry_loop g (suc f) r ≡ returns (err x)
  unfolding retry_loop
  step_last f r x e h = rw (e, retry_loop) (rw (le→leb _ _ h))

  step_more :
      (f r : ℕ) (x : E)
      → g r ≡ err x
      → r < max_retry
      → let rest = retry_loop g f (r + 1) in
        retry_loop g (suc f) r
        ≡ record rest { calls = suc rest.calls; sleeps = (3 * (r + 1)) ∷ rest.sleeps }
  unfolding retry_loop
  step_more f r x e h =
      let small : (r + 1) % 256 ≡ r + 1 = omega arith in
      rw (e, retry_loop) (rw (lt→not_leb _ _ h) (rw small (ground arith)))

  step_panic : (f r : ℕ) → g r ≡ panic → retry_loop g (suc f) r ≡ returns panic
  unfolding retry_loop
  step_panic f r e = rw (e, retry_loop)

  loop_ok :
      (j f r : ℕ) (v : T)
      → r + j ≤ max_retry
      → j < f
      → Fails r j
      → g (r + j) ≡ ok v
      → retry_loop g f r ≡ record { result = some (ok v); calls = suc j; sleeps = delays r j }
  loop_ok j zero r v h k fails e = absurd (omega arith)
  loop_ok zero (suc f) r v h k fails e = step_ok f r v (rw add-zero at e)
  loop_ok (suc j) (suc f) r v h k fails e =
      let shift : r + suc j ≡ (r + 1) + j = omega arith in
      step_more f r _ fails.0.1 (omega arith)
      ∙ rw (loop_ok j f (r + 1) v (omega arith) (omega arith) fails.1 (rw shift at e))

  loop_err :
      (j f r : ℕ) (x : E)
      → r + j ≡ max_retry
      → j < f
      → Fails r j
      → g (r + j) ≡ err x
      → retry_loop g f r ≡ record { result = some (err x); calls = suc j; sleeps = delays r j }
  loop_err j zero r x h k fails e = absurd (omega arith)
  loop_err zero (suc f) r x h k fails e = step_last f r x (rw add-zero at e) (omega arith)
  loop_err (suc j) (suc f) r x h k fails e =
      let shift : r + suc j ≡ (r + 1) + j = omega arith in
      step_more f r _ fails.0.1 (omega arith)
      ∙ rw (loop_err j f (r + 1) x (omega arith) (omega arith) fails.1 (rw shift at e))

  -- When the first `j` attempts fail, at most five, and the next succeeds, its value is returned after
  -- `j` sleeps of 3, 6, 9, … seconds and with no further attempt.
  pub with_retry-ok :
      (j : ℕ) (v : T)
      → j ≤ max_retry
      → Fails 0 j
      → g j ≡ ok v
      → with_retry g ≡ record { result = some (ok v); calls = suc j; sleeps = delays 0 j }
  unfolding with_retry
  with_retry-ok j v h fails e = loop_ok j 6 0 v (omega arith) (omega arith) fails (rw zero-add e)

  -- When the first five attempts fail and the sixth does too, the error of the sixth is returned after
  -- six attempts, with sleeps of 3, 6, 9, 12 and 15 seconds.
  pub with_retry-err :
      (x : E)
      → Fails 0 max_retry
      → g max_retry ≡ err x
      → with_retry g
        ≡ record { result = some (err x); calls = 6; sleeps = 3 ∷ 6 ∷ 9 ∷ 12 ∷ 15 ∷ [] }
  unfolding with_retry
  with_retry-err x fails e = loop_err 5 6 0 x refl (omega arith) fails e

  abbrev Ends : ℕ → ℕ → Type 0
  Ends f r =
      ((o : Outcome E T) × ((retry_loop g f r).result ≡ some o))
      × ((retry_loop g f r).calls + r ≤ 6)

  loop_total : (f r : ℕ) → r ≤ max_retry → max_retry < r + f → Ends f r
  loop_total zero r h k = absurd (omega arith)
  loop_total (suc f) r h k =
      go (g r) refl (λ small. loop_total f (r + 1) (omega (arith, small)) (omega arith))
    where
      go : (o : Outcome E T) → g r ≡ o → (r < max_retry → Ends f (r + 1)) → Ends (suc f) r
      go (ok v) e ih = rw (step_ok f r v e) ((ok v, refl), omega arith)
      go panic e ih = rw (step_panic f r e) ((panic, refl), omega arith)
      go (err x) e ih = elim (lt_or_le r max_retry) [
        | inr last ↦ rw (step_last f r x e last) ((err x, refl), omega arith)
        | inl more ↦
            let (o, small) = ih more in rw (step_more f r x e more) (o, omega (arith, small))
      ]

  -- Whatever the attempts give, `with_retry` returns, after six attempts at most.
  pub with_retry-total :
      ((o : Outcome E T) × ((with_retry g).result ≡ some o)) × ((with_retry g).calls ≤ 6)
  unfolding with_retry
  with_retry-total =
      let (o, n) = loop_total 6 0 (omega arith) (omega arith) in (o, omega (arith, n))
