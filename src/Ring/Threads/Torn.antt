-- ===== src/Ring/Threads/Torn.antt =====
-- ringbuf_pop_back_from of libaudiowire/src/ringbuf.c, whose two loads of the tail have the end of the ring between them.
use Prim.Native.Nat.{bit_and}
use audiowire.Ring.Holds.{contents}
use native.Mathlib.Nat.{two-pow-succ, pow-le-pow_right, add-mul-mod_self_left, mod-eq_of_lt}
use audiowire.Base.{
  ℕ, zero, suc, inl, inr, lt_or_le, ◌+◌, ◌-◌, ◌*◌, ◌%◌, ◌^◌, ◌≤◌, ◌<◌, ◌≡◌, refl, sym, ap, ◌∙◌,
  arith, true, Option, some, lt→ltb, min, take, [], ◌∷◌, ◌++◌,
}
use audiowire.Base.Bits.{bit_and-mask}
use audiowire.Ring.{Ring, ◌>>=◌, skip, remaining}
use audiowire.Ring.Loops.{IsValid}
use audiowire.Ring.Threads.{Threads, compares, reading, skipped, acting, held, consume, torn_held}
use audiowire.Ring.Threads.Views.{held_torn}

-- The comparison of ringbuf_pop_back_from's call, the difference, and the head's move to the offset
abbrev pub compare_and_skip : ℕ → ℕ → ℕ → Threads → Option Threads
compare_and_skip max_bufsize n t s =
    consume max_bufsize (compares acting n t) s >>= λ u. consume max_bufsize u.consumer u

pow_split : (k j : ℕ) → 2 ^ (k + j) ≡ 2 ^ k * 2 ^ j
pow_split k zero = let z : k + 0 ≡ k = omega arith in rw z (omega arith)
pow_split k (suc j) =
    let z : k + suc j ≡ suc (k + j) = omega arith in
    rw z (grind (arith, two-pow-succ (k + j), two-pow-succ j, pow_split k j))

module _ (k max_bufsize : ℕ) where
  -- A count of 2 ^ 64 bytes too many is one of none by the mask.
  mask_round :
      (rb : Ring) (x rounds d : ℕ)
      → IsValid k rb
      → k ≤ 64
      → x + rb.capacity * rounds ≡ d + 2 ^ 64
      → d < rb.capacity
      → bit_and x rb.mask ≡ d
  mask_round rb x rounds d v small e inside =
      let ones : rb.mask ≡ 2 ^ k - 1 = omega (arith, v.ones, v.power) in
      let z : k + (64 - k) ≡ 64 = omega arith in
      let whole : 2 ^ 64 ≡ 2 ^ k * 2 ^ (64 - k) = ap (λ i. 2 ^ i) (sym z) ∙ pow_split k (64 - k) in
      rw ones (
        bit_and-mask x k
        ∙ sym (add-mul-mod_self_left x (2 ^ k) rounds)
        ∙ ap (λ c. (x + c * rounds) % 2 ^ k) (sym v.power)
        ∙ ap (λ y. y % 2 ^ k) (e ∙ ap (λ c. d + c) whole)
        ∙ add-mul-mod_self_left d (2 ^ k) (2 ^ (64 - k))
        ∙ mod-eq_of_lt (omega (arith, v.power)))

  -- The head is moved to `max_bufsize` bytes before the tail, whatever the ring holds.
  skip_round :
      (rb : Ring) (r : ℕ)
      → IsValid k rb
      → k ≤ 63
      → max_bufsize < rb.capacity
      → max_bufsize < r
      → rb.tail < rb.head
      → r + rb.capacity ≡ remaining rb + 2 ^ 64
      → remaining (skip rb (r - max_bufsize)) ≡ max_bufsize
  unfolding remaining skip
  skip_round rb r v small fits far behind e =
      let cap = rb.capacity in
      let total : r + rb.head ≡ rb.tail + 2 ^ 64 = ground arith in
      elim (lt_or_le rb.tail max_bufsize) [
        | inl before ↦
            rw
              (mask_round rb (rb.head + (r - max_bufsize)) 1 (cap + rb.tail - max_bufsize) v
                (omega arith) (omega arith) (omega arith))
              (ground arith)
        | inr after ↦
            rw
              (mask_round rb (rb.head + (r - max_bufsize)) 0 (rb.tail - max_bufsize) v (omega arith)
                (omega arith) (omega (arith, v.tail_in)))
              (ground arith)
      ]

  -- Where the tail goes round between the two loads of it in ringbuf_pop_back_from, the call moves the head to
  -- `max_bufsize` bytes before the tail and reads n bytes from there, whatever the ring holds: for an offset below the
  -- capacity, at most 2 ^ 63, and n at most the offset.
  pub compare_and_skip-remaining :
      (s : Threads) (n t : ℕ)
      → IsValid k s.ring
      → k ≤ 63
      → n ≤ max_bufsize
      → max_bufsize < s.ring.capacity
      → torn_held (compares acting n t) s.ring ≡ true
      → (u : Threads) × (compare_and_skip max_bufsize n t s ≡ some u)
        × (u.consumer ≡ reading n 0)
        × (remaining u.ring ≡ max_bufsize)
  unfolding consume torn_held
  compare_and_skip-remaining s n t v small le fits e =
      let rb = s.ring in
      let r = held t rb in
      let bound : 2 ^ k ≤ 2 ^ 63 = pow-le-pow_right {n = 2} (omega arith) {i = k} {j = 63} small in
      let (seen, behind) : (rb.head ≤ t) × (rb.tail < rb.head) = (ground arith, ground arith) in
      let count =
        held_torn t rb seen behind (omega (arith, v.power, v.head_in, bound))
          (omega (arith, v.head_in)) in
      let far : max_bufsize < r = omega (arith, v.power, count, bound) in
      let m : min n r ≡ n = omega arith in
      (
        record s {
          ring = skip rb (r - max_bufsize);
          consumer = reading n 0;
          passed = s.passed ++ (skipped (take (r - max_bufsize) (contents rb)) ∷ []);
        },
        rw (lt→ltb _ _ far, m) refl,
        refl,
        skip_round rb r v small fits far behind count,
      )
