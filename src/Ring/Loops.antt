-- ===== src/Ring/Loops.antt =====
-- The two copying loops of libaudiowire/src/ringbuf.c.
use Prim.Native.Nat.{bit_and, min}
use audiowire.Base.{
  ℕ, zero, suc, ◌+◌, ◌-◌, ◌%◌, ◌^◌, ◌≤◌, ◌<◌, ◌≡◌, inl, inr, refl, sym, ap, ◌∙◌, arith, List, ◌++◌,
  some, length, append_assoc, append-nil, lt→ltb, le→not_ltb, lt_or_le,
}
use native.Mathlib.Nat.{mod-eq_of_lt, mod-eq-sub-mod}
use audiowire.Base.Bits.{bit_and-mask}
use audiowire.Ring.{Ring, read_loop, skip}
use audiowire.Ring.Window.{wrap, window, window-append, load-window}

-- A ring as `ringbuf_create` makes one, of 2 ^ k bytes, with its two indices anywhere in it
pub record IsValid (k : ℕ) (rb : Ring) : Type 0 where
  pub some_bits : 1 < rb.capacity
  pub power : rb.capacity ≡ 2 ^ k
  pub ones : rb.mask ≡ rb.capacity - 1
  pub room : length rb.bytes ≡ rb.capacity
  pub head_in : rb.head < rb.capacity
  pub tail_in : rb.tail < rb.capacity

pub mod_wrap : (i cap : ℕ) → i < cap + cap → i % cap ≡ wrap cap i
mod_wrap i cap h = elim (lt_or_le i cap) [
  | inl p ↦ rw (mod-eq_of_lt p) (ground arith)
  | inr p ↦ mod-eq-sub-mod p ∙ mod-eq_of_lt (omega arith) ∙ ground arith
]

module _ (k : ℕ) where
  -- The mask brings an index round.
  pub masked :
      (rb : Ring) (i : ℕ)
      → IsValid k rb
      → i < rb.capacity + rb.capacity
      → bit_and i rb.mask ≡ wrap rb.capacity i
  masked rb i v h =
      let e : rb.mask ≡ 2 ^ k - 1 = omega (arith, v.ones, v.power) in
      rw e (bit_and-mask i k ∙ ap (λ c. i % c) (sym v.power) ∙ mod_wrap i rb.capacity h)

  pub skip_lem :
      (rb : Ring) (n : ℕ)
      → IsValid k rb
      → n ≤ rb.capacity
      → skip rb n ≡ record rb { head = wrap rb.capacity (rb.head + n) }
  unfolding skip
  skip_lem rb n v h = rw (masked rb (rb.head + n) v (omega (arith, v.head_in)))

  pub head-IsValid :
      (rb : Ring) (i : ℕ) → IsValid k rb → i < rb.capacity → IsValid k (record rb { head = i })
  head-IsValid rb i v h = record {
    some_bits = v.some_bits;
    power = v.power;
    ones = v.ones;
    room = v.room;
    head_in = h;
    tail_in = v.tail_in;
  }

  -- One round of the reading loop
  read_step :
      (fuel : ℕ) (rb : Ring) (n offset len : ℕ) (out : List ℕ)
      → IsValid k rb
      → offset < n
      → len ≡ min (rb.capacity - rb.head) (n - offset)
      → let h : ℕ = wrap rb.capacity (rb.head + len) in
        read_loop (suc fuel) rb n rb.head offset out
        ≡ read_loop fuel
            (record rb { head = h })
            n
            h
            (offset + len)
            (out ++ window rb.capacity rb.bytes rb.head len)
  unfolding read_loop
  read_step fuel rb n offset len out v more e =
      rw (lt→ltb _ _ more, read_loop)
        (rw (← e, read_loop)
          (rw
            (
              load-window rb.capacity rb.bytes rb.head len v.room (omega (arith, v.head_in, e)),
              read_loop,
            )
            (rw (masked rb (rb.head + len) v (omega (arith, v.head_in, e))))))

  -- The reading loop copies the bytes from the head on, going round, and moves the head past them.
  pub read_loop-window :
      (fuel : ℕ) (rb : Ring) (n offset : ℕ) (out : List ℕ)
      → IsValid k rb
      → offset ≤ n
      → n - offset < fuel
      → n - offset ≤ rb.capacity
      → read_loop fuel rb n rb.head offset out
        ≡ some (
          out ++ window rb.capacity rb.bytes rb.head (n - offset),
          record rb { head = wrap rb.capacity (rb.head + (n - offset)) },
        )
  unfolding read_loop
  read_loop-window zero rb n offset out v ho hf hn = absurd (omega arith)
  read_loop-window (suc fuel) rb n offset out v ho hf hn = elim (lt_or_le offset n) [
    | inl more ↦
        let cap = rb.capacity in
        let len = min (cap - rb.head) (n - offset) in
        let h = wrap cap (rb.head + len) in
        let rest = n - (offset + len) in
        let rb' : Ring = record rb { head = h } in
        let inside : rb.head < cap = v.head_in in
        let same_bytes : (out ++ window cap rb.bytes rb.head len) ++ window cap rb.bytes h rest
            ≡ out ++ window cap rb.bytes rb.head (n - offset) =
          append_assoc out _ _
          ∙ ap (λ l. out ++ l)
              (sym (window-append cap rb.bytes rb.head len rest inside (omega arith))
                ∙ ap (window cap rb.bytes rb.head) (omega arith)) in
        let same_head : wrap cap (h + rest) ≡ wrap cap (rb.head + (n - offset)) = ground arith in
        read_step fuel rb n offset len out v more refl
        ∙ read_loop-window fuel rb' n (offset + len) _ (head-IsValid rb h v (ground arith))
            (omega arith) (omega arith) (omega arith)
        ∙ rw (same_bytes, same_head)
    | inr done ↦
        let z : n - offset ≡ 0 = omega arith in
        let same : wrap rb.capacity (rb.head + 0) ≡ rb.head = ground (arith, v.head_in) in
        rw (le→not_ltb _ _ done, read_loop) (rw (z, append-nil out, same))
  ]
