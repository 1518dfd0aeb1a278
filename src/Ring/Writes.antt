-- ===== src/Ring/Writes.antt =====
-- The writing loop of libaudiowire/src/ringbuf.c.
use Prim.Native.Nat.{min}
use audiowire.Base.{
  ℕ, zero, suc, ◌+◌, ◌-◌, ◌≤◌, ◌<◌, ◌≡◌, inl, inr, refl, sym, ap, ◌∙◌, arith, List, ◌++◌, some,
  length, take, drop, length-take, length-drop, drop-of_length_le, append_assoc, append-nil, lt→ltb,
  le→leb, le→not_ltb, lt_or_le,
}
use audiowire.Base.Arrays.{drop_next}
use audiowire.Ring.{Ring, put, write_loop}
use audiowire.Ring.Window.{wrap, wrap-wrap, window, window-put}
use audiowire.Ring.Loops.{IsValid, masked}

pub length-part :
    (buf : List ℕ) (offset len : ℕ)
    → offset + len ≤ length buf
    → length (take len (drop offset buf)) ≡ len
length-part buf offset len h =
    omega (arith, length-take len (drop offset buf), length-drop offset buf)

module _ (k : ℕ) where
  -- The ring after a block is copied to its tail
  abbrev after_block : Ring → List ℕ → Ring
  after_block rb block = record rb {
    bytes = put rb.bytes rb.tail block;
    tail = wrap rb.capacity (rb.tail + length block);
  }

  block-IsValid :
      (rb : Ring) (block : List ℕ)
      → IsValid k rb
      → rb.tail + length block ≤ rb.capacity
      → length (put rb.bytes rb.tail block) ≡ rb.capacity
      → IsValid k (after_block rb block)
  block-IsValid rb block v h e = record {
    some_bits = v.some_bits;
    power = v.power;
    ones = v.ones;
    room = e;
    head_in = v.head_in;
    tail_in = ground (arith, v.some_bits);
  }

  -- One round of the writing loop
  write_step :
      (fuel : ℕ) (rb : Ring) (buf : List ℕ) (offset len : ℕ)
      → IsValid k rb
      → offset < length buf
      → min (rb.capacity - rb.tail) (length buf - offset) ≡ len
      → let block = take len (drop offset buf) in
        let rb' = after_block rb block in
        write_loop (suc fuel) rb buf rb.tail offset
        ≡ write_loop fuel rb' buf rb'.tail (offset + len)
  unfolding write_loop
  write_step fuel rb buf offset len v more e =
      let n = length-part buf offset len (omega arith) in
      rw (lt→ltb _ _ more, write_loop)
        (rw (e, write_loop)
          (rw (le→leb (offset + len) (length buf) (omega arith), write_loop)
            (rw
              (
                n,
                le→leb (rb.tail + len) (length rb.bytes) (omega (arith, v.room, v.tail_in)),
                write_loop,
              )
              (rw (masked k rb (rb.tail + len) v (omega (arith, v.tail_in)))))))

  -- What the writing loop leaves: the same ring but for its bytes and its tail, and a window that ended at the tail is
  -- longer by the rest of the buffer.
  pub record Written (rb : Ring) (buf : List ℕ) (offset h n : ℕ) (fuel : ℕ) : Type 0 where
    pub bytes : List ℕ
    pub returns :
        write_loop fuel rb buf rb.tail offset
        ≡ some
            (record rb { bytes = bytes; tail = wrap rb.capacity (rb.tail + (length buf - offset)) })
    pub same_length : length bytes ≡ rb.capacity
    pub extended :
        window rb.capacity bytes h (n + (length buf - offset))
        ≡ window rb.capacity rb.bytes h n ++ drop offset buf

  -- A round, and what the later rounds leave
  Written-step :
      (fuel : ℕ) (rb : Ring) (buf : List ℕ) (offset h n len : ℕ)
      → IsValid k rb
      → offset < length buf
      → min (rb.capacity - rb.tail) (length buf - offset) ≡ len
      → length buf - offset ≤ rb.capacity
      → let block = take len (drop offset buf) in
        window rb.capacity (put rb.bytes rb.tail block) h (n + length block)
          ≡ window rb.capacity rb.bytes h n ++ block
        → Written (after_block rb block) buf (offset + len) h (n + len) fuel
        → Written rb buf offset h n (suc fuel)
  Written-step fuel rb buf offset h n len v more e small grown w =
      let block = take len (drop offset buf) in
      let size : length block ≡ len = length-part buf offset len (omega arith) in
      let sum : n + (length buf - offset) ≡ (n + len) + (length buf - (offset + len)) =
        omega arith in
      let ends : wrap rb.capacity
            (wrap rb.capacity (rb.tail + length block) + (length buf - (offset + len)))
          ≡ wrap rb.capacity (rb.tail + (length buf - offset)) =
        wrap-wrap rb.capacity rb.tail (length block) _ _ v.tail_in (omega (arith, v.tail_in))
          (omega arith) small in
      record {
        bytes = w.bytes;
        returns =
            write_step fuel rb buf offset len v more e
            ∙ w.returns
            ∙ ap (λ t. some (record rb { bytes = w.bytes; tail = t })) ends;
        same_length = w.same_length;
        extended =
            ap (window rb.capacity w.bytes h) sum
            ∙ w.extended
            ∙ ap (λ l. l ++ drop (offset + len) buf)
                (ap (λ c. window rb.capacity (put rb.bytes rb.tail block) h (n + c)) (sym size)
                  ∙ grown)
            ∙ append_assoc _ block (drop (offset + len) buf)
            ∙ ap (λ l. window rb.capacity rb.bytes h n ++ l) (drop_next offset len buf);
      }

  pub write_loop-Written :
      (fuel : ℕ) (rb : Ring) (buf : List ℕ) (offset h n : ℕ)
      → IsValid k rb
      → offset ≤ length buf
      → length buf - offset < fuel
      → h < rb.capacity
      → n + (length buf - offset) ≤ rb.capacity
      → rb.tail ≡ wrap rb.capacity (h + n)
      → Written rb buf offset h n fuel
  unfolding write_loop
  write_loop-Written zero rb buf offset h n v ho hf hh hn t = absurd (omega arith)
  write_loop-Written (suc fuel) rb buf offset h n v ho hf hh hn t =
      elim (lt_or_le offset (length buf)) [
        | inl more ↦
            let len = min (rb.capacity - rb.tail) (length buf - offset) in
            let block = take len (drop offset buf) in
            let size : length block ≡ len = length-part buf offset len (omega arith) in
            let (grown, kept) =
              window-put rb.capacity block rb.bytes h n rb.tail v.room hh (omega arith)
                (omega (arith, v.tail_in)) (λ p. t) in
            Written-step fuel rb buf offset h n len v more refl (omega arith) grown (
              write_loop-Written fuel (after_block rb block) buf (offset + len) h (n + len)
                (block-IsValid rb block v (omega (arith, v.tail_in)) kept) (omega arith)
                (omega arith) hh (omega arith) (rw size (ground (arith, v.tail_in))))
        | inr done ↦
            let z : length buf - offset ≡ 0 = omega arith in
            let same : wrap rb.capacity (rb.tail + 0) ≡ rb.tail = ground (arith, v.tail_in) in
            let n' : n + 0 ≡ n = omega arith in
            record {
              bytes = rb.bytes;
              returns = rw (le→not_ltb _ _ done, write_loop) (rw (z, same));
              same_length = v.room;
              extended =
                  rw
                    (
                      z,
                      n',
                      drop-of_length_le offset buf done,
                      append-nil (window rb.capacity rb.bytes h n),
                    )
                    refl;
            }
      ]
