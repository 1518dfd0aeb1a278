-- ===== src/Ring/Holds.antt =====
-- The queue that a ring holds, and how its two loops and a move of its head change it.
use audiowire.Base.{
  ℕ, suc, ◌+◌, ◌-◌, ◌≤◌, ◌<◌, ◌≡◌, sym, ap, ◌∙◌, arith, List, [], ◌++◌, some, length, take, drop,
}
use audiowire.Ring.{Ring, remaining, available, skip, ring_read, ring_write}
use audiowire.Ring.Window.{wrap, window, length-window, take-window, drop-window}
use audiowire.Ring.Loops.{IsValid, head-IsValid, skip_lem, read_loop-window}
use audiowire.Ring.Writes.{Written, write_loop-Written}

-- The bytes from the head to the tail
abbrev pub contents : Ring → List ℕ
contents rb = window rb.capacity rb.bytes rb.head (remaining rb)

-- A ring of 2 ^ k bytes that holds these.
pub record Holds (k : ℕ) (items : List ℕ) (rb : Ring) : Type 0 where
  pub valid : IsValid k rb
  pub held : contents rb ≡ items

module _ (k : ℕ) where
  pub remaining_lt : (rb : Ring) → IsValid k rb → remaining rb < rb.capacity
  unfolding remaining
  remaining_lt rb v = ground (arith, v.head_in, v.tail_in)

  pub tail_lem : (rb : Ring) → IsValid k rb → rb.tail ≡ wrap rb.capacity (rb.head + remaining rb)
  unfolding remaining
  tail_lem rb v = ground (arith, v.head_in, v.tail_in)

  pub available_lem : (rb : Ring) → IsValid k rb → available rb + remaining rb ≡ rb.mask
  unfolding remaining available
  available_lem rb v = ground (arith, v.head_in, v.tail_in, v.ones)

  pub remaining_held : (rb : Ring) (items : List ℕ) → Holds k items rb → length items ≡ remaining rb
  remaining_held rb items h =
      sym (ap length h.held) ∙ length-window rb.capacity rb.bytes rb.head (remaining rb)

  pub remaining_head :
      (rb : Ring) (n : ℕ)
      → IsValid k rb
      → n ≤ remaining rb
      → remaining (record rb { head = wrap rb.capacity (rb.head + n) }) ≡ remaining rb - n
  unfolding remaining
  remaining_head rb n v h = ground (arith, v.head_in, v.tail_in)

  -- The head moved past the first bytes
  pub head_moved :
      (rb : Ring) (items : List ℕ) (n : ℕ)
      → Holds k items rb
      → n ≤ length items
      → Holds k (drop n items) (record rb { head = wrap rb.capacity (rb.head + n) })
  head_moved rb items n h le =
      let v = h.valid in
      let small : n ≤ remaining rb = omega (arith, remaining_held rb items h) in
      let inside : remaining rb < rb.capacity = remaining_lt rb v in
      record {
        valid = head-IsValid k rb _ v (ground (arith, v.head_in, inside));
        held =
            ap (window rb.capacity rb.bytes (wrap rb.capacity (rb.head + n)))
              (remaining_head rb n v small)
            ∙ sym (
                drop-window rb.capacity rb.bytes rb.head n (remaining rb) v.head_in (omega arith)
                  small)
            ∙ ap (drop n) h.held;
      }

  pub skip-Holds :
      (rb : Ring) (items : List ℕ) (n : ℕ)
      → Holds k items rb
      → n ≤ length items
      → Holds k (drop n items) (skip rb n)
  skip-Holds rb items n h le =
      rw
        (skip_lem k rb n h.valid
          (omega (arith, remaining_held rb items h, remaining_lt rb h.valid)))
        (head_moved rb items n h le)

  -- Reading takes the first bytes out.
  pub ring_read-Holds :
      (rb : Ring) (items : List ℕ) (n : ℕ)
      → Holds k items rb
      → n ≤ length items
      → (rb' : Ring) × (ring_read rb n ≡ some (take n items, rb')) × Holds k (drop n items) rb'
  unfolding ring_read
  ring_read-Holds rb items n h le =
      let v = h.valid in
      let small : n ≤ remaining rb = omega (arith, remaining_held rb items h) in
      let inside : remaining rb < rb.capacity = remaining_lt rb v in
      let z : n - 0 ≡ n = omega arith in
      let read = read_loop-window k (suc n) rb n 0 [] v (omega arith) (omega arith) (omega arith) in
      let bytes : window rb.capacity rb.bytes rb.head n ≡ take n items =
        sym
          (take-window rb.capacity rb.bytes rb.head n (remaining rb) v.head_in (omega arith) small)
        ∙ ap (take n) h.held in
      (
        record rb { head = wrap rb.capacity (rb.head + n) },
        rw z at read ∙ rw bytes,
        head_moved rb items n h le,
      )

  pub remaining_tail :
      (rb : Ring) (bytes : List ℕ) (n : ℕ)
      → IsValid k rb
      → remaining rb + n < rb.capacity
      → remaining (record rb { bytes = bytes; tail = wrap rb.capacity (rb.tail + n) })
        ≡ remaining rb + n
  unfolding remaining
  remaining_tail rb bytes n v h = ground (arith, v.head_in, v.tail_in)

  Written-Holds :
      (rb : Ring) (items buf : List ℕ)
      → Holds k items rb
      → remaining rb + length buf < rb.capacity
      → Written k rb buf 0 rb.head (remaining rb) (suc (length buf))
      → (rb' : Ring) × (ring_write rb buf ≡ some rb') × Holds k (items ++ buf) rb'
  unfolding ring_write
  Written-Holds rb items buf h room w =
      let v = h.valid in
      let n = length buf in
      let z : n - 0 ≡ n = omega arith in
      (
        record rb { bytes = w.bytes; tail = wrap rb.capacity (rb.tail + n) },
        w.returns
            ∙ ap (λ m. some (record rb { bytes = w.bytes; tail = wrap rb.capacity (rb.tail + m) }))
                z,
        record {
          valid = record {
            some_bits = v.some_bits;
            power = v.power;
            ones = v.ones;
            room = w.same_length;
            head_in = v.head_in;
            tail_in = ground (arith, v.tail_in, room);
          };
          held =
              ap (window rb.capacity w.bytes rb.head)
                (remaining_tail rb w.bytes n v room ∙ ap (λ m. remaining rb + m) (sym z))
              ∙ w.extended
              ∙ ap (λ l. l ++ buf) h.held;
        },
      )

  -- Writing puts bytes behind them, where there is room.
  pub ring_write-Holds :
      (rb : Ring) (items buf : List ℕ)
      → Holds k items rb
      → length items + length buf < rb.capacity
      → (rb' : Ring) × (ring_write rb buf ≡ some rb') × Holds k (items ++ buf) rb'
  ring_write-Holds rb items buf h le =
      let room : remaining rb + length buf < rb.capacity =
        omega (arith, remaining_held rb items h) in
      Written-Holds rb items buf h room (
        write_loop-Written k (suc (length buf)) rb buf 0 rb.head (remaining rb) h.valid
          (omega arith) (omega arith) h.valid.head_in (omega arith) (tail_lem rb h.valid))
