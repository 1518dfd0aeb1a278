-- ===== src/Ring/Push.antt =====
-- Pushing to a ring: the newest bytes stay.
use audiowire.Base.{
  ℕ, ◌+◌, ◌-◌, ◌≤◌, ◌<◌, ◌≡◌, inl, inr, sym, ap, ◌∙◌, arith, List, ◌++◌, length, take, drop,
  length-append, length-drop, take-of_length_le, drop-append, drop-append_le, ltb, le→leb,
  lt→not_leb, lt→ltb, le→not_ltb, lt_or_le, if◌then◌else◌,
}
use audiowire.Base.Arrays.{drop-drop}
use audiowire.Ring.{Ring, put, remaining, available, skip, push}
use audiowire.Ring.Queue
use audiowire.Ring.Queue.{last}
use audiowire.Ring.Window.{window, window-put}
use audiowire.Ring.Loops.{IsValid}
use audiowire.Ring.Holds.{Holds, remaining_held, available_lem, skip-Holds, ring_write-Holds}
use audiowire.Ring.Refine.{Leaves}

-- A buffer as long as the queue replaces it.
last-append_over : (n : ℕ) (xs ys : List ℕ) → n ≤ length ys → last n (xs ++ ys) ≡ last n ys
last-append_over n xs ys h =
    let e : length (xs ++ ys) - n ≡ length xs + (length ys - n) =
      omega (arith, length-append xs ys) in
    ap (λ m. drop m (xs ++ ys)) e
    ∙ sym (drop-drop (length xs) (length ys - n) (xs ++ ys))
    ∙ ap (drop (length ys - n)) (drop-append xs ys)

module _ (k : ℕ) where
  -- What `memcpy(rb->data + 1, …)` leaves
  over-Holds :
      (rb : Ring) (block : List ℕ)
      → IsValid k rb
      → length block ≡ rb.mask
      → Holds k block (record rb { bytes = put rb.bytes 1 block; head = 1; tail = 0 })
  unfolding remaining
  over-Holds rb block v e =
      let (w, l) =
        window-put rb.capacity block rb.bytes 1 0 1 v.room v.some_bits
          (omega (arith, v.ones, v.some_bits)) (omega (arith, v.ones, v.some_bits))
          (λ p. ground (arith, v.some_bits)) in
      let size : rb.capacity - 1 + 0 ≡ 0 + length block = omega (arith, v.ones) in
      record {
        valid = record {
          some_bits = v.some_bits;
          power = v.power;
          ones = v.ones;
          room = l;
          head_in = v.some_bits;
          tail_in = omega (arith, v.some_bits);
        };
        held = ap (window rb.capacity (put rb.bytes 1 block) 1) size ∙ w;
      }

  push_over :
      (rb : Ring) (items bytes : List ℕ)
      → Holds k items rb
      → rb.mask ≤ length bytes
      → Leaves k (push rb bytes) (length bytes) (Queue.push rb.mask items bytes)
  unfolding push
  push_over rb items bytes h le =
      let v = h.valid in
      let block = last rb.mask bytes in
      let size : length block ≡ rb.mask =
        omega (arith, length-drop (length bytes - rb.mask) bytes) in
      let whole : take rb.mask block ≡ block =
        take-of_length_le rb.mask block (omega (arith, size)) in
      let fits : 1 + length block ≤ length rb.bytes =
        omega (arith, size, v.ones, v.room, v.some_bits) in
      (
        record rb { bytes = put rb.bytes 1 block; head = 1; tail = 0 },
        rw (le→leb _ _ le) (
            rw (le→leb (length bytes - rb.mask + rb.mask) (length bytes) (omega arith))
              (rw (whole, le→leb _ _ fits))),
        rw (last-append_over rb.mask items bytes le) (over-Holds rb block v size),
      )

  -- The oldest bytes are dropped if the new ones need their room.
  make_room :
      (rb : Ring) (items : List ℕ) (n : ℕ)
      → Holds k items rb
      → n - available rb ≤ length items
      → Holds k
          (drop (n - available rb) items)
          (if ltb (available rb) n then skip rb (n - available rb) else rb)
  make_room rb items n h le = elim (lt_or_le (available rb) n) [
    | inl p ↦ rw (lt→ltb _ _ p) (skip-Holds k rb items (n - available rb) h le)
    | inr p ↦ let z : n - available rb ≡ 0 = omega arith in rw (le→not_ltb _ _ p, z) h
  ]

  push_under :
      (rb : Ring) (items bytes : List ℕ)
      → Holds k items rb
      → length bytes < rb.mask
      → Leaves k (push rb bytes) (length bytes) (Queue.push rb.mask items bytes)
  unfolding push
  push_under rb items bytes h lt =
      let over = length bytes - available rb in
      let some_over : over ≤ length items =
        omega (arith, available_lem k rb h.valid, remaining_held k rb items h) in
      let h1 = make_room rb items (length bytes) h some_over in
      let fits : length (drop over items) + length bytes ≤ rb.mask =
        omega (
          arith,
          length-drop over items,
          available_lem k rb h.valid,
          remaining_held k rb items h,
        ) in
      let (rb', wrote, h') =
        ring_write-Holds k _ (drop over items) bytes h1
          (omega (arith, fits, h1.valid.power, h.valid.power, h.valid.ones, h.valid.some_bits)) in
      let dropped : length (items ++ bytes) - rb.mask ≡ over = omega (
        arith,
        length-append items bytes,
        available_lem k rb h.valid,
        remaining_held k rb items h,
      ) in
      let newest : last rb.mask (items ++ bytes) ≡ drop over items ++ bytes =
        ap (λ m. drop m (items ++ bytes)) dropped ∙ drop-append_le over items bytes some_over in
      (rb', rw (lt→not_leb _ _ lt) (rw wrote), rw newest h')

  pub push_refines :
      (rb : Ring) (items bytes : List ℕ)
      → Holds k items rb
      → Leaves k (push rb bytes) (length bytes) (Queue.push rb.mask items bytes)
  push_refines rb items bytes h = elim (lt_or_le (length bytes) rb.mask) [
    | inl lt ↦ push_under rb items bytes h lt
    | inr le ↦ push_over rb items bytes h le
  ]
