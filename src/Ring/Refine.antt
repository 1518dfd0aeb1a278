-- ===== src/Ring/Refine.antt =====
-- A ring behaves as the queue of the bytes that it holds.
use Prim.Native.Nat.{min}
use audiowire.Base.{
  ℕ, ◌-◌, ◌≤◌, ◌≡◌, ◌⊎◌, inl, inr, sym, ap, ◌∙◌, arith, List, some, length, take, drop, length-drop,
  take-of_length_le, drop-of_length_le, ltb, lt→ltb, le→not_ltb, lt_or_le, Option, if◌then◌else◌,
}
use audiowire.Ring.{
  Ring, put, load, store, remaining, available, skip, ring_read, ring_write, capacity,
}
use audiowire.Ring as Buffer
use audiowire.Ring.Queue
use audiowire.Ring.Queue.{last}
use audiowire.Ring.Holds.{Holds, remaining_held, skip-Holds, ring_read-Holds}

-- Cutting at a number that is cut to the length
take-min : (n : ℕ) (xs : List ℕ) → take (min n (length xs)) xs ≡ take n xs
take-min n xs = elim (lt_or_le n (length xs)) [
  | inl p ↦ ap (λ k. take k xs) (omega arith)
  | inr p ↦
      let e : min n (length xs) ≡ length xs = omega arith in
      rw e (take-of_length_le (length xs) xs (omega arith) ∙ sym (take-of_length_le n xs p))
]

drop-min : (n : ℕ) (xs : List ℕ) → drop (min n (length xs)) xs ≡ drop n xs
drop-min n xs = elim (lt_or_le n (length xs)) [
  | inl p ↦ ap (λ k. drop k xs) (omega arith)
  | inr p ↦
      let e : min n (length xs) ≡ length xs = omega arith in
      rw e (drop-of_length_le (length xs) xs (omega arith) ∙ sym (drop-of_length_le n xs p))
]

length-last : (n : ℕ) (xs : List ℕ) → length (last n xs) ≡ min n (length xs)
length-last n xs = omega (arith, length-drop (length xs - n) xs)

module _ (k : ℕ) where
  -- What an operation that returns `out` leaves
  abbrev pub Leaves : {A : Type 0} → Option (A × Ring) → A → List ℕ → Type 0
  Leaves r out items = (rb' : Ring) × (r ≡ some (out, rb')) × Holds k items rb'

  -- Reading `n` bytes at most
  read_up_to :
      (rb : Ring) (items : List ℕ) (n : ℕ)
      → Holds k items rb
      → Leaves (ring_read rb (min n (length items))) (take n items) (drop n items)
  read_up_to rb items n h =
      let (rb', e, h') = ring_read-Holds k rb items (min n (length items)) h (omega arith) in
      (rb', rw (← take-min n items) e, rw (← drop-min n items) h')

  -- Dropping all but the newest `n` bytes
  skip_to :
      (rb : Ring) (items : List ℕ) (n : ℕ)
      → Holds k items rb
      → Holds k (last n items) (if ltb n (remaining rb) then skip rb (remaining rb - n) else rb)
  skip_to rb items n h =
      let e : length items ≡ remaining rb = remaining_held k rb items h in
      elim (lt_or_le n (remaining rb)) [
        | inl p ↦ rw (lt→ltb _ _ p, ← e) (skip-Holds k rb items (length items - n) h (omega arith))
        | inr p ↦ let z : length items - n ≡ 0 = omega arith in rw (le→not_ltb _ _ p, z) h
      ]

  pub pop_front_refines :
      (rb : Ring) (items : List ℕ) (n : ℕ)
      → Holds k items rb
      → let (out, rest) = Queue.pop_front n items in Leaves (Buffer.pop_front rb n) out rest
  unfolding Buffer.pop_front
  pop_front_refines rb items n h = rw (← remaining_held k rb items h) (read_up_to rb items n h)

  pub pop_back_from_refines :
      (rb : Ring) (items : List ℕ) (n offset : ℕ)
      → Holds k items rb
      → (n ≤ offset) ⊎ (length items ≤ offset)
      → let (out, rest) = Queue.pop_back_from n offset items in
        Leaves (Buffer.pop_back_from rb n offset) out rest
  unfolding Buffer.pop_back_from
  pop_back_from_refines rb items n offset h small =
      let e : length items ≡ remaining rb = remaining_held k rb items h in
      let kept = last offset items in
      let size : min n (remaining rb) ≡ min n (length kept) = elim small [
        | inl p ↦ omega (arith, length-last offset items, e)
        | inr p ↦ omega (arith, length-last offset items, e)
      ] in
      let (rb', got, h') = read_up_to _ kept n (skip_to rb items offset h) in
      (
        rb',
        ap (ring_read (if ltb offset (remaining rb) then skip rb (remaining rb - offset) else rb))
              size
            ∙ got,
        h',
      )

  pub skip_some :
      (rb : Ring) (items : List ℕ) (n : ℕ)
      → Holds k items rb
      → n ≤ length items
      → Holds k (drop n items) (if ltb 0 n then skip rb n else rb)
  skip_some rb items n h le = elim (lt_or_le 0 n) [
    | inl p ↦ rw (lt→ltb _ _ p) (skip-Holds k rb items n h le)
    | inr p ↦ let z : n ≡ 0 = omega arith in rw z h
  ]

  pub pop_back_refines :
      (rb : Ring) (items : List ℕ) (n : ℕ)
      → Holds k items rb
      → let (out, rest) = Queue.pop_back n items in Leaves (Buffer.pop_back rb n) out rest
  unfolding Buffer.pop_back
  pop_back_refines rb items n h =
      let e : length items ≡ remaining rb = remaining_held k rb items h in
      let gone = remaining rb - min n (remaining rb) in
      let same : gone ≡ length items - n = omega (arith, e) in
      let kept = drop gone items in
      let size : length kept ≡ min n (remaining rb) = omega (arith, length-drop gone items, e) in
      let (rb', got, h') =
        ring_read-Holds k _ kept (min n (remaining rb))
          (skip_some rb items gone h (omega (arith, e))) (omega (arith, size)) in
      let all : take (min n (remaining rb)) kept ≡ last n items =
        take-of_length_le _ kept (omega (arith, size)) ∙ ap (λ m. drop m items) same in
      (
        rb',
        got ∙ ap (λ out. some (out, rb')) all,
        rw (drop-of_length_le (min n (remaining rb)) kept (omega (arith, size))) at h',
      )
