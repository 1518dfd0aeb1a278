-- ===== src/Ring/Over.antt =====
-- ringbuf_pop_back_from of libaudiowire/src/ringbuf.c, asked for more bytes than it steps back for.
use Prim.Native.Nat.{min}
use audiowire.Base.{
  ℕ, suc, ◌+◌, ◌-◌, ◌≤◌, ◌<◌, ◌≡◌, sym, ap, ap₂, ◌∙◌, arith, List, [], ◌++◌, some, length, drop,
  lt→ltb, ltb, if◌then◌else◌,
}
use audiowire.Ring.{Ring, remaining, skip, ring_read, pop_back_from}
use audiowire.Ring.Queue.{last}
use audiowire.Ring.Window.{wrap, window, window-append, drop-window}
use audiowire.Ring.Loops.{IsValid, head-IsValid, skip_lem, read_loop-window}
use audiowire.Ring.Holds.{Holds, remaining_lt, remaining_held, tail_lem}

module _ (k : ℕ) where
  read_past :
      (rb : Ring) (n : ℕ)
      → IsValid k rb
      → n ≤ rb.capacity
      → ring_read rb n
        ≡ some (
          window rb.capacity rb.bytes rb.head n,
          record rb { head = wrap rb.capacity (rb.head + n) },
        )
  unfolding ring_read
  read_past rb n v h =
      let z : n - 0 ≡ n = omega arith in
      rw z at (read_loop-window k (suc n) rb n 0 [] v (omega arith) (omega arith) (omega arith))

  remaining_past :
      (rb : Ring) (i m : ℕ)
      → IsValid k rb
      → i < m
      → i ≤ remaining rb
      → m ≤ remaining rb
      → let h : ℕ = wrap rb.capacity (rb.head + (remaining rb - i)) in
        remaining (record rb { head = wrap rb.capacity (h + m) }) ≡ rb.capacity - (m - i)
  unfolding remaining
  remaining_past rb i m v lt hi hm = ground (arith, v.head_in, v.tail_in)

-- A ring that holds more bytes than the offset, asked for more than the offset, copies out the newest bytes, as many as
-- the offset, and behind them what its memory has from the tail on, where nothing is held: as many bytes as the lesser
-- of what was asked for and what was held is more than the offset. Its head is then past its tail, so that it counts as
-- holding all its memory but as many bytes as it copied in excess.
pub pop_back_from-over :
    (k : ℕ) (rb : Ring) (items : List ℕ) (n offset : ℕ)
    → Holds k items rb
    → offset < n
    → offset < length items
    → let excess : ℕ = min n (length items) - offset in
      (rb' : Ring) × (pop_back_from rb n offset
        ≡ some (last offset items ++ window rb.capacity rb.bytes rb.tail excess, rb'))
      × (0 < excess)
      × (remaining rb' + excess ≡ rb.capacity)
unfolding pop_back_from
pop_back_from-over k rb items n offset h lt lt' =
    let v = h.valid in
    let e : length items ≡ remaining rb = remaining_held k rb items h in
    let inside : remaining rb < rb.capacity = remaining_lt k rb v in
    let cap = rb.capacity in
    let m = min n (remaining rb) in
    let back = remaining rb - offset in
    let h1 = wrap cap (rb.head + back) in
    let h1_in : h1 < cap = ground (arith, v.head_in, inside) in
    let rb1 : Ring = record rb { head = h1 } in
    let moved : (if ltb offset (remaining rb) then skip rb back else rb) ≡ rb1 =
      rw (lt→ltb offset (remaining rb) (omega (arith, e, lt')))
        (skip_lem k rb back v (omega (arith, inside))) in
    let same : m ≡ min n (length items) = ap (min n) (sym e) in
    let at : wrap cap (h1 + offset) ≡ rb.tail =
      ground (arith, tail_lem k rb v, v.head_in, inside, e, lt') in
    let stale = window cap rb.bytes rb.tail (m - offset) in
    let newest : window cap rb.bytes h1 offset ≡ last offset items =
      ap (window cap rb.bytes h1) (omega (arith, e, lt'))
      ∙ sym (
          drop-window cap rb.bytes rb.head back (remaining rb) v.head_in (omega arith)
            (omega arith))
      ∙ ap (drop back) h.held
      ∙ ap (λ r. drop (r - offset) items) (sym e) in
    let all : window cap rb.bytes h1 m ≡ last offset items ++ stale =
      ap (window cap rb.bytes h1) (omega (arith, e, lt, lt'))
      ∙ window-append cap rb.bytes h1 offset (m - offset) h1_in (omega (arith, e, lt', inside))
      ∙ ap₂ ◌++◌ newest (ap (λ i. window cap rb.bytes i (m - offset)) at) in
    (
      record rb { head = wrap cap (h1 + m) },
      ap (λ r. ring_read r m) moved
          ∙ read_past k rb1 m (head-IsValid k rb h1 v h1_in) (omega (arith, inside))
          ∙ ap (λ l. some (l, record rb { head = wrap cap (h1 + m) }))
              (all ∙ ap (λ x. last offset items ++ window cap rb.bytes rb.tail (x - offset)) same),
      omega arith,
      ap (λ x. remaining (record rb { head = wrap cap (h1 + m) }) + (x - offset)) (sym same)
          ∙ ap (λ r. r + (m - offset))
              (remaining_past k rb offset m v (omega (arith, e, lt, lt')) (omega (arith, e, lt'))
                (omega arith))
          ∙ omega (arith, inside),
    )
