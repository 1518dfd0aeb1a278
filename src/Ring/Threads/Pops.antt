-- ===== src/Ring/Threads/Pops.antt =====
-- The consumer's steps over the ring of libaudiowire/src/ringbuf.c.
use Prim.Native.Nat.{min}
use audiowire.Base.{
  ℕ, ◌+◌, ◌-◌, ◌≤◌, ◌<◌, ◌≡◌, inl, inr, refl, sym, ap, arith, false, List, [], ◌∷◌, ◌++◌, some,
  length, take, leb, lt→ltb, le→leb, le→not_ltb, lt→not_leb, lt_or_le, if◌then◌else◌,
}
use audiowire.Ring.{◌>>=◌, remaining}
use audiowire.Ring.Window.{window, length-window, load-window, take-window}
use audiowire.Ring.Loops.{masked, skip_lem}
use audiowire.Ring.Holds.{contents, remaining_head, remaining_lt}
use audiowire.Ring.Threads.{
  Phase, testing, acting, Consumer, resting, calls, compares, skips, reading, copied, taken,
  skipped, Threads, held, consume, torn_held,
}
use audiowire.Ring.Threads.Views.{held_lem}
use audiowire.Ring.Threads.Moves.{ProducerOk, ConsumerOk, Flow, Invariant}
use audiowire.Ring.Threads.Heads.{Keeps, consumer_waits, moved_head, moved_head-Invariant}

module _ (k max_bufsize : ℕ) where
  sees :
      (s : Threads) (t : ℕ)
      → Flow k s
      → (t < s.ring.head → s.ring.tail < s.ring.head)
      → (phase : Phase) → (n : ℕ) → torn_held (compares phase n t) s.ring ≡ false
      → held t s.ring ≡ remaining s.ring
  unfolding torn_held
  sees s t flow seen phase n whole =
      held_lem t s.ring (omega (arith, flow.valid.tail_in, flow.sized)) seen whole

  tested :
      (s : Threads) (n : ℕ)
      → Flow k s
      → ProducerOk s.ring s.producer
      → n ≤ max_bufsize
      → Invariant k max_bufsize
          (record s { consumer = if leb n (remaining s.ring) then calls acting n else resting })
  tested s n flow producer_ok small = elim (lt_or_le (remaining s.ring) n) [
    | inl few ↦ rw (lt→not_leb _ _ few) (consumer_waits k max_bufsize s resting flow producer_ok tt)
    | inr enough ↦
        rw (le→leb _ _ enough)
          (consumer_waits k max_bufsize s (calls acting n) flow producer_ok (small, enough))
  ]

  skips_on :
      (s : Threads) (n r : ℕ)
      → Flow k s
      → ProducerOk s.ring s.producer
      → ConsumerOk max_bufsize s.ring (skips n r)
      → Keeps k max_bufsize (consume max_bufsize (skips n r) s)
  unfolding consume
  skips_on s n r flow producer_ok (small, less, inside) =
      let rb = s.ring in
      let diff = r - max_bufsize in
      let c = reading (min n r) 0 in
      let below : remaining rb < rb.capacity = remaining_lt k rb flow.valid in
      elim (lt_or_le max_bufsize r) [
        | inl far ↦
            let left = remaining_head k rb diff flow.valid (omega arith) in
            let p = skipped (take diff (contents rb)) in
            (
              moved_head k max_bufsize s diff c p,
              rw (lt→ltb _ _ far) (
                  ap
                    (λ ring.
                      some (record s { ring = ring; consumer = c; passed = s.passed ++ (p ∷ []) }))
                    (skip_lem k rb diff flow.valid (omega arith))),
              moved_head-Invariant k max_bufsize s diff c p flow producer_ok (omega arith) refl
                  (omega (arith, left)),
            )
        | inr near ↦ (
          record s { consumer = c },
          rw (le→not_ltb _ _ near) refl,
          consumer_waits k max_bufsize s c flow producer_ok (omega arith),
        )
      ]

  reads_on :
      (s : Threads) (n offset : ℕ)
      → Flow k s
      → ProducerOk s.ring s.producer
      → ConsumerOk max_bufsize s.ring (reading n offset)
      → Keeps k max_bufsize (consume max_bufsize (reading n offset) s)
  unfolding consume
  reads_on s n offset flow producer_ok inside =
      let rb = s.ring in
      let v = flow.valid in
      let below : remaining rb < rb.capacity = remaining_lt k rb v in
      elim (lt_or_le offset n) [
        | inl more ↦
            let len = min (rb.capacity - rb.head) (n - offset) in
            let block = window rb.capacity rb.bytes rb.head len in
            let size : length block ≡ len = length-window rb.capacity rb.bytes rb.head len in
            let c : Consumer = copied n offset block in
            let got =
              load-window rb.capacity rb.bytes rb.head len v.room (omega (arith, v.head_in)) in
            (
              record s { consumer = c },
              rw (lt→ltb _ _ more, consume)
                  (ap (λ o. o >>= (λ b. some (record s { consumer = copied n offset b }))) got),
              consumer_waits k max_bufsize s c flow producer_ok (
                more,
                inside,
                omega (arith, size),
                rw size (
                    sym (
                      take-window rb.capacity rb.bytes rb.head len (remaining rb) v.head_in
                        (omega arith) (omega arith))),
              ),
            )
        | inr done ↦ (
          record s { consumer = resting },
          rw (le→not_ltb _ _ done, consume) refl,
          consumer_waits k max_bufsize s resting flow producer_ok tt,
        )
      ]

  moves_on :
      (s : Threads) (n offset : ℕ) (block : List ℕ)
      → Flow k s
      → ProducerOk s.ring s.producer
      → ConsumerOk max_bufsize s.ring (copied n offset block)
      → Keeps k max_bufsize (consume max_bufsize (copied n offset block) s)
  unfolding consume
  moves_on s n offset block flow producer_ok (more, inside, part, e) =
      let rb = s.ring in
      let v = flow.valid in
      let len = length block in
      let c = reading n (offset + len) in
      let below : remaining rb < rb.capacity = remaining_lt k rb v in
      let left = remaining_head k rb len v (omega arith) in
      (
        moved_head k max_bufsize s len c (taken block),
        ap
            (λ h. some (record s {
              ring = record rb { head = h };
              consumer = c;
              passed = s.passed ++ (taken block ∷ []);
            }))
            (masked k rb (rb.head + len) v (omega (arith, v.head_in))),
        moved_head-Invariant k max_bufsize s len c (taken block) flow producer_ok (omega arith) e
            (omega (arith, left)),
      )

  -- The consumer's next step returns, and keeps the invariant.
  pub consume-Keeps :
      (s : Threads) (c : Consumer)
      → Invariant k max_bufsize s
      → ConsumerOk max_bufsize s.ring c
      → torn_held c s.ring ≡ false
      → Keeps k max_bufsize (consume max_bufsize c s)
  unfolding consume
  consume-Keeps s resting i ok whole = (s, refl, i)
  consume-Keeps s (calls phase n) i (small, ok) whole =
      (_, refl, consumer_waits k max_bufsize s _ i.flow i.producer_ok (small, ok, λ around. around))
  consume-Keeps s (compares testing n t) i (small, ok, seen) whole =
      let e = sees s t i.flow seen testing n whole in
      (
        record s { consumer = if leb n (remaining s.ring) then calls acting n else resting },
        rw e refl,
        tested s n i.flow i.producer_ok small,
      )
  consume-Keeps s (compares acting n t) i (small, ok, seen) whole =
      let e = sees s t i.flow seen acting n whole in
      (
        record s { consumer = skips n (remaining s.ring) },
        rw e refl,
        consumer_waits k max_bufsize s (skips n (remaining s.ring)) i.flow i.producer_ok
            (small, ok, omega arith),
      )
  consume-Keeps s (skips n r) i ok whole = skips_on s n r i.flow i.producer_ok ok
  consume-Keeps s (reading n offset) i ok whole = reads_on s n offset i.flow i.producer_ok ok
  consume-Keeps s (copied n offset block) i ok whole =
      moves_on s n offset block i.flow i.producer_ok ok
