-- ===== src/Ring/Threads/Pushes.antt =====
-- The producer's steps over the ring of libaudiowire/src/ringbuf.c.
use Prim.Native.Nat.{min}
use audiowire.Base.{
  ℕ, ◌+◌, ◌-◌, ◌≤◌, ◌<◌, ◌≡◌, inl, inr, refl, sym, ap, ◌∙◌, arith, false, List, ◌++◌, append_assoc,
  some, length, take, drop, leb, lt→ltb, le→leb, le→not_ltb, lt→not_leb, lt_or_le, if◌then◌else◌,
}
use audiowire.Ring.{Ring, ◌>>=◌, load, store, put, remaining, available}
use audiowire.Ring.Window.{wrap, window, window-append}
use audiowire.Ring.Loops.{masked}
use audiowire.Ring.Writes.{length-part}
use audiowire.Ring.Holds.{contents, remaining_tail, available_lem, tail_lem}
use audiowire.Ring.Threads.{
  Phase, testing, acting, Producer, resting, calls, compares, writing, copied, Threads, free,
  produce, torn_free,
}
use audiowire.Ring.Threads.Views.{free_lem}
use audiowire.Ring.Threads.Moves.{
  ProducerOk, ConsumerOk, passed_bytes, Flow, Invariant, ConsumerOk-tail,
}
use audiowire.Ring.Threads.Heads.{Keeps}
use audiowire.Ring.Threads.Tails.{producer_waits, put-Invariant}

module _ (k max_bufsize : ℕ) where
  writes_on :
      (s : Threads) (buf : List ℕ) (offset : ℕ)
      → Flow k s
      → ConsumerOk max_bufsize s.ring s.consumer
      → ProducerOk s.ring (writing buf offset)
      → Keeps k max_bufsize (produce (writing buf offset) s)
  unfolding produce
  writes_on s buf offset flow consumer_ok fits =
      let rb = s.ring in
      elim (lt_or_le offset (length buf)) [
        | inl more ↦
            let len = min (rb.capacity - rb.tail) (length buf - offset) in
            let block = take len (drop offset buf) in
            let size : length block ≡ len = length-part buf offset len (omega arith) in
            let inside : rb.tail + len ≤ rb.capacity = omega (arith, flow.valid.tail_in) in
            let got : load buf offset len ≡ some block = ground arith in
            let put_in : store rb.bytes rb.tail block ≡ some (put rb.bytes rb.tail block) =
              ground (arith, size, flow.valid.room) in
            let next : List ℕ → Threads = λ bytes. record s {
              ring = record rb { bytes = bytes };
              producer = copied buf offset len;
            } in
            (
              next (put rb.bytes rb.tail block),
              rw (lt→ltb _ _ more, produce)
                  (ap (λ o. o >>= (λ b. store rb.bytes rb.tail b >>= (λ bytes. some (next bytes))))
                      got
                    ∙ ap (λ o. o >>= (λ bytes. some (next bytes))) put_in),
              put-Invariant k max_bufsize s buf offset flow consumer_ok fits len (omega arith)
                  inside,
            )
        | inr done ↦ (
          record s { producer = resting },
          rw (le→not_ltb _ _ done, produce) refl,
          producer_waits k max_bufsize s resting flow tt consumer_ok,
        )
      ]

  moves_on :
      (s : Threads) (buf : List ℕ) (offset len : ℕ)
      → Flow k s
      → ConsumerOk max_bufsize s.ring s.consumer
      → ProducerOk s.ring (copied buf offset len)
      → Keeps k max_bufsize (produce (copied buf offset len) s)
  unfolding produce remaining
  moves_on s buf offset len flow consumer_ok (part, fits, same) =
      let rb = s.ring in
      let v = flow.valid in
      let block = take len (drop offset buf) in
      let rb' : Ring = record rb { tail = wrap rb.capacity (rb.tail + len) } in
      let more : remaining rb' ≡ remaining rb + len =
        remaining_tail k rb rb.bytes len v (omega arith) in
      let longer : contents rb' ≡ contents rb ++ block =
        ap (window rb.capacity rb.bytes rb.head) more
        ∙ window-append rb.capacity rb.bytes rb.head (remaining rb) len v.head_in (omega arith)
        ∙ ap (λ i. contents rb ++ window rb.capacity rb.bytes i len) (sym (tail_lem k rb v))
        ∙ ap (λ l. contents rb ++ l) same in
      (
        record s { ring = rb'; producer = writing buf (offset + len); pushed = s.pushed ++ block },
        ap
            (λ t. some (record s {
              ring = record rb { tail = t };
              producer = writing buf (offset + len);
              pushed = s.pushed ++ block;
            }))
            (masked k rb (rb.tail + len) v (omega (arith, v.tail_in))),
        record {
          flow = record {
            valid = record {
              some_bits = v.some_bits;
              power = v.power;
              ones = v.ones;
              room = v.room;
              head_in = v.head_in;
              tail_in = ground (arith, v.tail_in);
            };
            sized = flow.sized;
            in_order =
                ap (λ l. l ++ block) flow.in_order
                ∙ append_assoc (passed_bytes s.passed) (contents rb) block
                ∙ ap (λ l. passed_bytes s.passed ++ l) (sym longer);
            kept = flow.kept;
          };
          producer_ok = omega (arith, more);
          consumer_ok =
              ConsumerOk-tail max_bufsize rb rb' block s.consumer refl (omega (arith, more))
                (λ behind. ground (arith, v.head_in)) longer consumer_ok;
        },
      )

  sees :
      (s : Threads) (h : ℕ)
      → Flow k s
      → (h ≤ s.ring.tail → s.ring.head ≤ s.ring.tail)
      → (phase : Phase) → (buf : List ℕ) → torn_free (compares phase buf h) s.ring ≡ false
      → free h s.ring ≡ available s.ring
  unfolding torn_free
  sees s h flow seen phase buf whole =
      free_lem h s.ring (omega (arith, flow.valid.head_in, flow.sized)) seen whole

  tested :
      (s : Threads) (buf : List ℕ)
      → Flow k s
      → ConsumerOk max_bufsize s.ring s.consumer
      → length buf < s.ring.mask
      → Invariant k max_bufsize (record s {
        producer = if leb (length buf) (available s.ring) then calls acting buf else resting;
      })
  tested s buf flow consumer_ok small = elim (lt_or_le (available s.ring) (length buf)) [
    | inl few ↦ rw (lt→not_leb _ _ few) (producer_waits k max_bufsize s resting flow tt consumer_ok)
    | inr enough ↦
        let fits : length buf + remaining s.ring < s.ring.capacity =
          omega (arith, available_lem k s.ring flow.valid, flow.valid.ones, flow.valid.some_bits) in
        rw (le→leb _ _ enough)
          (producer_waits k max_bufsize s (calls acting buf) flow (small, fits) consumer_ok)
  ]

  pushes_on :
      (s : Threads) (buf : List ℕ) (h : ℕ)
      → Flow k s
      → ConsumerOk max_bufsize s.ring s.consumer
      → length buf + remaining s.ring < s.ring.capacity
      → free h s.ring ≡ available s.ring
      → Keeps k max_bufsize (produce (compares acting buf h) s)
  unfolding produce
  pushes_on s buf h flow consumer_ok fits e =
      let enough : length buf ≤ available s.ring =
        omega (arith, available_lem k s.ring flow.valid, flow.valid.ones) in
      (
        record s { producer = writing buf 0 },
        rw (e, le→not_ltb _ _ enough) refl,
        producer_waits k max_bufsize s (writing buf 0) flow (omega arith) consumer_ok,
      )

  -- The producer's next step returns, and keeps the invariant.
  pub produce-Keeps :
      (s : Threads) (p : Producer)
      → Invariant k max_bufsize s
      → ProducerOk s.ring p
      → torn_free p s.ring ≡ false
      → Keeps k max_bufsize (produce p s)
  unfolding produce torn_free
  produce-Keeps s resting i ok whole = (s, refl, i)
  produce-Keeps s (calls phase buf) i (small, ok) whole =
      (_, refl, producer_waits k max_bufsize s _ i.flow (small, ok, λ before. before) i.consumer_ok)
  produce-Keeps s (compares testing buf h) i (small, ok, seen) whole =
      let e = sees s h i.flow seen testing buf whole in
      (
        record s {
          producer = if leb (length buf) (available s.ring) then calls acting buf else resting;
        },
        rw e refl,
        tested s buf i.flow i.consumer_ok small,
      )
  produce-Keeps s (compares acting buf h) i (small, ok, seen) whole =
      pushes_on s buf h i.flow i.consumer_ok ok (sees s h i.flow seen acting buf whole)
  produce-Keeps s (writing buf offset) i ok whole = writes_on s buf offset i.flow i.consumer_ok ok
  produce-Keeps s (copied buf offset len) i ok whole =
      moves_on s buf offset len i.flow i.consumer_ok ok
