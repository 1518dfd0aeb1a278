-- ===== src/Ring/Threads/Tails.antt =====
-- A copy behind the tail in the ring of libaudiowire/src/ringbuf.c.
use audiowire.Base.{
  ℕ, ◌+◌, ◌≤◌, ◌<◌, ◌≡◌, refl, sym, ap, ap₂, ◌∙◌, arith, List, [], ◌++◌, append-nil, length, take,
  drop, take-append_at, drop-append_at,
}
use audiowire.Ring.{Ring, put, remaining}
use audiowire.Ring.Window.{wrap, window, length-window, window-put, take-window, drop-window}
use audiowire.Ring.Loops.{IsValid}
use audiowire.Ring.Writes.{length-part}
use audiowire.Ring.Holds.{contents, tail_lem}
use audiowire.Ring.Threads.{Producer, writing, copied, Threads}
use audiowire.Ring.Threads.Moves.{
  ProducerOk, ConsumerOk, passed_bytes, Flow, Invariant, ConsumerOk-tail,
}

module _ (k max_bufsize : ℕ) where
  pub producer_waits :
      (s : Threads) (p : Producer)
      → Flow k s
      → ProducerOk s.ring p
      → ConsumerOk max_bufsize s.ring s.consumer
      → Invariant k max_bufsize (record s { producer = p })
  producer_waits s p flow producer_ok consumer_ok = record {
    flow = record {
      valid = flow.valid;
      sized = flow.sized;
      in_order = flow.in_order;
      kept = flow.kept;
    };
    producer_ok = producer_ok;
    consumer_ok = consumer_ok;
  }

  -- A block copied behind the contents leaves them, and stands at the tail.
  put_block :
      (rb : Ring) (block : List ℕ)
      → IsValid k rb
      → remaining rb + length block < rb.capacity
      → rb.tail + length block ≤ rb.capacity
      → (window rb.capacity (put rb.bytes rb.tail block) rb.head (remaining rb) ≡ contents rb)
        × (window rb.capacity (put rb.bytes rb.tail block) rb.tail (length block) ≡ block)
        × (length (put rb.bytes rb.tail block) ≡ rb.capacity)
  put_block rb block v fits inside =
      let cap = rb.capacity in
      let n = remaining rb in
      let m = length block in
      let xs = put rb.bytes rb.tail block in
      let at : rb.tail ≡ wrap cap (rb.head + n) = tail_lem k rb v in
      let (w, same) =
        window-put cap block rb.bytes rb.head n rb.tail v.room v.head_in (omega arith) inside
          (λ some_bytes. at) in
      let size : length (contents rb) ≡ n = length-window cap rb.bytes rb.head n in
      (
        sym (take-window cap xs rb.head n (n + m) v.head_in (omega arith) (omega arith))
            ∙ ap (take n) w
            ∙ take-append_at n (contents rb) block (sym size),
        ap₂ (window cap xs) at (omega arith)
            ∙ sym (drop-window cap xs rb.head n (n + m) v.head_in (omega arith) (omega arith))
            ∙ ap (drop n) w
            ∙ drop-append_at n (contents rb) block (sym size),
        same,
      )

  pub put-Invariant :
      (s : Threads) (buf : List ℕ) (offset : ℕ)
      → Flow k s
      → ConsumerOk max_bufsize s.ring s.consumer
      → ProducerOk s.ring (writing buf offset)
      → (len : ℕ) → offset + len ≤ length buf
      → s.ring.tail + len ≤ s.ring.capacity
      → Invariant k max_bufsize (record s {
        ring = record s.ring { bytes = put s.ring.bytes s.ring.tail (take len (drop offset buf)) };
        producer = copied buf offset len;
      })
  unfolding remaining
  put-Invariant s buf offset flow consumer_ok fits len less inside =
      let rb = s.ring in
      let v = flow.valid in
      let block = take len (drop offset buf) in
      let size : length block ≡ len = length-part buf offset len (omega arith) in
      let (w, b, same) = put_block rb block v (omega (arith, size)) (omega (arith, size)) in
      record {
        flow = record {
          valid = record {
            some_bits = v.some_bits;
            power = v.power;
            ones = v.ones;
            room = same;
            head_in = v.head_in;
            tail_in = v.tail_in;
          };
          sized = flow.sized;
          in_order = flow.in_order ∙ ap (λ l. passed_bytes s.passed ++ l) (sym w);
          kept = flow.kept;
        };
        producer_ok = (
          omega arith,
          fits,
          ap (window rb.capacity (put rb.bytes rb.tail block) rb.tail) (sym size) ∙ b,
        );
        consumer_ok =
            ConsumerOk-tail max_bufsize rb (record rb { bytes = put rb.bytes rb.tail block }) []
              s.consumer refl (omega arith) (λ before. before) (w ∙ sym (append-nil (contents rb)))
              consumer_ok;
      }
