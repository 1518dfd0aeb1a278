-- ===== src/Ring/Threads/Heads.antt =====
-- A move of the head in the ring of libaudiowire/src/ringbuf.c.
use audiowire.Base.{
  ℕ, ◌+◌, ◌≤◌, ◌≡◌, refl, sym, ap, ap₂, ◌∙◌, arith, [], ◌∷◌, ◌++◌, append_assoc, some, Option, take,
  take-append-drop,
}
use audiowire.Ring.{remaining}
use audiowire.Ring.Window.{wrap, length-window}
use audiowire.Ring.Holds.{contents, head_moved, remaining_head}
use audiowire.Ring.Threads.{Consumer, Piece, Threads}
use audiowire.Ring.Threads.Moves.{
  ProducerOk, ConsumerOk, piece_bytes, passed_bytes, passed_bytes-snoc, Flow, Invariant,
  ProducerOk-head,
}

module _ (k max_bufsize : ℕ) where
  -- A step that returns, and what it keeps
  abbrev pub Keeps : Option Threads → Type 0
  Keeps step = (t : Threads) × (step ≡ some t) × Invariant k max_bufsize t

  abbrev pub moved_head : Threads → ℕ → Consumer → Piece → Threads
  moved_head s n c p = record s {
    ring = record s.ring { head = wrap s.ring.capacity (s.ring.head + n) };
    consumer = c;
    passed = s.passed ++ (p ∷ []);
  }

  moved_head-Flow :
      (s : Threads) (n : ℕ) (c : Consumer) (p : Piece)
      → Flow k s
      → n ≤ remaining s.ring
      → piece_bytes p ≡ take n (contents s.ring)
      → Flow k (moved_head s n c p)
  moved_head-Flow s n c p flow le e =
      let rb = s.ring in
      let items = contents rb in
      let m =
        head_moved k rb items n (record { valid = flow.valid; held = refl })
          (omega (arith, length-window rb.capacity rb.bytes rb.head (remaining rb))) in
      record {
        valid = m.valid;
        sized = flow.sized;
        kept = flow.kept;
        in_order =
            flow.in_order
            ∙ ap (λ l. passed_bytes s.passed ++ l)
                (sym (take-append-drop n items) ∙ ap₂ ◌++◌ (sym e) (sym m.held))
            ∙ sym (append_assoc (passed_bytes s.passed) (piece_bytes p) _)
            ∙ ap (λ l. l ++ contents (moved_head s n c p).ring)
                (sym (passed_bytes-snoc s.passed p));
      }

  pub moved_head-Invariant :
      (s : Threads) (n : ℕ) (c : Consumer) (p : Piece)
      → Flow k s
      → ProducerOk s.ring s.producer
      → n ≤ remaining s.ring
      → piece_bytes p ≡ take n (contents s.ring)
      → ConsumerOk max_bufsize (moved_head s n c p).ring c
      → Invariant k max_bufsize (moved_head s n c p)
  unfolding remaining
  moved_head-Invariant s n c p flow producer_ok le e consumer_ok =
      let v = flow.valid in
      record {
        flow = moved_head-Flow s n c p flow le e;
        producer_ok =
            ProducerOk-head s.ring _ s.producer (omega (arith, remaining_head k s.ring n v le))
              (λ before. ground (arith, v.tail_in)) producer_ok;
        consumer_ok = consumer_ok;
      }

  pub consumer_waits :
      (s : Threads) (c : Consumer)
      → Flow k s
      → ProducerOk s.ring s.producer
      → ConsumerOk max_bufsize s.ring c
      → Invariant k max_bufsize (record s { consumer = c })
  consumer_waits s c flow producer_ok consumer_ok = record {
    flow = record {
      valid = flow.valid;
      sized = flow.sized;
      in_order = flow.in_order;
      kept = flow.kept;
    };
    producer_ok = producer_ok;
    consumer_ok = consumer_ok;
  }
