-- ===== src/Native/Pipe.antt =====
-- The streams of libaudiowire as pipes between the program and the device.
use audiowire.Base.{
  ℕ, ◌+◌, ◌-◌, ◌^◌, ◌≤◌, ◌≡◌, inl, inr, refl, sym, ap, ◌∙◌, arith, List, ◌++◌, Option, some, length,
  take, drop, take-of_length_le, length-take, length-append, append-nil, drop-of_length_le, le→leb,
  lt→not_leb, lt_or_le,
}
use audiowire.Base.Arrays.{replicate, length-replicate}
use audiowire.Config.{AwConfig, native_buffer_size}
use audiowire.Ring.{Ring, load, available, remaining, push, pop_back_from}
use audiowire.Ring.Queue.{last}
use audiowire.Ring.Holds.{Holds, remaining_held, available_lem}
use audiowire.Ring.Refine.{Leaves, pop_back_from_refines}
use audiowire.Ring.Push.{push_refines}
use audiowire.Native.{
  AwStream, aw_record_read, aw_playback_write, on_stream_read, on_stream_write, over,
}
use audiowire.Native.Fifo.{Event, Effect, Fits, AllFit}
use audiowire.Native.Fifo
use audiowire.Native.Events.{run_event}

-- A stream of this configuration whose ring holds these bytes
pub record Carries (k : ℕ) (cfg : AwConfig) (room : ℕ) (items : List ℕ) (s : AwStream)
    : Type 0 where
  pub ring : Holds k items s.ringbuf
  pub same_config : s.config ≡ cfg
  pub same_room : s.max_bufsize ≡ room

last_all : (n : ℕ) (xs : List ℕ) → length xs ≤ n → last n xs ≡ xs
last_all n xs h = let z : length xs - n ≡ 0 = omega arith in ap (λ m. drop m xs) z

module _ (k : ℕ) (cfg : AwConfig) (room : ℕ) where
  -- What an event leaves
  abbrev pub Gives : {A : Type 0} → Option (A × AwStream) → A → List ℕ → Type 0
  Gives r out items = (s' : AwStream) × (r ≡ some (out, s')) × Carries k cfg room items s'

  pub with-Carries :
      (s : AwStream) (rb : Ring) (items items' : List ℕ)
      → Carries k cfg room items s
      → Holds k items' rb
      → Carries k cfg room items' (record s { ringbuf = rb })
  with-Carries s rb items items' c h = record {
    ring = h;
    same_config = c.same_config;
    same_room = c.same_room;
  }

  -- The whole queue is within reach of a read of `n` bytes.
  pop_fifo :
      (s : AwStream) (items : List ℕ) (n : ℕ)
      → Carries k cfg room items s
      → n ≤ room
      → length items ≤ room
      → Leaves k (pop_back_from s.ringbuf n s.max_bufsize) (take n items) (drop n items)
  pop_fifo s items n c hn hi =
      let e = c.same_room in
      let (rb, got, h) = pop_back_from_refines k s.ringbuf items n room c.ring (inl hn) in
      let all = last_all room items hi in
      (rb, rw e (got ∙ ap (λ l. some (take n l, rb)) all), rw all at h)

  reads_lem :
      (s : AwStream) (items : List ℕ) (n : ℕ)
      → Carries k cfg room items s
      → n ≤ room
      → length items ≤ room
      → Gives (run_event (Fifo.reads n) s) (Fifo.got (take n items)) (drop n items)
  unfolding run_event aw_record_read
  reads_lem s items n c hn hi =
      let (rb, got, h) = pop_fifo s items n c hn hi in
      (record s { ringbuf = rb }, rw got refl, with-Carries s rb items _ c h)

  pub push_fifo :
      (s : AwStream) (items bytes : List ℕ)
      → Carries k cfg room items s
      → length items + length bytes ≤ 2 ^ k - 1
      → Leaves k (push s.ringbuf bytes) (length bytes) (items ++ bytes)
  push_fifo s items bytes c h =
      let v = c.ring.valid in
      let m : s.ringbuf.mask ≡ 2 ^ k - 1 = omega (arith, v.ones, v.power) in
      let (rb, pushed, held) = push_refines k s.ringbuf items bytes c.ring in
      let all : last s.ringbuf.mask (items ++ bytes) ≡ items ++ bytes =
        last_all _ (items ++ bytes) (omega (arith, m, length-append items bytes)) in
      (rb, pushed, rw all at held)

  writes_lem :
      (s : AwStream) (items bytes : List ℕ)
      → Carries k cfg room items s
      → length items + length bytes ≤ 2 ^ k - 1
      → Gives (run_event (Fifo.writes bytes) s) (Fifo.wrote (length bytes)) (items ++ bytes)
  unfolding run_event aw_playback_write
  writes_lem s items bytes c h =
      let (rb, pushed, held) = push_fifo s items bytes c h in
      (record s { ringbuf = rb }, rw pushed refl, with-Carries s rb items _ c held)

  -- The room that is left
  pub available_room :
      (s : AwStream) (items : List ℕ)
      → Carries k cfg room items s
      → available s.ringbuf + length items ≡ 2 ^ k - 1
  available_room s items c =
      let v = c.ring.valid in
      omega (
        arith,
        available_lem k s.ringbuf v,
        remaining_held k s.ringbuf items c.ring,
        v.ones,
        v.power,
      )

  gives_lem :
      (s : AwStream) (items input : List ℕ) (count : ℕ)
      → Carries k cfg room items s
      → length input ≡ native_buffer_size cfg count
      → let (r, rest) = Fifo.event cfg (2 ^ k - 1) (Fifo.gives input count) items in
        Gives (run_event (Fifo.gives input count) s) r rest
  unfolding run_event on_stream_read
  gives_lem s items input count c size =
      let a = available_room s items c in
      let given : native_buffer_size s.config count ≡ length input =
        ap (λ g. native_buffer_size g count) c.same_config ∙ sym size in
      elim (lt_or_le (2 ^ k - 1) (length items + length input)) [
        | inl over ↦ (
          s,
          rw (given, lt→not_leb (available s.ringbuf) (length input) (omega (arith, a))) refl,
          rw (lt→not_leb _ _ over) c,
        )
        | inr fits ↦
            let (rb, pushed, held) = push_fifo s items input c fits in
            let whole : load input 0 (length input) ≡ some input =
              rw (le→leb (0 + length input) (length input) (omega arith))
                (ap some (take-of_length_le (length input) input (omega arith))) in
            (
              record s { ringbuf = rb },
              rw (given, le→leb (length input) (available s.ringbuf) (omega (arith, a)))
                  (rw (whole, pushed) refl),
              rw (le→leb _ _ fits) (with-Carries s rb items _ c held),
            )
      ]

  over_whole : (bytes buffer : List ℕ) → length bytes ≡ length buffer → over bytes buffer ≡ bytes
  over_whole bytes buffer e =
      ap (λ l. bytes ++ l) (drop-of_length_le (length bytes) buffer (omega (arith, e)))
      ∙ append-nil bytes

  asks_lem :
      (s : AwStream) (items output : List ℕ) (count : ℕ)
      → Carries k cfg room items s
      → length output ≡ native_buffer_size cfg count
      → length output ≤ room
      → length items ≤ room
      → let (r, rest) = Fifo.event cfg (2 ^ k - 1) (Fifo.asks output count) items in
        Gives (run_event (Fifo.asks output count) s) r rest
  unfolding run_event on_stream_write
  asks_lem s items output count c size ho hi =
      let asked : native_buffer_size s.config count ≡ length output =
        ap (λ g. native_buffer_size g count) c.same_config ∙ sym size in
      let n = length output in
      let r : length items ≡ remaining s.ringbuf = remaining_held k s.ringbuf items c.ring in
      let fits = le→leb n n (omega arith) in
      elim (lt_or_le (length items) n) [
        | inl under ↦ (
          s,
          rw
              (
                asked,
                fits,
                lt→not_leb (remaining s.ringbuf) n (omega (arith, r)),
                lt→not_leb _ _ under,
              )
              (ap (λ l. some (Fifo.played l, s))
                (over_whole (replicate n 0) output (length-replicate n 0))),
          rw (lt→not_leb _ _ under) c,
        )
        | inr enough ↦
            let (rb, got, held) = pop_fifo s items n c ho hi in
            let full : length (take n items) ≡ n = omega (arith, length-take n items) in
            (
              record s { ringbuf = rb },
              rw (asked, fits, le→leb n (remaining s.ringbuf) (omega (arith, r)), le→leb _ _ enough)
                  (rw got (
                    ap (λ l. some (Fifo.played l, record s { ringbuf = rb }))
                      (over_whole (take n items) output full))),
              rw (le→leb _ _ enough) (with-Carries s rb items _ c held),
            )
      ]

  pub run_event_lem :
      (e : Event) (s : AwStream) (items : List ℕ)
      → Carries k cfg room items s
      → Fits cfg (2 ^ k - 1) room e items
      → let (r, rest) = Fifo.event cfg (2 ^ k - 1) e items in Gives (run_event e s) r rest
  run_event_lem (Fifo.reads n) s items c (hn, hi) = reads_lem s items n c hn hi
  run_event_lem (Fifo.writes bytes) s items c h = writes_lem s items bytes c h
  run_event_lem (Fifo.gives input count) s items c size = gives_lem s items input count c size
  run_event_lem (Fifo.asks output count) s items c (size, ho, hi) =
      asks_lem s items output count c size ho hi
