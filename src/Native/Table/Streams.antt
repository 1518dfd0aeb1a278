-- ===== src/Native/Table/Streams.antt =====
-- The streams of libaudiowire/src/common.c with a ring of a given size, which the device's callbacks keep.
use native.Mathlib.Nat.{pow-le-pow_right}
use audiowire.Base.{
  ℕ, ◌^◌, ◌≤◌, ◌<◌, ◌≡◌, refl, ◌∙◌, arith, Bool, true, false, List, Option, none, some, length,
  String, leb, if◌then◌else◌,
}
use audiowire.Base.Arrays.{replicate}
use audiowire.Config.{AwConfig, native_buffer_size}
use audiowire.Ring.{Ring, ◌>>=◌, load, push, pop_back_from, available, remaining}
use audiowire.Ring.Create.{create-Holds}
use audiowire.Ring.Within.{Within, Kept, push-Within, pop_back_from-Within}
use audiowire.Native.{AwStream, aw_stream_base_init, on_stream_read, on_stream_write, over}
use audiowire.Native.Powers.{same_power}
use audiowire.Native.PortAudio.{PortAudio}
use audiowire.Native.Table.Runs.{with_unit}

-- The stream that an operation leaves, if it leaves one, has a ring of 2 ^ j bytes.
abbrev pub Left : {A : Type 0} → ℕ → Option (A × AwStream) → Type 0
Left j none = Unit
Left j (some (a, s)) = Within j s.ringbuf

module _ (j : ℕ) (pos : 0 < j) where
  pub two : 1 < 2 ^ j
  two = omega (arith, pow-le-pow_right {n = 2} (omega arith) {i = 1} {j = j} pos)

  pub base-Within :
      (cfg : AwConfig) (devname : Option String) (error_cb : Bool)
      → native_buffer_size cfg cfg.max_buffer_frames ≡ 2 ^ j
      → j ≤ 63
      → (s : AwStream) × (aw_stream_base_init cfg devname error_cb ≡ some s) × Within j s.ringbuf
  unfolding aw_stream_base_init
  base-Within cfg devname error_cb size le =
      let small : 2 ^ j ≤ 2 ^ 63 = pow-le-pow_right {n = 2} (omega arith) {i = j} {j = 63} le in
      let n = native_buffer_size cfg cfg.max_buffer_frames in
      let (k, rb, e, bounds, holds) =
        create-Holds n (omega (arith, two, size)) (omega (arith, size, small)) in
      let same = same_power n j k size bounds in
      let v = holds.valid in
      (
        record {
          ringbuf = rb;
          devname = devname;
          sample_rate = 0;
          max_bufsize = n;
          config = cfg;
          error_cb = error_cb;
        },
        rw e refl,
        record {
          power = v.power ∙ same;
          ones = omega (arith, v.ones, v.power, same);
          head_in = omega (arith, v.head_in, v.power, same);
        },
      )

  if-Left :
      {A : Type 0} (b : Bool) (x y : Option (A × AwStream))
      → Left j x
      → Left j y
      → Left j (if b then x else y)
  if-Left true x y h k = h
  if-Left false x y h k = k

  -- A call on the ring of a stream
  ring-Left :
      {A B : Type 0} (o : Option (A × Ring)) (s : AwStream) (f : A → B)
      → Kept j o
      → Left j (o >>= λ r. some (f r.0, record s { ringbuf = r.1 }))
  ring-Left none s f h = tt
  ring-Left (some (a, rb)) s f h = h

  pub on_stream_write-Left :
      (s : AwStream) (output : List ℕ) (count : ℕ)
      → Within j s.ringbuf
      → Left j (on_stream_write s output count)
  unfolding on_stream_write
  on_stream_write-Left s output count v =
      let n = native_buffer_size s.config count in
      let popped = pop_back_from s.ringbuf n s.max_bufsize in
      let play = popped >>= (λ r. some (over r.0 output, record s { ringbuf = r.1 })) in
      let silence = some (over (replicate n 0) output, s) in
      if-Left (leb n (length output)) (if leb n (remaining s.ringbuf) then play else silence) none
        (if-Left (leb n (remaining s.ringbuf)) play silence
          (ring-Left popped s (λ out. over out output)
            (pop_back_from-Within j s.ringbuf n s.max_bufsize v))
          v)
        tt

  pushed-Left :
      (pa : PortAudio) (to_text : List ℕ → String) (o : Option (List ℕ)) (s : AwStream)
      → Within j s.ringbuf
      → Left j (
          with_unit pa to_text
            (o >>= (λ block. push s.ringbuf block >>= (λ r. some (record s { ringbuf = r.1 })))))
  pushed-Left pa to_text none s v = tt
  pushed-Left pa to_text (some block) s v =
      after (push s.ringbuf block) (push-Within j s.ringbuf block two v)
    where
      after :
          (o : Option (ℕ × Ring))
          → Kept j o
          → Left j (with_unit pa to_text (o >>= (λ r. some (record s { ringbuf = r.1 }))))
      after none h = tt
      after (some r) h = h

  if-read :
      (pa : PortAudio) (to_text : List ℕ → String) (b : Bool) (x y : Option AwStream)
      → Left j (with_unit pa to_text x)
      → Left j (with_unit pa to_text y)
      → Left j (with_unit pa to_text (if b then x else y))
  if-read pa to_text true x y h k = h
  if-read pa to_text false x y h k = k

  pub on_stream_read-Left :
      (pa : PortAudio) (to_text : List ℕ → String) (s : AwStream) (input : List ℕ) (count : ℕ)
      → Within j s.ringbuf
      → Left j (with_unit pa to_text (on_stream_read s input count))
  unfolding on_stream_read
  on_stream_read-Left pa to_text s input count v =
      let n = native_buffer_size s.config count in
      if-read pa to_text (leb n (available s.ringbuf))
        (load input 0 n
          >>= (λ block. push s.ringbuf block >>= (λ r. some (record s { ringbuf = r.1 }))))
        (some s) (pushed-Left pa to_text (load input 0 n) s v) v
