-- ===== src/Native/Pulse.antt =====
-- The callbacks of a stream over PulseAudio, libaudiowire/src/pulseaudio.c.
--
-- `none` is an access outside a buffer, or a loop that has used up its fuel.
pub mod Client
pub mod States
pub mod Start
mod Calls
pub mod Order
pub mod Stops
use audiowire.Base.{
  ℕ, zero, suc, Bool, true, false, not, List, [], ◌∷◌, ◌++◌, Option, none, some, length, leb, ltb,
  if◌then◌else◌, ℤ,
}
use audiowire.Base.Arrays.{replicate}
use audiowire.Device.{is_zero}
use audiowire.Ring.{◌>>=◌, available, remaining, push, pop_back_from}
use audiowire.Native.{AwStream, over}

-- What `pa_stream_peek` shows: bytes, or a null pointer for a hole of so many
pub data Fragment : Type 0 where
  hole : ℕ → Fragment
  bytes : List ℕ → Fragment

abbrev pub fragment_size : Fragment → ℕ
fragment_size (hole n) = n
fragment_size (bytes xs) = length xs

-- What the library answers to a callback; a buffer to write to is none for a null pointer, and as long as the library
-- says.
pub record PulseAudio : Type 1 where
  pub State : Type 0
  pub readable_size : State → ℕ
  pub peek : State → ℤ × Fragment × State
  pub drop : State → ℤ × State
  pub begin_write : ℕ → State → ℤ × Option (List ℕ) × State
  pub write : List ℕ → State → ℤ × State
  pub errno : State → ℤ
  pub strerror : ℤ → List ℕ

-- The buffer that goes to the device, from the ring or silent
unfoldable pub fill : List ℕ → AwStream → Option (List ℕ × AwStream)
unfolding remaining pop_back_from
fill output base =
    let nbytes = length output in
    if leb nbytes (remaining base.ringbuf)
    then (do
      (out, rb) ← pop_back_from base.ringbuf nbytes base.max_bufsize
      some (over out output, record base { ringbuf = rb }))
    else some (replicate nbytes 0, base)

-- `if (data && ringbuf_available(…) >= length) ringbuf_push(…)`
unfoldable pub take_fragment : Fragment → AwStream → Option AwStream
unfolding available push
take_fragment (hole n) base = some base
take_fragment (bytes xs) base =
    if leb (length xs) (available base.ringbuf)
    then (do (count, rb) ← push base.ringbuf xs; some (record base { ringbuf = rb }))
    else some base

module _ (pa : PulseAudio) where
  -- What a callback acts on: `aw_stream`, the library, the errors that were reported, and whether the read and the write
  -- callback are still set.
  pub record PulseStream : Type 0 where
    pub base : AwStream
    pub server : pa.State
    pub reported : List (ℤ × List ℕ)
    pub listens : Bool

  -- `error_stream_callback`, with `aw_stream_base_error`
  unfoldable pub error_stream_callback : PulseStream → PulseStream
  error_stream_callback s =
      let e = pa.errno s.server in
      record s {
        reported = if s.base.error_cb then s.reported ++ ((e, pa.strerror e) ∷ []) else s.reported;
        listens = false;
      }

  -- The loop of `on_stream_read`
  unfoldable pub read_fragments : ℕ → PulseStream → Option PulseStream
  unfolding error_stream_callback take_fragment
  read_fragments zero s = none
  read_fragments (suc fuel) s = elim (ltb 0 (pa.readable_size s.server)) [
    | false ↦ some s
    | true ↦
        let (e, fragment, w1) = pa.peek s.server in
        let s1 = record s { server = w1 } in
        elim (is_zero e) [
          | false ↦ some (error_stream_callback s1)
          | true ↦ elim (ltb 0 (fragment_size fragment)) [
            | false ↦ read_fragments fuel s1
            | true ↦ (do
              base ← take_fragment fragment s.base
              let (e', w2) = pa.drop w1
              let s2 = record s { base = base; server = w2 }
              elim (is_zero e') [
                | false ↦ some (error_stream_callback s2)
                | true ↦ read_fragments fuel s2
              ])
          ]
        ]
  ]

  -- `on_stream_write`
  unfoldable pub on_stream_write : ℕ → PulseStream → Option PulseStream
  unfolding error_stream_callback fill
  on_stream_write n s =
      let (e, buffer, w1) = pa.begin_write n s.server in
      let s1 = record s { server = w1 } in
      if not (is_zero e) then some (error_stream_callback s1) else elim buffer [
        | none ↦ some (error_stream_callback s1)
        | some output ↦ (do
          (filled, base) ← fill output s.base
          let (e', w2) = pa.write filled w1
          let s2 = record s { base = base; server = w2 }
          some (if is_zero e' then s2 else error_stream_callback s2))
      ]
