-- ===== src/Native.antt =====
-- The part of libaudiowire (src/internals.h, src/common.c and the callbacks of src/portaudio.c) that moves sound
-- through the ring of a stream.
--
-- A buffer is a list of bytes; `none` is an access outside a buffer.
pub mod Fifo
pub mod Events
pub mod Pipe
pub mod Lifetime
pub mod Powers
pub mod PortAudio
pub mod Devices
pub mod Backend
pub mod Search
pub mod Starts
pub mod Pulse
pub mod Fragments
pub mod Table
use audiowire.Base.{
  ℕ, ◌+◌, Bool, List, [], ◌∷◌, ◌++◌, Option, none, some, String, length, drop, leb, if◌then◌else◌,
}
use audiowire.Base.Arrays.{replicate}
use audiowire.Config.{AwConfig, native_buffer_size}
use audiowire.Ring.{Ring, ◌>>=◌, load, create, capacity, available, remaining, push, pop_back_from}

-- `aw_stream_base_t`
pub record AwStream : Type 0 where
  pub ringbuf : Ring
  pub devname : Option String
  pub sample_rate : ℕ
  pub max_bufsize : ℕ
  pub config : AwConfig
  pub error_cb : Bool

-- `aw_stream_base_init`
unfoldable pub aw_stream_base_init : AwConfig → Option String → Bool → Option AwStream
unfolding native_buffer_size create
aw_stream_base_init cfg devname error_cb =
    let max_bufsize = native_buffer_size cfg cfg.max_buffer_frames in
    (do
      ringbuf ← create max_bufsize
      some (record {
        ringbuf = ringbuf;
        devname = devname;
        sample_rate = 0;
        max_bufsize = max_bufsize;
        config = cfg;
        error_cb = error_cb;
      }))

abbrev with_ring : {A : Type 0} → AwStream → Option (A × Ring) → Option (A × AwStream)
with_ring s none = none
with_ring s (some (a, rb)) = some (a, record s { ringbuf = rb })

unfoldable pub aw_buffer_capacity : AwStream → ℕ
unfolding capacity
aw_buffer_capacity s = capacity s.ringbuf

unfoldable pub aw_record_peek : AwStream → ℕ
unfolding remaining
aw_record_peek s = remaining s.ringbuf

-- Into a buffer of `bufsize` bytes
unfoldable pub aw_record_read : AwStream → ℕ → Option (List ℕ × AwStream)
unfolding pop_back_from
aw_record_read s bufsize = with_ring s (pop_back_from s.ringbuf bufsize s.max_bufsize)

unfoldable pub aw_playback_peek : AwStream → ℕ
unfolding available
aw_playback_peek s = available s.ringbuf

unfoldable pub aw_playback_write : AwStream → List ℕ → Option (ℕ × AwStream)
unfolding push
aw_playback_write s buf = with_ring s (push s.ringbuf buf)

-- Bytes copied to the start of a buffer
abbrev pub over : List ℕ → List ℕ → List ℕ
over bytes buffer = bytes ++ drop (length bytes) buffer

-- `on_stream_read`: the device gives `count` frames.
unfoldable pub on_stream_read : AwStream → List ℕ → ℕ → Option AwStream
unfolding native_buffer_size available push
on_stream_read s input count =
    let bufsize = native_buffer_size s.config count in
    if leb bufsize (available s.ringbuf)
    then (do
      block ← load input 0 bufsize
      (n, rb) ← push s.ringbuf block
      some (record s { ringbuf = rb }))
    else some s

-- `on_stream_write`: the device asks for `count` frames, in `output`.
unfoldable pub on_stream_write : AwStream → List ℕ → ℕ → Option (List ℕ × AwStream)
unfolding native_buffer_size remaining pop_back_from
on_stream_write s output count =
    let bufsize = native_buffer_size s.config count in
    if leb bufsize (length output)
    then if leb bufsize (remaining s.ringbuf)
      then (do
        (out, rb) ← pop_back_from s.ringbuf bufsize s.max_bufsize
        some (over out output, record s { ringbuf = rb }))
      else some (over (replicate bufsize 0) output, s)
    else none
