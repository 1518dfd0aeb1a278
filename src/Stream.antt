-- ===== src/Stream.antt =====
-- audiowire/src/audiowire/stream.rs: the streams over libaudiowire. A stream is owned by one task, so a
-- method takes the stream and the driver's world and returns both.
pub mod Start
pub mod Stop
pub mod Callback
pub mod Kinds
use audiowire.Base.{
  ℕ, zero, suc, Bool, true, false, ◌||◌, List, [], ◌∷◌, Option, none, some, String, Outcome, ok,
  err, panic, map_ok, ◌==◌, if◌then◌else◌,
}
use audiowire.Config.{Config, into}
use audiowire.Device.{
  AwResult, DeviceError, StartArgs, Driver, parse_result_value, parse_result_lazy,
}

-- Which of the two start functions, and so which of `RecordStream` and `PlaybackStream`.
pub data Direction : Type 0 where
  capture playback : Direction

-- `BaseStream`, over the type of the driver's handles
pub record BaseStream (H : Type 0) : Type 0 where
  pub handle : H
  pub devname : Option String
  pub running : Bool

-- `StreamBuilder`; `error_cb` is set together with its user data.
pub record StreamBuilder : Type 0 where
  pub config : Config
  pub error_cb : Bool

unfoldable pub builder : Config → StreamBuilder
builder c = record { config = c; error_cb = false }

unfoldable pub with_error_cb : StreamBuilder → StreamBuilder
with_error_cb b = record b { error_cb = true }

-- `CString::new(s).unwrap()` panics on a string with a NUL byte.
abbrev pub has_nul : List ℕ → Bool
has_nul [] = false
has_nul (c ∷ s) = c == 0 || has_nul s

abbrev pub device_has_nul : Option (List ℕ) → Bool
device_has_nul none = false
device_has_nul (some s) = has_nul s

-- The stream after a call whose outcome carries it, or as it was before.
abbrev pub or_else {ℓ} : {E S : Type ℓ} → Outcome E S → S → S
or_else (ok s) s' = s
or_else (err e) s' = s'
or_else panic s' = s'

module _ (d : Driver) where
  open d use {
    World, Handle, aw_start_record, aw_start_playback, aw_device_name, aw_sample_rate,
    aw_buffer_capacity, aw_stop, aw_record_peek, aw_record_read, aw_playback_peek,
    aw_playback_write,
  }

  unfoldable pub new : Handle → World → BaseStream Handle
  new handle w = record { handle = handle; devname = aw_device_name handle w; running = true }

  -- The getters of `Stream`
  unfoldable pub capacity : BaseStream Handle → World → ℕ
  capacity b w = aw_buffer_capacity b.handle w

  unfoldable pub device_name : BaseStream Handle → Option String
  device_name b = b.devname

  unfoldable pub sample_rate : BaseStream Handle → World → ℕ
  sample_rate b w = aw_sample_rate b.handle w

  abbrev pub start_fn : Direction → StartArgs → World → AwResult × Handle × World
  start_fn capture = aw_start_record
  start_fn playback = aw_start_playback

  abbrev pub start_args : Option (List ℕ) → List ℕ → StreamBuilder → StartArgs
  start_args device name b = record {
    devname = device;
    name = name;
    config = into b.config;
    reports_errors = b.error_cb;
  }

  -- The free function `start_stream`
  unfoldable pub start_handle :
      Direction
      → Option (List ℕ)
      → List ℕ
      → StreamBuilder
      → World
      → Outcome DeviceError Handle × World
  unfolding into parse_result_value
  start_handle dir device name b w =
      if device_has_nul device
      then (panic, w)
      else if has_nul name
      then (panic, w)
      else (let (result, stream, w') = start_fn dir (start_args device name b) w in
          (parse_result_value result stream, w'))

  -- `StreamBuilder::start_stream`, and with it `start_record` and `start_playback`
  unfoldable pub start_stream :
      StreamBuilder
      → Direction
      → List ℕ
      → Option (List ℕ)
      → World
      → Outcome DeviceError (BaseStream Handle) × World
  unfolding start_handle new
  start_stream b dir name device w =
      let (result, w') = start_handle dir device name b w in (map_ok (λ s. new s w') result, w')

  -- `Stream::start`: a builder without an error callback
  unfoldable pub start :
      Direction
      → List ℕ
      → Option (List ℕ)
      → Config
      → World
      → Outcome DeviceError (BaseStream Handle) × World
  unfolding start_stream builder
  start dir name device c = start_stream (builder c) dir name device

  -- `Stream::stop`
  unfoldable pub stop :
      BaseStream Handle → World → Outcome DeviceError Unit × BaseStream Handle × World
  unfolding parse_result_lazy
  stop b w =
      if b.running
      then (let (r, w') = aw_stop b.handle w in
          let stopped = parse_result_lazy r (λ u. record b { running = false }) in
          (map_ok (λ b'. tt) stopped, or_else stopped b, w'))
      else (ok tt, b, w)

  -- `peek`, `read` and `write`
  unfoldable pub peek : Direction → BaseStream Handle → World → ℕ
  peek capture b w = aw_record_peek b.handle w
  peek playback b w = aw_playback_peek b.handle w

  unfoldable pub read : BaseStream Handle → ℕ → World → List ℕ × World
  read b n w = aw_record_read b.handle n w

  unfoldable pub write : BaseStream Handle → List ℕ → World → ℕ × World
  write b buf w = aw_playback_write b.handle buf w
