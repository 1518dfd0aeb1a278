-- ===== src/Native/Backend.antt =====
-- libaudiowire/src/portaudio.c, as it is built for other systems than Windows: how a stream starts and stops.
--
-- `none` is an assertion that fails, a null pointer that is read, or a variable that is read before it is set.
use audiowire.Base.{
  ℕ, zero, suc, Bool, true, false, not, ◌&&◌, List, Option, none, some, String, ltb, leb,
  if◌then◌else◌, ℤ, pos, negsuc,
}
use audiowire.Config.{AwConfig}
use audiowire.Device.{AwResult, is_zero}
use audiowire.Ring.{◌>>=◌}
use audiowire.Native.{AwStream, aw_stream_base_init}
use audiowire.Native.PortAudio.{
  PortAudio, DeviceInfo, OpenArgs, PaSampleFormat, pa_int16, pa_float32,
}
use audiowire.Native.Devices.{choose_device}

abbrev pub max_buffer_frames : ℕ
max_buffer_frames = 65536

-- The assertions at the start of `start_stream`
unfoldable pub asserted : AwConfig → Bool
asserted cfg =
    ltb 0 cfg.buffer_frames
    && (ltb 0 cfg.max_buffer_frames
        && (leb cfg.buffer_frames cfg.max_buffer_frames
            && leb cfg.max_buffer_frames max_buffer_frames))

unfoldable pub pa_format : ℕ → Option PaSampleFormat
pa_format zero = some pa_int16
pa_format (suc zero) = some pa_float32
pa_format (suc (suc n)) = none

abbrev pub no_error : AwResult
no_error = record { code = pos 0; message = none }

module _ (pa : PortAudio) where
  open pa use {State, PaStream}

  -- `struct aw_stream`
  pub record AwPaStream : Type 0 where
    pub base : AwStream
    pub handle : Option PaStream

  abbrev failed : ℤ → State → AwResult × Option AwPaStream × State
  failed e w = (record { code = e; message = some (pa.get_error_text e) }, none, w)

  abbrev pub open_args : AwConfig → Bool → ℕ → DeviceInfo → PaSampleFormat → OpenArgs
  open_args cfg is_input device info format = record {
    device = device;
    is_input = is_input;
    channel_count = cfg.channels;
    sample_format = format;
    suggested_latency =
        if is_input then info.default_low_input_latency else info.default_low_output_latency;
    sample_rate = cfg.sample_rate;
    frames_per_buffer = cfg.buffer_frames;
  }

  -- `start_stream` from the opening of the stream on
  unfoldable pub open_and_start : AwStream → OpenArgs → State → AwResult × Option AwPaStream × State
  open_and_start base args w =
      let (e, handle, w1) = pa.open_stream args w in
      if not (is_zero e)
      then failed e w1
      else (let (e', w2) = pa.start_stream handle w1 in
          if not (is_zero e') then failed e' w2 else (
            no_error,
            some (record {
              base = record base { sample_rate = pa.stream_sample_rate handle w1 };
              handle = some handle;
            }),
            w2,
          ))

  -- `start_stream`; `to_text` decodes a device's name.
  unfoldable pub start_stream :
      (List ℕ → String)
      → Option (List ℕ)
      → AwConfig
      → Bool
      → Bool
      → State
      → Option (AwResult × Option AwPaStream × State)
  unfolding asserted choose_device aw_stream_base_init pa_format open_and_start
  start_stream to_text devname cfg is_input error_cb w =
      if asserted cfg
      then (do
        chosen ← choose_device pa cfg devname is_input w
        elim chosen [
          | none ↦ some (record { code = negsuc 0; message = some "Device not found" }, none, w)
          | some (device, info) ↦ (do
            base ← aw_stream_base_init cfg (some (to_text info.name)) error_cb
            format ← pa_format cfg.sample_format
            some (open_and_start base (open_args cfg is_input device info format) w))
        ])
      else none

  abbrev with_text : ℤ × State → AwResult × State
  with_text (e, w) =
      if is_zero e
      then (no_error, w)
      else (record { code = e; message = some (pa.get_error_text e) }, w)

  unfoldable pub aw_initialize : State → AwResult × State
  aw_initialize w = with_text (pa.initialize w)

  unfoldable pub aw_terminate : State → AwResult × State
  aw_terminate w = with_text (pa.terminate w)

  -- The name of the stream is not used.
  unfoldable pub aw_start_record :
      (List ℕ → String)
      → Option (List ℕ)
      → List ℕ
      → AwConfig
      → Bool
      → State
      → Option (AwResult × Option AwPaStream × State)
  unfolding start_stream
  aw_start_record to_text devname name cfg error_cb = start_stream to_text devname cfg true error_cb

  unfoldable pub aw_start_playback :
      (List ℕ → String)
      → Option (List ℕ)
      → List ℕ
      → AwConfig
      → Bool
      → State
      → Option (AwResult × Option AwPaStream × State)
  unfolding start_stream
  aw_start_playback to_text devname name cfg error_cb =
      start_stream to_text devname cfg false error_cb

  -- `aw_stop`, with the stream that is left, which is none once it is freed
  unfoldable pub aw_stop : AwPaStream → State → AwResult × Option AwPaStream × State
  aw_stop stream w = elim stream.handle [
    | none ↦ (no_error, none, w)
    | some handle ↦
        let (e, w1) =
          if pa.is_stream_active handle w then pa.stop_stream handle w else (pos 0, w) in
        if not (is_zero e)
        then (record { code = e; message = some (pa.get_error_text e) }, some stream, w1)
        else (let (e', w2) = pa.close_stream handle w1 in
            if not (is_zero e')
            then (record { code = e'; message = some (pa.get_error_text e') }, some stream, w2)
            else (no_error, none, w2))
  ]
