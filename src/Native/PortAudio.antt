-- ===== src/Native/PortAudio.antt =====
-- The PortAudio library, as libaudiowire/src/portaudio.c uses it.
use audiowire.Base.{ℕ, Bool, List, Option, String, ℤ}

-- `PaDeviceInfo`
pub record DeviceInfo : Type 0 where
  pub name : List ℕ
  pub max_input_channels : ℕ
  pub max_output_channels : ℕ
  pub default_low_input_latency : ℕ
  pub default_low_output_latency : ℕ

pub data PaSampleFormat : Type 0 where
  pa_int16 pa_float32 : PaSampleFormat

-- What `Pa_OpenStream` is given; the callback is `on_stream_read` for an input and `on_stream_write` for an output.
pub record OpenArgs : Type 0 where
  pub device : ℕ
  pub is_input : Bool
  pub channel_count : ℕ
  pub sample_format : PaSampleFormat
  pub suggested_latency : ℕ
  pub sample_rate : ℕ
  pub frames_per_buffer : ℕ

-- The PortAudio library: a device index is none for paNoDevice, an information none for a null pointer, and a count
-- below zero, an error, is zero here, as the loop over the devices takes it.
pub record PortAudio : Type 1 where
  pub State : Type 0
  pub PaStream : Type 0
  pub initialize : State → ℤ × State
  pub terminate : State → ℤ × State
  pub get_default_input_device : State → Option ℕ
  pub get_default_output_device : State → Option ℕ
  pub get_device_count : State → ℕ
  pub get_device_info : Option ℕ → State → Option DeviceInfo
  pub open_stream : OpenArgs → State → ℤ × PaStream × State
  pub stream_sample_rate : PaStream → State → ℕ
  pub start_stream : PaStream → State → ℤ × State
  pub is_stream_active : PaStream → State → Bool
  pub stop_stream : PaStream → State → ℤ × State
  pub close_stream : PaStream → State → ℤ × State
  pub get_error_text : ℤ → String
