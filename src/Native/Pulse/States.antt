-- ===== src/Native/Pulse/States.antt =====
-- libaudiowire/src/pulseaudio.c: what a stream is asked to be, and the callbacks of the states.
use audiowire.Base.{ℕ, zero, suc, ◌-◌, ◌%◌, ◌^◌, Bool, true, false, Option, String}
use audiowire.Config.{AwConfig, native_buffer_size}
use audiowire.Native.{AwStream}
use audiowire.Native.Pulse.Client.{
  ContextState, StreamState, unconnected, connecting, authorizing, setting_name, creating, ready,
  failed, terminated, SampleFormat, zeroed, s16le, float32le, SampleSpec, BufferAttr,
}

unfoldable pub pulse_format : ℕ → SampleFormat
pulse_format zero = s16le
pulse_format (suc zero) = float32le
pulse_format (suc (suc n)) = zeroed

unfoldable pub sample_spec : AwConfig → SampleSpec
unfolding pulse_format
sample_spec cfg = record {
  format = pulse_format cfg.sample_format;
  rate = cfg.sample_rate;
  channels = cfg.channels % 256;
}

-- The fields have 32 bits.
unfoldable pub buffer_attr : AwConfig → BufferAttr
unfolding native_buffer_size
buffer_attr cfg =
    let bufsize = native_buffer_size cfg cfg.buffer_frames % 2 ^ 32 in
    record {
      maxlength = 2 ^ 32 - 1;
      tlength = bufsize;
      prebuf = 2 ^ 32 - 1;
      minreq = bufsize;
      fragsize = bufsize;
    }

-- `on_context_state`: whether it signals the main loop
unfoldable pub on_context_state : ContextState → Bool
on_context_state unconnected = false
on_context_state connecting = false
on_context_state authorizing = false
on_context_state setting_name = false
on_context_state ready = true
on_context_state failed = true
on_context_state terminated = true

abbrev pub is_context_ready : ContextState → Bool
is_context_ready unconnected = false
is_context_ready connecting = false
is_context_ready authorizing = false
is_context_ready setting_name = false
is_context_ready ready = true
is_context_ready failed = false
is_context_ready terminated = false

abbrev pub is_stream_ready : StreamState → Bool
is_stream_ready unconnected = false
is_stream_ready creating = false
is_stream_ready ready = true
is_stream_ready failed = false
is_stream_ready terminated = false

-- `on_stream_state`, which is given the device's name, with whether it signals the main loop
unfoldable pub on_stream_state : StreamState → Option String → AwStream → AwStream × Bool
on_stream_state unconnected name base = (base, false)
on_stream_state creating name base = (base, false)
on_stream_state ready name base = (record base { devname = name }, true)
on_stream_state failed name base = (base, true)
on_stream_state terminated name base = (base, true)

unfoldable pub on_stream_moved : Option String → AwStream → AwStream
on_stream_moved name base = record base { devname = name }
