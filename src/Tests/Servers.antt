-- ===== src/Tests/Servers.antt =====
-- A PulseAudio that connects at the second wake-up, and refuses nothing.
use audiowire.Base.{
  ℕ, zero, suc, ◌+◌, ◌≡◌, refl, true, false, List, [], ◌∷◌, none, some, String, pos,
}
use audiowire.Config.{AwConfig}
use audiowire.Native.Backend.{no_error}
use audiowire.Native.Pulse.Client.{
  ContextState, StreamState, connecting, creating, ready, Call, loop_new, loop_get_api, loop_start,
  lock, unlock, wait, context_new, context_set_state_callback, context_connect, context_get_state,
  stream_new, stream_set_state_callback, stream_set_moved_callback, stream_set_write_callback,
  stream_connect, stream_get_state, stream_get_sample_spec, PulseClient,
}
use audiowire.Native.Pulse.Start.{Job, AwPulseStream, start_stream, aw_stop}
use audiowire.Native.Pulse.States.{sample_spec, buffer_attr}
use audiowire.Base.Arrays.{replicate}
use audiowire.Native.Pulse.Order.{SettledIf, start_stream-Settled}
use audiowire.Native.Pulse.Stops.{Stopped, aw_stop-Stopped_started}

abbrev context_after : ℕ → ContextState
context_after zero = connecting
context_after (suc n) = ready

abbrev stream_after : ℕ → StreamState
stream_after zero = creating
stream_after (suc zero) = creating
stream_after (suc (suc n)) = ready

abbrev wakes : Call → ℕ → ℕ
wakes wait n = n + 1
wakes c n = n

-- The state is how often the program has waited.
abbrev server : PulseClient
server = record {
  State = ℕ;
  act = λ c n. (pos 0, wakes c n);
  context_state = context_after;
  stream_state = stream_after;
  context_is_good = λ s. true;
  stream_is_good = λ s. true;
  sample_rate = λ n. 44100;
  device_name = λ n. some "sink";
  errno = λ n. pos 0;
  strerror = λ e. "no error";
}

abbrev two_frames : AwConfig
two_frames = record {
  channels = 2;
  sample_rate = 48000;
  sample_format = 0;
  buffer_frames = 2;
  max_buffer_frames = 4;
}

abbrev text : List ℕ → String
text s = "default"

start_stream-Settled_example :
    SettledIf server (start_stream server 2 text false none (97 ∷ []) two_frames false 0)
start_stream-Settled_example =
    start_stream-Settled server 2 false none (97 ∷ []) two_frames text false 0

abbrev loudspeaker : AwPulseStream server
loudspeaker = record {
  base = record {
    ringbuf = record { bytes = replicate 16 0; capacity = 16; mask = 15; head = 0; tail = 0 };
    devname = some "sink";
    sample_rate = 44100;
    max_bufsize = 16;
    config = two_frames;
    error_cb = false;
  };
  has_handle = true;
}

abbrev done : Job server
done = record {
  state = 2;
  calls =
      loop_new
      ∷ loop_get_api
      ∷ context_new
      ∷ context_set_state_callback
      ∷ context_connect
      ∷ lock
      ∷ loop_start
      ∷ context_get_state
      ∷ wait
      ∷ context_get_state
      ∷ stream_new (97 ∷ []) (sample_spec two_frames)
      ∷ stream_set_state_callback
      ∷ stream_set_moved_callback
      ∷ stream_set_write_callback
      ∷ stream_connect false none (buffer_attr two_frames)
      ∷ stream_get_state
      ∷ wait
      ∷ stream_get_state
      ∷ stream_get_sample_spec
      ∷ unlock
      ∷ [];
}

begun :
    start_stream server 2 text false none (97 ∷ []) two_frames false 0
    ≡ some (no_error, some loudspeaker, done)
unfolding start_stream sample_spec buffer_attr
begun = refl

aw_stop-Stopped_started_example :
    Stopped server (aw_stop server loudspeaker (record done { state = 5 }))
aw_stop-Stopped_started_example =
    aw_stop-Stopped_started server 2 false none (97 ∷ []) two_frames text false 0 5 no_error
      loudspeaker done begun
