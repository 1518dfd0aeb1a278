-- ===== src/Tests/Backends.antt =====
-- A PortAudio with two devices, the errors of a stream, and a PulseAudio.
use audiowire.Base.{
  ℕ, zero, suc, ◌+◌, ◌-◌, ◌<◌, ◌≡◌, refl, ap, arith, Bool, true, false, List, [], ◌∷◌, Option, none,
  some, length, ltb, ℤ, pos, negsuc, if◌then◌else◌,
}
use audiowire.Config.{AwConfig}
use audiowire.Ring.{remaining}
use audiowire.Native.{AwStream}
use audiowire.Native.Pipe.{Carries}
use audiowire.Native.Pulse.{PulseAudio, PulseStream, Fragment, hole, bytes, read_fragments}
use audiowire.Native.Fragments.{Serves, read_fragments-absorb}
use audiowire.Native.PortAudio.{PortAudio, OpenArgs, DeviceInfo, pa_int16}
use audiowire.Native.Devices.{find_device}
use audiowire.Native.Backend.{open_and_start, start_stream, aw_stop, asserted, no_error}
use audiowire.Native.Search.{First, find_device-First}
use audiowire.Native.Starts.{
  Counts, Stopped, started, start_stream-no_default, open_and_start-leaks, start-stop,
}
use audiowire.Stream.Callback.{Shared, Released, on_errors, logging, on_errors-releases}

abbrev microphone : DeviceInfo
microphone = record {
  name = 109 ∷ 105 ∷ 99 ∷ [];
  max_input_channels = 1;
  max_output_channels = 0;
  default_low_input_latency = 5;
  default_low_output_latency = 0;
}

abbrev line_in : DeviceInfo
line_in = record microphone { max_input_channels = 2 }

abbrev describe : Option ℕ → ℕ → Option DeviceInfo
describe none w = none
describe (some zero) w = some microphone
describe (some (suc zero)) w = some line_in
describe (some (suc (suc n))) w = none

abbrev code : Bool → ℤ
code works = if works then pos 0 else negsuc 9998

-- The state is the number of open streams; there is no default device.
abbrev pub library : Bool → PortAudio
library works = record {
  State = ℕ;
  PaStream = Unit;
  initialize = λ w. (pos 0, w);
  terminate = λ w. (pos 0, w);
  get_default_input_device = λ w. none;
  get_default_output_device = λ w. none;
  get_device_count = λ w. 2;
  get_device_info = describe;
  open_stream = λ args w. (pos 0, tt, suc w);
  stream_sample_rate = λ s w. 44100;
  start_stream = λ s w. (code works, w);
  is_stream_active = λ s w. true;
  stop_stream = λ s w. (pos 0, w);
  close_stream = λ s w. if ltb 0 w then (pos 0, w - 1) else (negsuc 9987, w);
  get_error_text = λ e. "error";
}

abbrev same : ℕ → ℕ
same w = w

library-Counts : (works : Bool) → Counts (library works) same
library-Counts works = record {
  opens = λ args w h. refl;
  starts = λ s w. refl;
  stops = λ s w. refl;
  closes = λ s w h. ground arith;
}

abbrev stereo : AwConfig
stereo = record {
  channels = 2;
  sample_rate = 48000;
  sample_format = 0;
  buffer_frames = 2;
  max_buffer_frames = 4;
}

abbrev base : AwStream
base = record {
  ringbuf = record { bytes = 0 ∷ 0 ∷ []; capacity = 2; mask = 1; head = 0; tail = 0 };
  devname = none;
  sample_rate = 0;
  max_bufsize = 2;
  config = stereo;
  error_cb = false;
}

abbrev args : OpenArgs
args = record {
  device = 1;
  is_input = true;
  channel_count = 2;
  sample_format = pa_int16;
  suggested_latency = 5;
  sample_rate = 48000;
  frames_per_buffer = 2;
}

find_device-First_example :
    (r : Option (ℕ × DeviceInfo)) × (find_device (library true) stereo none true 2 0 0 ≡ some r)
    × First (library true) stereo none true 0 2 0 r
find_device-First_example = find_device-First (library true) stereo none true 0 2 0 described
  where
    described : (i : ℕ) → i < 0 + 2 → (info : DeviceInfo) × (describe (some i) 0 ≡ some info)
    described zero h = (microphone, refl)
    described (suc zero) h = (line_in, refl)
    described (suc (suc i)) h = absurd (omega arith)

start_stream-no_default_example :
    start_stream (library true) (λ s. "line in") none stereo true false 0 ≡ none
unfolding asserted
start_stream-no_default_example =
    start_stream-no_default (library true) (λ s. "line in") none stereo true false 0 refl refl refl

open_and_start-leaks_example :
    ((open_and_start (library false) base args 0).0.code ≡ negsuc 9998)
    × ((open_and_start (library false) base args 0).1 ≡ none)
    × ((open_and_start (library false) base args 0).2 ≡ 1)
open_and_start-leaks_example =
    open_and_start-leaks (library false) same (library-Counts false) base args 0 refl refl

start-stop_example :
    (open_and_start (library true) base args 0
      ≡ (no_error, some (started (library true) same (library-Counts true) base tt 1), 1))
    × (1 ≡ suc 0)
    × Stopped
        (library true)
        same
        (library-Counts true)
        (started (library true) same (library-Counts true) base tt 1)
        1
unfolding aw_stop
start-stop_example =
    start-stop (library true) same (library-Counts true) base args 0 1 refl refl refl

-- A logger with two copies, of which one is the stream's
abbrev two_copies : Shared
two_copies = record { copies = 2; lines = [] }

abbrev three_errors : List (ℤ × List ℕ)
three_errors = (negsuc 9987, 120 ∷ []) ∷ (negsuc 9986, []) ∷ (negsuc 9987, 121 ∷ []) ∷ []

on_errors-releases_example :
    Released some three_errors two_copies (on_errors some logging three_errors two_copies)
on_errors-releases_example = on_errors-releases some three_errors two_copies

-- A PulseAudio that holds fragments, and a recording stream over a ring of four bytes
abbrev first : List Fragment → Fragment
first [] = hole 0
first (f ∷ fs) = f

abbrev others : List Fragment → List Fragment
others [] = []
others (f ∷ fs) = fs

abbrev pulse : PulseAudio
pulse = record {
  State = List Fragment;
  readable_size = λ w. length w;
  peek = λ w. (pos 0, first w, w);
  drop = λ w. (pos 0, others w);
  begin_write = λ n w. (pos 0, none, w);
  write = λ bytes w. (pos 0, w);
  errno = λ w. pos 1;
  strerror = λ e. [];
}

abbrev held_fragments : List Fragment → List Fragment
held_fragments w = w

pulse-Serves : Serves pulse held_fragments
pulse-Serves = record {
  empty = λ w e. ap length e;
  more = λ w f fs e. omega (arith, ap length e);
  shows = λ w f fs e. (refl, ap first e, e);
  drops = λ w f fs e. (refl, ap others e);
}

abbrev quad : AwStream
quad = record base {
  ringbuf = record { bytes = 0 ∷ 0 ∷ 0 ∷ 0 ∷ []; capacity = 4; mask = 3; head = 2; tail = 2 };
  max_bufsize = 4;
}

quad-Carries : Carries 2 stereo 4 [] quad
unfolding remaining
quad-Carries = record {
  ring = record {
    valid = record {
      some_bits = omega arith;
      power = refl;
      ones = refl;
      room = refl;
      head_in = omega arith;
      tail_in = omega arith;
    };
    held = refl;
  };
  same_config = refl;
  same_room = refl;
}

abbrev three_fragments : List Fragment
three_fragments = bytes (1 ∷ 2 ∷ []) ∷ hole 5 ∷ bytes (3 ∷ 4 ∷ []) ∷ []

abbrev recording : PulseStream pulse
recording = record { base = quad; server = three_fragments; reported = []; listens = true }

read_fragments-absorb_example :
    (s' : PulseStream pulse) × (read_fragments pulse 4 recording ≡ some s')
    × Carries 2 stereo 4 (1 ∷ 2 ∷ []) s'.base
    × (s'.server ≡ [])
    × (s'.reported ≡ [])
    × (s'.listens ≡ true)
read_fragments-absorb_example =
    read_fragments-absorb 2 stereo 4 pulse held_fragments pulse-Serves three_fragments 4 recording
      [] quad-Carries refl (omega arith, (omega arith, (omega arith, tt))) (omega arith)
