-- ===== src/Tests/Tables.antt =====
-- A stream of the Rust side over a PortAudio with a default device.
use audiowire.Base.{
  arith, ℕ, ◌≡◌, Bool, refl, true, false, List, [], ◌∷◌, none, some, Outcome, ok, String,
}
use audiowire.Config.{s16, default_config, into, native_buffer_size, aw_sample_size, as_u32}
use audiowire.Handlers.Check.{check_audio}
use audiowire.Handlers.Check.Balance.{Balanced}
use audiowire.Loopback.Ends.{TerminatedFrom}
use audiowire.Device.{DeviceError, initialize}
use audiowire.Native.PortAudio.{PortAudio}
use audiowire.Native.Backend.{
  aw_initialize, aw_terminate, aw_start_playback, aw_start_record, aw_stop,
}
use mathlib.Core.List.{map}
use audiowire.Loopback.{main}
use audiowire.Native.Table.Runs.{
  Callback, gives, asks, moment, run_callbacks, main-allocated, check_audio-allocated,
}
use audiowire.Stream.{StreamBuilder, BaseStream, capture, playback, builder, start_stream, stop}
use audiowire.Handlers.Check.Balance
use audiowire.Native.Table.{Handle, World, native_driver, allocated, stop_at}
use audiowire.Native.Table.Laws.{native_driver-Counts}
use audiowire.Native.Table.Uses.{Owned, stops, stops-Owned_started}
use audiowire.Handlers.Play.{raw_loop}
use audiowire.Handlers.Play.Starves.{Starves}
use audiowire.Native.Table.Starves.{raw_loop-Starves}
use audiowire.Tests.Backends.{library}
use audiowire.Tests.Toys.{socket}

-- The library with a default device
abbrev ready : PortAudio
ready = record (library true) { get_default_input_device = λ w. some 1 }

abbrev no_text : List ℕ → String
no_text s = "line in"

native_driver-Counts_example : Balance.Counts (native_driver ready no_text) (allocated ready)
native_driver-Counts_example = native_driver-Counts ready no_text

abbrev small_builder : StreamBuilder
small_builder = builder (record {
  channels = 2;
  sample_rate = 48000;
  sample_format = s16;
  buffer_frames = 2;
  max_buffer_frames = 4;
})

abbrev nothing_yet : World ready
nothing_yet = record { state = 0; streams = []; crashed = false }

abbrev begun : Outcome DeviceError (BaseStream Handle) × World ready
begun = start_stream (native_driver ready no_text) small_builder capture (109 ∷ []) none nothing_yet

abbrev input : BaseStream Handle
input = record { handle = some 0; devname = some "line in"; running = true }

begun-ok : begun ≡ (ok input, begun.1)
unfolding start_stream aw_start_record builder
begun-ok = refl

stops-Owned_started_example :
    let (s, w) = stops ready no_text 3 input begun.1 in Owned ready no_text s w
stops-Owned_started_example =
    stops-Owned_started ready no_text 3 small_builder capture (109 ∷ []) none nothing_yet begun.1
      input refl begun-ok

-- One stop frees the stream.
begun-freed : allocated ready (stops ready no_text 1 input begun.1).1 ≡ 0
unfolding start_stream aw_start_record stop stop_at aw_stop builder
begun-freed = refl

-- Two devices, each with two channels each way
abbrev duplex : PortAudio
duplex = record ready {
  get_default_output_device = λ w. some 1;
  get_device_info = λ i w. some (record {
    name = [];
    max_input_channels = 2;
    max_output_channels = 2;
    default_low_input_latency = 5;
    default_low_output_latency = 5;
  });
}

abbrev unused : World duplex
unused = record { state = 0; streams = []; crashed = false }

abbrev ended : World duplex
ended = record { state = 0; streams = none ∷ none ∷ []; crashed = false }

-- The loop hears of a signal at once, and the device calls back meanwhile.
abbrev heard : List (Bool × List Callback × List Callback)
heard = (true, gives (some 0) [] 0 ∷ [], asks (some 1) [] 0 ∷ []) ∷ []

initialized : initialize (native_driver duplex no_text) unused ≡ (ok tt, unused)
unfolding initialize aw_initialize
initialized = refl

looped :
    main (native_driver duplex no_text) none none (ok tt) (map (moment duplex no_text) heard) unused
    ≡ (some (ok tt), ended)
unfolding initialize main start_stream stop stop_at aw_initialize aw_terminate aw_start_record
    aw_start_playback aw_stop run_callbacks
looped = refl

main-allocated_example :
    TerminatedFrom
      (native_driver duplex no_text)
      (allocated duplex)
      (native_driver-Counts duplex no_text)
      0
      ended
main-allocated_example =
    main-allocated duplex no_text heard none none (ok tt) unused unused ended initialized looped

check_audio-allocated_example :
    let (o, w) = check_audio (native_driver duplex no_text) default_config none none unused in
    Balanced o (allocated duplex unused) (allocated duplex w)
check_audio-allocated_example = check_audio-allocated duplex no_text default_config none none unused

-- A stream whose max_buffer_frames take 16 bytes, and two moments in which the device asks for frames of it
abbrev loudspeaker : BaseStream Handle
loudspeaker = record { handle = some 0; devname = some "line in"; running = true }

abbrev started : Outcome DeviceError (BaseStream Handle) × World duplex
started = start_stream (native_driver duplex no_text) small_builder playback (109 ∷ []) none unused

started-ok : started ≡ (ok loudspeaker, started.1)
unfolding start_stream aw_start_playback builder
started-ok = refl

-- What the peer has sent
abbrev all_bytes_sent : List ℕ
all_bytes_sent = 1 ∷ 2 ∷ 3 ∷ []

abbrev asked : List (Bool × List Callback × List Callback)
asked =
    (false, asks (some 0) (7 ∷ 7 ∷ 7 ∷ 7 ∷ []) 1 ∷ [], [])
    ∷ (false, [], asks (some 0) [] 0 ∷ [])
    ∷ []

raw_loop-Starves_example : Starves all_bytes_sent (
    raw_loop
      (native_driver duplex no_text)
      socket
      loudspeaker
      16
      (map (moment duplex no_text) asked)
      started.1
      all_bytes_sent)
unfolding native_buffer_size into builder aw_sample_size as_u32
raw_loop-Starves_example =
    raw_loop-Starves duplex no_text 4 (omega arith) socket small_builder (109 ∷ []) none unused
      started.1 loudspeaker 16 asked all_bytes_sent refl (omega arith) (omega arith) started-ok
      (refl, (refl, tt))
