-- ===== src/Tests/Sessions.antt =====
-- Sessions, checks and streams at concrete devices.
use audiowire.Base.{ℕ, ◌+◌, ◌-◌, ◌≡◌, refl, false, List, [], ◌∷◌, Option, none, some, ok}
use mathlib.Core.List.{map}
use audiowire.Config.{default_config}
use audiowire.Device.{DeviceError, Driver, StartArgs, is_ok, initialize, terminate}
use audiowire.Flags.{is_source, is_sink}
use audiowire.Handlers.{device}
use audiowire.Handlers.Task.{open_stream}
use audiowire.Handlers.Check.{check_audio, null_name}
use audiowire.Handlers.Check.Levels.{Levels}
use audiowire.Stream.{Direction, capture, playback, start_fn}
use audiowire.Peer.{unexpected_eof}
use audiowire.Session.{Task, start_all}
use audiowire.Session.Server
use audiowire.Session.Server.{
  Round, Setup, timed_out, failed, connected, handle_client, server_type,
}
use audiowire.Session.Client
use audiowire.Session.Client.{open_session, client_type, stream_flags}
use audiowire.Session.Agree.{mirror, met, server_side, client_side, sessions_mirror}
use audiowire.Session.Ends.{Uneven, server-terminates, client_check_failed}
use audiowire.Tests.Toys.{working, machine, no_error, not_found}

-- The server with both devices, and a client that only records
abbrev null : Option (List ℕ)
null = some null_name

sessions_mirror_example :
    map mirror (
      map
        (λ (t : Task ℕ). t.plan)
        (server_side working working default_config default_config none none none null false [] []
          machine machine).tasks)
    ≡ map
        (λ (t : Task ℕ). t.plan)
        (client_side working working default_config default_config none none none null false [] []
          machine machine).tasks
unfolding handle_client open_session is_source is_sink start_all open_stream client_type
    stream_flags server_type
sessions_mirror_example =
    sessions_mirror working working default_config default_config none none none null false [] []
      machine machine refl refl

-- A listener whose second `accept` fails
abbrev three_rounds : List Round
three_rounds =
    record { term = false; accept = timed_out }
    ∷ record { term = false; accept = failed unexpected_eof }
    ∷ []

abbrev setup : Setup
setup = record { bound = ok tt; local_addr = ok tt; signals = ok tt; rounds = three_rounds }

server-terminates_example :
    (Server.main working default_config null null setup machine).1 ≡ (terminate working machine).1
unfolding initialize Server.run
server-terminates_example =
    server-terminates working default_config null null setup machine machine machine (ok tt) refl
      refl (λ e. cc)

abbrev device_error : DeviceError
device_error = record { code = not_found.code; message = not_found.message }

-- A library without a device, whose world is how often it is initialised
abbrev deviceless : Driver
deviceless = record {
  World = ℕ;
  Handle = ℕ;
  aw_initialize = λ w. (no_error, w + 1);
  aw_terminate = λ w. (no_error, w - 1);
  aw_start_record = λ a w. (not_found, 0, w);
  aw_start_playback = λ a w. (not_found, 0, w);
  aw_device_name = λ h w. none;
  aw_sample_rate = λ h w. 0;
  aw_buffer_capacity = λ h w. 0;
  aw_record_peek = λ h w. 0;
  aw_record_read = λ h n w. ([], w);
  aw_playback_peek = λ h w. 0;
  aw_playback_write = λ h bytes w. (0, w);
  aw_stop = λ h w. (not_found, w);
}

same_start : (dir : Direction) (a : StartArgs) (w : ℕ) → (start_fn deviceless dir a w).2 ≡ w
same_start capture a w = refl
same_start playback a w = refl

deviceless-Levels : Levels deviceless (λ w. w)
deviceless-Levels = record {
  initialized = λ w h. refl;
  terminated = λ w h. refl;
  started = same_start;
  stopped = λ h w. refl;
}

client_check_failed_example :
    Uneven deviceless default_config none none
      (λ w. w)
      deviceless-Levels
      (device device_error)
      0
      (Client.init deviceless default_config none none false
        (λ k. ok tt)
        (met 3)
        []
        (λ ts w. (w, []))
        0)
      (Server.main deviceless default_config none none setup 0)
unfolding check_audio is_ok
client_check_failed_example =
    client_check_failed deviceless default_config none none (λ w. w) deviceless-Levels false
      (λ k. ok tt) (met 3) [] (λ ts w. (w, [])) setup 0 device_error refl refl refl
