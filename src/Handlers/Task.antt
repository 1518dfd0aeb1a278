-- ===== src/Handlers/Task.antt =====
-- audiowire/src/handlers.rs: `handle_playback` and `handle_record`, which start a stream and spawn the task that owns it.
pub mod Ends
use audiowire.Base.{ℕ, Bool, List, Option, none, some, Outcome, ok, err, panic, if◌then◌else◌}
use audiowire.Config.{Config}
use audiowire.Device.{Driver, DeviceError}
use audiowire.Stream.{BaseStream, Direction, builder, with_error_cb, start_stream, stop}
use audiowire.Opus.{Encoder, Decoder}
use audiowire.Handlers.{Error, device, Moment}
use audiowire.Handlers.Peers.{Reader, Writer}
use audiowire.Handlers.Play
use audiowire.Handlers.Record

abbrev pub as_error : {A : Type 0} → Outcome DeviceError A → Outcome Error A
as_error (ok a) = ok a
as_error (err e) = err (device e)
as_error panic = panic

module _ (d : Driver) where
  -- Before the task: `start_playback` or `start_record` with the error callback, and `?`.
  unfoldable pub open_stream :
      Direction
      → Config
      → Option (List ℕ)
      → List ℕ
      → d.World
      → Outcome Error (BaseStream d.Handle) × d.World
  unfolding start_stream with_error_cb builder
  open_stream dir c dev name w =
      let (o, w') = start_stream d (with_error_cb (builder c)) dir name dev w in (as_error o, w')

  -- The end of the task: a result or an error of the loop is followed by `stop`; a panic unwinds past it, and a
  -- loop that still runs has not come to it.
  unfoldable pub finish :
      Option (Outcome Error Unit) → BaseStream d.Handle → d.World → BaseStream d.Handle × d.World
  unfolding stop
  finish none b w = (b, w)
  finish (some (ok u)) b w = let (o, b', w') = stop d b w in (b', w')
  finish (some (err e)) b w = let (o, b', w') = stop d b w in (b', w')
  finish (some panic) b w = (b, w)

  module _ (b : BaseStream d.Handle) (c : Config) (opus_enabled : Bool) (ms : List (Moment d.World))
      (w : d.World) where
    unfoldable pub playback_task : (r : Reader) → Decoder → r.State → BaseStream d.Handle × d.World
    unfolding finish Play.handle_opus_playback_stream Play.handle_raw_playback_stream
    playback_task r dec p =
        let out =
          if opus_enabled
          then Play.handle_opus_playback_stream d r dec b c ms w p
          else Play.handle_raw_playback_stream d r b c ms w p in
        finish out.outcome b out.world

    unfoldable pub record_task : (r : Writer) → Encoder → r.State → BaseStream d.Handle × d.World
    unfolding finish Record.handle_opus_record_stream Record.handle_raw_record_stream
    record_task r enc p =
        let out =
          if opus_enabled
          then Record.handle_opus_record_stream d r enc b c ms w p
          else Record.handle_raw_record_stream d r b c ms w p in
        finish out.outcome b out.world
