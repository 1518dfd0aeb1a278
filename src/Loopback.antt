-- ===== src/Loopback.antt =====
-- audiowire/src/bin/loopback.rs: a recording stream whose buffers are played back on the same machine.
pub mod Ends
use audiowire.Base.{
  ℕ, Bool, true, false, List, [], ◌∷◌, Option, none, some, Outcome, ok, err, panic, leb,
}
use audiowire.Config.{Config, f32, buffer_size}
use audiowire.Device.{Driver, DeviceError, initialize, terminate}
use audiowire.Stream.{
  BaseStream, capture, playback, builder, with_error_cb, start_stream, stop, peek, read, write,
}
use audiowire.Handlers.{Moment, Error, device, io}
use audiowire.Peer.{IoError}
use audiowire.Handlers.Record.{Control, outer, inner}

abbrev pub config : Config
config = record {
  channels = 2;
  sample_rate = 48000;
  sample_format = f32;
  buffer_frames = 480;
  max_buffer_frames = 4800;
}

-- `"Source"` and `"Sink"`
abbrev pub source_name : List ℕ
source_name = b'S' ∷ b'o' ∷ b'u' ∷ b'r' ∷ b'c' ∷ b'e' ∷ []

abbrev pub sink_name : List ℕ
sink_name = b'S' ∷ b'i' ∷ b'n' ∷ b'k' ∷ []

-- What the loop leaves: whether a signal has ended it, and the world.
pub record Looped (W : Type 0) : Type 0 where
  pub ended : Bool
  pub world : W

module _ (d : Driver) where
  -- What `main` leaves: its result (`none` while it runs), and the world.
  abbrev pub Result : Type 0
  Result = Option (Outcome Error Unit) × d.World

  -- `?`
  abbrev pub attempt :
      {A : Type 0} → Outcome DeviceError A × d.World → (A → d.World → Result) → Result
  attempt r f = elim r.0 [
    | ok a ↦ f a r.1
    | err e ↦ (some (err (device e)), r.1)
    | panic ↦ (some panic, r.1)
  ]

  -- `handle_signal()?`, and on
  abbrev pub registered : Outcome IoError Unit → (d.World → Result) → d.World → Result
  registered (ok u) f w = f w
  registered (err e) f w = (some (err (io e)), w)
  registered panic f w = (some panic, w)

  -- The rest of a `stop`'s result, without the stream
  abbrev pub stopped : BaseStream d.Handle → d.World → Outcome DeviceError Unit × d.World
  stopped b w = let (o, b', w') = stop d b w in (o, w')

  -- The end of `main`: `terminate()?` and `Ok(())`
  abbrev pub close_library : d.World → Result
  close_library w = attempt (terminate d w) (λ u w1. (some (ok tt), w1))

  -- `playback.stop()?`, and on
  abbrev pub close_playback : BaseStream d.Handle → d.World → Result
  close_playback play w = attempt (stopped play w) (λ u. close_library)

  -- `record.stop()?`, and on
  unfoldable pub close : BaseStream d.Handle → BaseStream d.Handle → d.World → Result
  unfolding stop terminate
  close rec play w = attempt (stopped rec w) (λ u. close_playback play)

  module _ (rec play : BaseStream d.Handle) where
    -- The two loops, over a buffer of `n` bytes: what is read is written at once.
    unfoldable pub loop : ℕ → List (Moment d.World) → Control → d.World → Looped d.World
    unfolding peek read write
    loop n [] c w = record { ended = false; world = w }
    loop n (m ∷ ms) outer w = elim m.term [
      | true ↦ record { ended = true; world = w }
      | false ↦ loop n ms inner w
    ]
    loop n (m ∷ ms) inner w =
        let w1 = m.before w in
        elim (leb n (peek d capture rec w1)) [
          | true ↦
              let (bytes, w2) = read d rec n w1 in
              loop n ms inner (write d play bytes (m.during w2)).1
          | false ↦ loop n ms outer w1
        ]

    -- `main` from the loop on
    unfoldable pub run : List (Moment d.World) → d.World → Result
    unfolding loop close buffer_size
    run ms w =
        let l = loop (buffer_size config) ms outer w in
        elim l.ended [ true ↦ close rec play l.world | false ↦ (none, l.world) ]

  -- `main` from the start of the playback stream on
  abbrev pub open_playback :
      Option (List ℕ)
      → Outcome IoError Unit
      → List (Moment d.World)
      → BaseStream d.Handle
      → d.World
      → Result
  open_playback output signals ms rec w =
      attempt (start_stream d (with_error_cb (builder config)) playback sink_name output w)
        (λ play. registered signals (run rec play ms))

  -- `main` from the start of the recording stream on
  abbrev pub open_record :
      Option (List ℕ)
      → Option (List ℕ)
      → Outcome IoError Unit
      → List (Moment d.World)
      → d.World
      → Result
  open_record input output signals ms w =
      attempt (start_stream d (with_error_cb (builder config)) capture source_name input w)
        (open_playback output signals ms)

  -- `main`; `signals` is what `handle_signal` returns.
  unfoldable pub main :
      Option (List ℕ)
      → Option (List ℕ)
      → Outcome IoError Unit
      → List (Moment d.World)
      → d.World
      → Result
  unfolding initialize start_stream with_error_cb builder run
  main input output signals ms w =
      attempt (initialize d w) (λ u. open_record input output signals ms)
