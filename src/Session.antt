-- ===== src/Session.antt =====
-- What audiowire/src/bin/server.rs and client.rs share: after both sides have written one byte, each starts
-- the streams that both can use.
pub mod Agree
pub mod Server
pub mod Client
pub mod Start
pub mod Ends
use audiowire.Base.{
  ℕ, Bool, true, false, ◌&&◌, List, [], ◌∷◌, ◌++◌, Option, Outcome, ok, err, panic, if◌then◌else◌,
}
use audiowire.Config.{Config}
use audiowire.Device.{Driver}
use audiowire.Flags.{StreamType, is_source, is_sink}
use audiowire.Stream.{BaseStream, Direction, capture, playback}
use audiowire.Peer.{IoError}
use audiowire.Handlers.{Error}
use audiowire.Handlers.Task.{open_stream}

-- A stream to start: its direction, and whether its packets are Opus.
abbrev pub Planned : Type 0
Planned = Direction × Bool

-- `handle_client`: playback first, then recording
unfoldable pub server_plan : StreamType → StreamType → Bool → List Planned
server_plan server client opus =
    (if is_sink server && is_source client then (playback, opus) ∷ [] else [])
    ++ (if is_source server && is_sink client then (capture, opus) ∷ [] else [])

-- `run` of the client: recording first, then playback
unfoldable pub client_plan : StreamType → StreamType → Bool → List Planned
client_plan client server opus =
    (if is_source client && is_sink server then (capture, opus) ∷ [] else [])
    ++ (if is_sink client && is_source server then (playback, opus) ∷ [] else [])

-- A spawned task, with the stream that it owns
pub record Task (H : Type 0) : Type 0 where
  pub plan : Planned
  pub stream : BaseStream H

-- What starting leaves: tasks that were spawned before an error go on.
pub record Started (H W : Type 0) : Type 0 where
  pub outcome : Outcome Error Unit
  pub tasks : List (Task H)
  pub world : W

-- What a socket's `write_all` of the own byte and `read_exact` of the other side's byte give
pub record Exchange : Type 0 where
  pub written : Outcome IoError Unit
  pub got : Outcome IoError ℕ

module _ (d : Driver) where
  abbrev pub Run : Type 0
  Run = Started d.Handle d.World

  abbrev pub stopped : Outcome Error Unit → d.World → Run
  stopped o w = record { outcome = o; tasks = []; world = w }

  abbrev pub log_task : Task d.Handle → Run → Run
  log_task t r = record r { tasks = t ∷ r.tasks }

  -- The calls of `handle_playback` and `handle_record`, each with `?`
  unfoldable pub start_all :
      Config → (Direction → Option (List ℕ)) → List ℕ → List Planned → d.World → Run
  start_all c device name [] w = stopped (ok tt) w
  start_all c device name ((dir, opus) ∷ plans) w =
      let (o, w1) = open_stream d dir c (device dir) name w in
      elim o [
        | ok b ↦
            log_task (record { plan = (dir, opus); stream = b }) (start_all c device name plans w1)
        | err e ↦ stopped (err e) w1
        | panic ↦ stopped panic w1
      ]

-- The device of each direction: the input for recording, the output for playback
abbrev pub devices : Option (List ℕ) → Option (List ℕ) → Direction → Option (List ℕ)
devices input output capture = input
devices input output playback = output
