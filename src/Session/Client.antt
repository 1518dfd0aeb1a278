-- ===== src/Session/Client.antt =====
-- audiowire/src/bin/client.rs
use audiowire.Base.{
  ℕ, Bool, true, false, not, List, [], ◌∷◌, Option, none, some, Outcome, ok, err, panic,
  if◌then◌else◌,
}
use audiowire.Config.{Config}
use audiowire.Device.{Driver, initialize, terminate}
use audiowire.Flags.{StreamType, StreamFlags, type_of, flags_of, type_from}
use audiowire.Peer.{IoError}
use mathlib.Core.Option
use audiowire.Handlers.{Error, io, join}
use audiowire.Handlers.Check.{is_used, check_audio}
use audiowire.Handlers.Task.{as_error}
use audiowire.Retry.{with_retry}
use audiowire.Session.{Task, Run, Exchange, client_plan, start_all, stopped, devices}

unfoldable pub client_type : Option (List ℕ) → Option (List ℕ) → StreamType
unfolding type_of is_used
client_type input output = type_of (is_used input) (is_used output)

-- `stream_flags`
unfoldable pub stream_flags : Option (List ℕ) → Option (List ℕ) → Bool → StreamFlags
unfolding client_type flags_of
stream_flags input output opus_disabled = flags_of (client_type input output) (not opus_disabled)

-- How a spawned task ended, as `handle.await` tells: a panic is a `JoinError`.
pub data Joined : Type 0 where
  finished panicked : Joined

-- What `for handle in handles { handle.await?; term.store(true) }` leaves: whether every task was joined, and `term`
pub record Waited : Type 0 where
  pub all_joined : Bool
  pub term : Bool

unfoldable pub join_all : List Joined → Bool → Waited
join_all [] term = record { all_joined = true; term = term }
join_all (finished ∷ rest) term = join_all rest true
join_all (panicked ∷ rest) term = record { all_joined = false; term = term }

-- What `run` is answered once it has connected: `peer_addr`, the transfer of the two bytes, and `handle_signal`
pub record Connection : Type 0 where
  pub peer_addr : Outcome IoError Unit
  pub exchange : Exchange
  pub signals : Outcome IoError Unit

module _ (d : Driver) (c : Config) (input output : Option (List ℕ)) (opus_disabled : Bool) where
  -- `run` from the first `write_all` to the last `handle_playback`
  unfoldable pub open_session : Connection → List ℕ → d.World → Run d
  unfolding client_type type_from client_plan start_all
  open_session cn addr w = elim cn.exchange.written [
    | ok u ↦ elim cn.exchange.got [
      | ok byte ↦ elim (type_from {E = IoError} (byte ∷ [])) [
        | ok server ↦ elim cn.signals [
          | ok u2 ↦
              start_all d c (devices input output) addr
                (client_plan (client_type input output) server (not opus_disabled)) w
          | err e ↦ stopped d (err (io e)) w
          | panic ↦ stopped d panic w
        ]
        | err e ↦ stopped d (err (io e)) w
        | panic ↦ stopped d panic w
      ]
      | err e ↦ stopped d (err (io e)) w
      | panic ↦ stopped d panic w
    ]
    | err e ↦ stopped d (err (io e)) w
    | panic ↦ stopped d panic w
  ]

  -- `run` up to the joins: `with_retry` over the answers of `connect`, then the session
  unfoldable pub connect_session :
      (ℕ → Outcome IoError Unit) → Connection → List ℕ → d.World → Option (Run d)
  unfolding with_retry open_session
  connect_session connect cn addr w = elim (with_retry connect).result [
    | none ↦ none
    | some o ↦ elim o [
      | ok u ↦ elim cn.peer_addr [
        | ok u2 ↦ some (open_session cn addr w)
        | err e ↦ some (stopped d (err (io e)) w)
        | panic ↦ some (stopped d panic w)
      ]
      | err e ↦ some (stopped d (err (io e)) w)
      | panic ↦ some (stopped d panic w)
    ]
  ]

  -- What the spawned tasks do until they are joined: to the world, and how each ends
  abbrev pub Tasks : Type 0
  Tasks = List (Task d.Handle) → d.World → d.World × List Joined

  abbrev pub join_session : Tasks → Run d → Outcome Error Unit × d.World
  join_session tasks r = elim r.outcome [
    | ok u ↦
        let (w, ends) = tasks r.tasks r.world in
        (if (join_all ends false).all_joined then ok tt else err join, w)
    | err e ↦ (err e, r.world)
    | panic ↦ (panic, r.world)
  ]

  -- `run`: `none` only if the fuel of `with_retry` ran out
  unfoldable pub run :
      (ℕ → Outcome IoError Unit)
      → Connection
      → List ℕ
      → Tasks
      → d.World
      → Option (Outcome Error Unit × d.World)
  unfolding connect_session join_all
  run connect cn addr tasks w = Option.map (join_session tasks) (connect_session connect cn addr w)

  -- `terminate()?`, and the session's result
  unfoldable pub close : Outcome Error Unit × d.World → Outcome Error Unit × d.World
  unfolding terminate
  close r =
      let (o, w) = terminate d r.1 in
      elim (as_error o) [ ok u ↦ (r.0, w) | err e ↦ (err e, w) | panic ↦ (panic, w) ]

  -- `init` after `run`, which a panic leaves
  abbrev pub after_run : Outcome Error Unit × d.World → Outcome Error Unit × d.World
  after_run (ok u, w) = close (ok u, w)
  after_run (err e, w) = close (err e, w)
  after_run (panic, w) = (panic, w)

  -- `init`: `initialize()?`, `check_audio(…)?`, `run`, `terminate()?`, and the result of `run`
  unfoldable pub init :
      (ℕ → Outcome IoError Unit)
      → Connection
      → List ℕ
      → Tasks
      → d.World
      → Option (Outcome Error Unit × d.World)
  init connect cn addr tasks w =
      let (o, w1) = initialize d w in
      elim (as_error o) [
        | ok u ↦
            let (o2, w2) = check_audio d c input output w1 in
            elim (as_error o2) [
              | ok u2 ↦ Option.map after_run (run connect cn addr tasks w2)
              | err e ↦ some (err e, w2)
              | panic ↦ some (panic, w2)
            ]
        | err e ↦ some (err e, w1)
        | panic ↦ some (panic, w1)
      ]
