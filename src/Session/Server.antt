-- ===== src/Session/Server.antt =====
-- audiowire/src/bin/server.rs
use audiowire.Base.{
  ℕ, Bool, true, false, List, [], ◌∷◌, Option, none, some, Outcome, ok, err, panic, ◌>>◌,
}
use audiowire.Config.{Config}
use audiowire.Device.{Driver, initialize, terminate}
use audiowire.Flags.{StreamType, type_of, flags_from, stream_type, opus_enabled}
use audiowire.Peer.{IoError}
use audiowire.Handlers.{Error, io}
use audiowire.Handlers.Check.{is_used, check_audio}
use audiowire.Session.{Run, Exchange, server_plan, start_all, stopped, devices}
use audiowire.Handlers.Task.{as_error}

unfoldable pub server_type : Option (List ℕ) → Option (List ℕ) → StreamType
unfolding type_of is_used
server_type input output = type_of (is_used input) (is_used output)

-- One `accept`, given up after a second
pub data Accept : Type 0 where
  timed_out : Accept
  failed : IoError → Accept
  connected : Exchange → List ℕ → Accept

-- One round of the loop: `term` as it is loaded, and what `accept` gives
pub record Round : Type 0 where
  pub term : Bool
  pub accept : Accept

-- What happens to a server: the answers of `bind` and `local_addr`, what `handle_signal` returns, and the rounds
pub record Setup : Type 0 where
  pub bound : Outcome IoError Unit
  pub local_addr : Outcome IoError Unit
  pub signals : Outcome IoError Unit
  pub rounds : List Round

-- The devices of the command line, the output before the input: `args.nth(1)` and `args.next()`
unfoldable pub server_args : List (List ℕ) → Option (List ℕ) × Option (List ℕ)
server_args [] = (none, none)
server_args (program ∷ []) = (none, none)
server_args (program ∷ output ∷ []) = (some output, none)
server_args (program ∷ output ∷ input ∷ rest) = (some output, some input)

module _ (d : Driver) (c : Config) (input output : Option (List ℕ)) where
  -- The rest of the 16 bytes of `buf` stays zero, and only the first is read.
  unfoldable pub handle_client : StreamType → Exchange → List ℕ → d.World → Run d
  unfolding flags_from stream_type opus_enabled server_plan start_all
  handle_client own ex addr w = elim ex.written [
    | ok u ↦ elim ex.got [
      | ok byte ↦ elim (flags_from {E = IoError} (byte ∷ [])) [
        | ok flags ↦
            start_all d c (devices input output) addr
              (server_plan own (stream_type flags) (opus_enabled flags)) w
        | err e ↦ stopped d (err (io e)) w
        | panic ↦ stopped d panic w
      ]
      | err e ↦ stopped d (err (io e)) w
      | panic ↦ stopped d panic w
    ]
    | err e ↦ stopped d (err (io e)) w
    | panic ↦ stopped d panic w
  ]

  -- What `listen_tcp` leaves: its outcome (`none` while it runs), what became of each client, and the world
  pub record Listened : Type 0 where
    pub outcome : Option (Outcome Error Unit)
    pub clients : List (Run d)
    pub world : d.World

  abbrev closed : Option (Outcome Error Unit) → d.World → Listened
  closed o w = record { outcome = o; clients = []; world = w }

  abbrev log_client : Run d → Listened → Listened
  log_client x r = record r { clients = x ∷ r.clients }

  -- The loop of `listen_tcp`: the error of a client is logged, a panic unwinds.
  unfoldable pub listen_loop : List Round → d.World → Listened
  unfolding handle_client server_type
  listen_loop [] w = closed none w
  listen_loop (x ∷ xs) w = elim x.term [
    | true ↦ closed (some (ok tt)) w
    | false ↦ elim x.accept [
      | timed_out ↦ listen_loop xs w
      | failed e ↦ closed (some (err (io e))) w
      | connected ex addr ↦
          let r = handle_client (server_type input output) ex addr w in
          log_client r (elim r.outcome [
            | ok u ↦ listen_loop xs r.world
            | err e ↦ listen_loop xs r.world
            | panic ↦ closed (some panic) r.world
          ])
    ]
  ]

  -- `listen_tcp`: three calls with `?`, and the loop
  unfoldable pub listen_tcp : Setup → d.World → Listened
  unfolding listen_loop
  listen_tcp x w = elim (x.bound >> (x.local_addr >> x.signals)) [
    | ok u ↦ listen_loop x.rounds w
    | err e ↦ closed (some (err (io e))) w
    | panic ↦ closed (some panic) w
  ]

  -- `listen_tcp(…).await.map_err(…).unwrap_or_default()`
  abbrev pub logged : Option (Outcome Error Unit) → Option (Outcome Error Unit)
  logged none = none
  logged (some (ok u)) = some (ok u)
  logged (some (err e)) = some (ok tt)
  logged (some panic) = some panic

  -- `run`: `check_audio(…)?`, then the listener, whose error is only logged. `none` while it listens.
  unfoldable pub run : Setup → d.World → Option (Outcome Error Unit) × d.World
  unfolding check_audio listen_tcp
  run xs w =
      let (o, w1) = check_audio d c input output w in
      elim (as_error o) [
        | ok u ↦ let l = listen_tcp xs w1 in (logged l.outcome, l.world)
        | err e ↦ (some (err e), w1)
        | panic ↦ (some panic, w1)
      ]

  -- `terminate()?`, then the result of `run`
  unfoldable pub close : Outcome Error Unit → d.World → Option (Outcome Error Unit) × d.World
  unfolding terminate
  close result w =
      let (o, w1) = terminate d w in
      elim (as_error o) [
        | ok u ↦ (some result, w1)
        | err e ↦ (some (err e), w1)
        | panic ↦ (some panic, w1)
      ]

  -- `main` after `run`, which a panic leaves
  abbrev pub after_run :
      Option (Outcome Error Unit) × d.World → Option (Outcome Error Unit) × d.World
  after_run (none, w) = (none, w)
  after_run (some (ok u), w) = close (ok u) w
  after_run (some (err e), w) = close (err e) w
  after_run (some panic, w) = (some panic, w)

  -- `main`: `initialize()?`, `run`, `terminate()?`, and then the result of `run`
  unfoldable pub main : Setup → d.World → Option (Outcome Error Unit) × d.World
  main xs w =
      let (o, w1) = initialize d w in
      elim (as_error o) [
        | ok u ↦ after_run (run xs w1)
        | err e ↦ (some (err e), w1)
        | panic ↦ (some panic, w1)
      ]
