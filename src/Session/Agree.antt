-- ===== src/Session/Agree.antt =====
-- The two sides of a connection start streams that fit together.
use audiowire.Base.{
  ℕ, ◌≡◌, refl, sym, ap, ◌∙◌, Bool, true, false, not, ◌&&◌, List, [], ◌∷◌, ◌++◌, Option, Outcome,
  ok, err, panic, if◌then◌else◌,
}
use mathlib.Core.List.{map}
use audiowire.Config.{Config}
use audiowire.Device.{Driver}
use audiowire.Flags.{StreamType, StreamFlags, type_of, flags_of, stream_type, opus_enabled}
use audiowire.Flags.Laws.{flags_roundtrip, type_roundtrip}
use audiowire.Stream.{BaseStream, Direction, capture, playback}
use audiowire.Handlers.{Error}
use audiowire.Handlers.Task.{open_stream}
use audiowire.Handlers.Check.{is_used}
use audiowire.Session.{Planned, Task, Run, Exchange, server_plan, client_plan, start_all, devices}
use audiowire.Session.Server.{server_type, handle_client}
use audiowire.Session.Client.{client_type, stream_flags, Connection, open_session}

-- The other end of a stream
abbrev pub mirror : Planned → Planned
mirror (capture, opus) = (playback, opus)
mirror (playback, opus) = (capture, opus)

plans_by_bits :
    (source sink source' sink' opus : Bool)
    → map mirror (
        (if sink && source' then (playback, opus) ∷ [] else [])
        ++ (if source && sink' then (capture, opus) ∷ [] else []))
      ≡ (if source' && sink then (capture, opus) ∷ [] else [])
        ++ (if sink' && source then (playback, opus) ∷ [] else [])
plans_by_bits true true true true opus = refl
plans_by_bits true true true false opus = refl
plans_by_bits true true false true opus = refl
plans_by_bits true true false false opus = refl
plans_by_bits true false true true opus = refl
plans_by_bits true false true false opus = refl
plans_by_bits true false false true opus = refl
plans_by_bits true false false false opus = refl
plans_by_bits false true true true opus = refl
plans_by_bits false true true false opus = refl
plans_by_bits false true false true opus = refl
plans_by_bits false true false false opus = refl
plans_by_bits false false true true opus = refl
plans_by_bits false false true false opus = refl
plans_by_bits false false false true opus = refl
plans_by_bits false false false false opus = refl

plans_by_flags :
    (source sink source' sink' opus : Bool)
    → let flags = flags_of (type_of source' sink') opus in
      map mirror (server_plan (type_of source sink) (stream_type flags) (opus_enabled flags))
      ≡ client_plan (type_of source' sink') (type_of source sink) opus
unfolding server_plan client_plan
plans_by_flags source sink source' sink' opus =
    let (e1, e2, e3, e4) = flags_roundtrip source' sink' opus in
    let (f1, f2) = type_roundtrip source sink in
    let (g1, g2) = type_roundtrip source' sink' in
    rw (e1, e2, e3, f1, f2, g1, g2) (plans_by_bits source sink source' sink' opus)

-- Whatever devices the two command lines name and whether Opus is enabled, the streams that the server plans
-- from the client's byte and those that the client plans from the server's byte are the two ends of the same
-- streams, in the same order and with the same choice about Opus.
pub plans_mirror :
    (in1 out1 in2 out2 : Option (List ℕ)) (opus_disabled : Bool)
    → let flags = stream_flags in2 out2 opus_disabled in
      map mirror (server_plan (server_type in1 out1) (stream_type flags) (opus_enabled flags))
      ≡ client_plan (client_type in2 out2) (server_type in1 out1) (not opus_disabled)
unfolding server_type client_type stream_flags
plans_mirror in1 out1 in2 out2 opus_disabled =
    plans_by_flags (is_used in1) (is_used out1) (is_used in2) (is_used out2) (not opus_disabled)

module _ (d : Driver) (c : Config) (device : Direction → Option (List ℕ)) (name : List ℕ) where
  abbrev plans_of : Run d → List Planned
  plans_of r = map (λ (t : Task d.Handle). t.plan) r.tasks

  start_step :
      (dir : Direction) (opus : Bool) (plans : List Planned) (w : d.World)
      (o : Outcome Error (BaseStream d.Handle))
      → (open_stream d dir c (device dir) name w).0 ≡ o
      → ((w' : d.World)
          → (start_all d c device name plans w').outcome ≡ ok tt
          → plans_of (start_all d c device name plans w') ≡ plans)
      → (start_all d c device name ((dir, opus) ∷ plans) w).outcome ≡ ok tt
      → plans_of (start_all d c device name ((dir, opus) ∷ plans) w) ≡ (dir, opus) ∷ plans
  unfolding start_all
  start_step dir opus plans w (ok b) e ih done =
      rw (e, start_all) (ap (λ l. (dir, opus) ∷ l) (ih _ (rw (e, start_all) at done)))
  start_step dir opus plans w (err x) e ih done = cc (rw (e, start_all) at done)
  start_step dir opus plans w panic e ih done = cc (rw (e, start_all) at done)

  -- When every start succeeds, the tasks are the planned ones, in order.
  pub start_all-plans :
      (plans : List Planned) (w : d.World)
      → (start_all d c device name plans w).outcome ≡ ok tt
      → plans_of (start_all d c device name plans w) ≡ plans
  start_all-plans [] w done = unfold start_all in refl
  start_all-plans ((dir, opus) ∷ plans) w done =
      start_step dir opus plans w _ refl (start_all-plans plans) done

-- An exchange in which both transfers succeed
abbrev pub heard : ℕ → Exchange
heard byte = record { written = ok tt; got = ok byte }

-- A connection of the client in which each call succeeds
abbrev pub met : ℕ → Connection
met byte = record { peer_addr = ok tt; exchange = heard byte; signals = ok tt }

server_heard :
    (d : Driver) (c : Config) (input output : Option (List ℕ)) (own : StreamType)
    (flags : StreamFlags) (addr : List ℕ) (w : d.World)
    → handle_client d c input output own (heard flags.value) addr w
      ≡ start_all d c
          (devices input output)
          addr
          (server_plan own (stream_type flags) (opus_enabled flags))
          w
unfolding handle_client
server_heard d c input output own flags addr w = refl

client_heard :
    (d : Driver) (c : Config) (input output : Option (List ℕ)) (opus_disabled : Bool)
    (server : StreamType) (addr : List ℕ) (w : d.World)
    → open_session d c input output opus_disabled (met server.value) addr w
      ≡ start_all d c
          (devices input output)
          addr
          (client_plan (client_type input output) server (not opus_disabled))
          w
unfolding open_session
client_heard d c input output opus_disabled server addr w = refl

module _ (d1 d2 : Driver) (c1 c2 : Config) (in1 out1 in2 out2 : Option (List ℕ))
    (opus_disabled : Bool) (addr1 addr2 : List ℕ) (w1 : d1.World) (w2 : d2.World) where
  -- The server, given the byte that the client writes, and the client, given the server's
  abbrev pub server_side : Run d1
  server_side =
      handle_client d1 c1 in1 out1 (server_type in1 out1)
        (heard (stream_flags in2 out2 opus_disabled).value) addr1 w1

  abbrev pub client_side : Run d2
  client_side =
      open_session d2 c2 in2 out2 opus_disabled (met (server_type in1 out1).value) addr2 w2

  -- When each side receives the byte that the other has written, the client can register its signals, and every stream that
  -- a side starts is started, the tasks of the server and those of the client are the two ends of the same streams, in the
  -- same order and with the same choice about Opus.
  pub sessions_mirror :
      server_side.outcome ≡ ok tt
      → client_side.outcome ≡ ok tt
      → map mirror (map (λ (t : Task d1.Handle). t.plan) server_side.tasks)
        ≡ map (λ (t : Task d2.Handle). t.plan) client_side.tasks
  sessions_mirror h k =
      let flags = stream_flags in2 out2 opus_disabled in
      let own = server_type in1 out1 in
      let e = server_heard d1 c1 in1 out1 own flags addr1 w1 in
      let e' = client_heard d2 c2 in2 out2 opus_disabled own addr2 w2 in
      ap (map mirror) (rw e (start_all-plans d1 c1 (devices in1 out1) addr1 _ w1 (rw e at h)))
      ∙ plans_mirror in1 out1 in2 out2 opus_disabled
      ∙ sym (rw e' (start_all-plans d2 c2 (devices in2 out2) addr2 _ w2 (rw e' at k)))
