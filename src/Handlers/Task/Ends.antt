-- ===== src/Handlers/Task/Ends.antt =====
-- How a playback task ends, and whether its stream is stopped then.
use audiowire.Base.{
  ℕ, ◌≤◌, ◌<◌, ◌≡◌, ◌≢◌, ◌⊎◌, inl, inr, refl, true, false, List, [], ◌∷◌, ◌++◌, Option, none, some,
  Outcome, ok, err, panic, length, ltb, leb, le→not_ltb, Bool-cases,
}
use audiowire.Config.{Config, buffer_size}
use audiowire.Device.{
  AwResult, Driver, is_zero, is_err, parse_result, parse_result_lazy, parse_result_value,
}
use audiowire.Stream.{BaseStream, peek, playback, stop}
use audiowire.Opus.{Decoder, Channels, from_u8}
use audiowire.Frame.{from_be_bytes, max_payload}
use audiowire.Peer.{IoError}
use audiowire.Handlers.{Error, Moment, scratch_size}
use audiowire.Handlers.Peers.{Reader, IsStream}
use audiowire.Handlers.Play.{
  raw_loop, opus_loop, receive, handle_raw_playback_stream, handle_opus_playback_stream,
}
use audiowire.Handlers.Play.Packets.{receive-panic}
use audiowire.Handlers.Task.{finish, playback_task}

-- A signal has set `term` by one of the moments.
abbrev pub Signalled : {W : Type 0} → List (Moment W) → Type 0
Signalled [] = ⊥
Signalled (m ∷ ms) = (m.term ≡ true) ⊎ Signalled ms

-- The loop has ended, and not by a panic.
abbrev Ended : Option (Outcome Error Unit) → Type 0
Ended none = ⊥
Ended (some (ok u)) = Unit
Ended (some (err e)) = Unit
Ended (some panic) = ⊥

module _ (d : Driver) (r : Reader) (b : BaseStream d.Handle) where
  module _ (n : ℕ) (calm : (s : r.State) → (r.read_exact n s).0 ≢ panic) where
    run_term :
        (m : Moment d.World) (ms : List (Moment d.World)) (w : d.World) (p : r.State)
        → m.term ≡ true
        → Ended (raw_loop d r b n (m ∷ ms) w p).outcome
    unfolding raw_loop
    run_term m ms w p t = rw (t, raw_loop) tt

    run_wait :
        (m : Moment d.World) (ms : List (Moment d.World)) (w : d.World) (p : r.State)
        → m.term ≡ false
        → leb n (peek d playback b (m.before w)) ≡ false
        → raw_loop d r b n (m ∷ ms) w p ≡ raw_loop d r b n ms (m.before w) p
    unfolding raw_loop
    run_wait m ms w p t full = rw (t, raw_loop) (rw full)

    run_read :
        (m : Moment d.World) (ms : List (Moment d.World)) (w : d.World) (p : r.State)
        (o : Outcome IoError (List ℕ))
        → m.term ≡ false
        → leb n (peek d playback b (m.before w)) ≡ true
        → (r.read_exact n p).0 ≡ o
        → ((w' : d.World) (p' : r.State) → Ended (raw_loop d r b n ms w' p').outcome)
        → Ended (raw_loop d r b n (m ∷ ms) w p).outcome
    unfolding raw_loop
    run_read m ms w p (ok bytes) t room e ih =
        rw (t, raw_loop) (rw (room, raw_loop) (rw (e, raw_loop) (ih _ _)))
    run_read m ms w p (err x) t room e ih =
        rw (t, raw_loop) (rw (room, raw_loop) (rw (e, raw_loop) tt))
    run_read m ms w p panic t room e ih = absurd (calm p e)

    raw_loop-Ended :
        (ms : List (Moment d.World)) (w : d.World) (p : r.State)
        → Signalled ms
        → Ended (raw_loop d r b n ms w p).outcome
    raw_loop-Ended [] w p h = absurd h
    raw_loop-Ended (m ∷ ms) w p (inl t) = run_term m ms w p t
    raw_loop-Ended (m ∷ ms) w p (inr later) = elim (Bool-cases m.term) [
      | inl t ↦ run_term m ms w p t
      | inr t ↦ elim (Bool-cases (leb n (peek d playback b (m.before w)))) [
        | inl room ↦ run_read m ms w p _ t room refl (λ w' p'. raw_loop-Ended ms w' p' later)
        | inr full ↦ rw (run_wait m ms w p t full) (raw_loop-Ended ms (m.before w) p later)
      ]
    ]

  -- A stream after `aw_stop` has answered: running if the answer is an error
  abbrev pub stopped_by : AwResult × d.World → BaseStream d.Handle × d.World
  stopped_by (r, w) = (record b { running = is_err r }, w)

  stop-stopped :
      (w : d.World)
      → b.running ≡ true
      → let (o, b', w') = stop d b w in (b', w') ≡ stopped_by (d.aw_stop b.handle w)
  unfolding stop is_err parse_result_lazy parse_result parse_result_value
  stop-stopped w runs = elim (Bool-cases (is_zero (d.aw_stop b.handle w).0.code)) [
    | inl good ↦ rw runs (rw good refl)
    | inr bad ↦ rw runs (rw bad refl)
  ]

  finish-stops :
      (o : Option (Outcome Error Unit)) (w : d.World)
      → Ended o
      → b.running ≡ true
      → finish d o b w ≡ stopped_by (d.aw_stop b.handle w)
  unfolding finish
  finish-stops none w h runs = absurd h
  finish-stops (some (ok u)) w h runs = stop-stopped w runs
  finish-stops (some (err e)) w h runs = stop-stopped w runs
  finish-stops (some panic) w h runs = absurd h

  raw_in_range :
      (c : Config) (ms : List (Moment d.World)) (w : d.World) (p : r.State)
      → ltb scratch_size (buffer_size c) ≡ false
      → handle_raw_playback_stream d r b c ms w p ≡ raw_loop d r b (buffer_size c) ms w p
  unfolding handle_raw_playback_stream
  raw_in_range c ms w p e = rw e

  raw_task :
      (dec : Decoder) (c : Config) (ms : List (Moment d.World)) (w : d.World) (p : r.State)
      → let out = handle_raw_playback_stream d r b c ms w p in
        playback_task d b c false ms w r dec p ≡ finish d out.outcome b out.world
  unfolding playback_task
  raw_task dec c ms w p = refl

  opus_task :
      (dec : Decoder) (c : Config) (ms : List (Moment d.World)) (w : d.World) (p : r.State)
      → let out = handle_opus_playback_stream d r dec b c ms w p in
        playback_task d b c true ms w r dec p ≡ finish d out.outcome b out.world
  unfolding playback_task
  opus_task dec c ms w p = refl

  opus_starts :
      (dec : Decoder) (s : dec.State) (channels : Channels) (c : Config)
      (ms : List (Moment d.World)) (w : d.World) (p : r.State)
      → from_u8 {E = ℕ} c.channels ≡ ok channels
      → dec.new c.sample_rate channels ≡ ok s
      → handle_opus_playback_stream d r dec b c ms w p ≡ opus_loop d r dec b c.channels ms s w p
  unfolding handle_opus_playback_stream
  opus_starts dec s channels c ms w p known made = rw (known, handle_opus_playback_stream) (rw made)

  opus_panics :
      (dec : Decoder) (s : dec.State) (channels : ℕ) (m : Moment d.World)
      (ms : List (Moment d.World)) (w : d.World) (p : r.State)
      → m.term ≡ false
      → (receive r p).0 ≡ panic
      → let out = opus_loop d r dec b channels (m ∷ ms) s w p in
        (out.outcome ≡ some panic) × (out.world ≡ w)
  unfolding opus_loop
  opus_panics dec s channels m ms w p t k = rw (t, opus_loop) (rw (k, opus_loop) (refl, refl))

  finish-panic : (w : d.World) → finish d (some panic) b w ≡ (b, w)
  unfolding finish
  finish-panic w = refl

  -- When a signal comes, the stream is running, the buffer fits the task's array, and reads of the peer do not panic, the
  -- raw playback task calls aw_stop once with its stream's handle, in the world that the loop leaves, and the stream no
  -- longer counts as running exactly if that call succeeds.
  pub raw_task-stops :
      (dec : Decoder) (c : Config) (ms : List (Moment d.World)) (w : d.World) (p : r.State)
      → b.running ≡ true
      → buffer_size c ≤ scratch_size
      → ((n : ℕ) (s : r.State) → (r.read_exact n s).0 ≢ panic)
      → Signalled ms
      → playback_task d b c false ms w r dec p
        ≡ stopped_by (d.aw_stop b.handle (raw_loop d r b (buffer_size c) ms w p).world)
  raw_task-stops dec c ms w p runs fits calm signal =
      let ends = raw_loop-Ended (buffer_size c) (calm (buffer_size c)) ms w p signal in
      rw (raw_task dec c ms w p, raw_in_range c ms w p (le→not_ltb _ _ fits))
        (finish-stops _ _ ends runs)

  -- When a byte stream brings a packet length above the payload buffer's size, no signal has come, and
  -- the decoder was made, the Opus playback task neither stops its stream nor closes it: the stream and
  -- the world stay as they were.
  pub opus_task-leaks :
      (dec : Decoder) (s : dec.State) (channels : Channels) (c : Config) (m : Moment d.World)
      (ms : List (Moment d.World)) (w : d.World) (p : r.State) (unread : r.State → List ℕ)
      (head rest : List ℕ)
      → IsStream r unread
      → from_u8 {E = ℕ} c.channels ≡ ok channels
      → dec.new c.sample_rate channels ≡ ok s
      → m.term ≡ false
      → length head ≡ 2
      → max_payload < from_be_bytes head
      → unread p ≡ head ++ rest
      → playback_task d b c true (m ∷ ms) w r dec p ≡ (b, w)
  opus_task-leaks dec s channels c m ms w p unread head rest stream known made t two big u =
      let (k, left) = receive-panic r unread stream head rest p two big u in
      let (o, same) = opus_panics dec s c.channels m ms w p t k in
      rw
        (
          opus_task dec c (m ∷ ms) w p,
          opus_starts dec s channels c (m ∷ ms) w p known made,
          o,
          same,
        )
        (finish-panic w)
