-- ===== src/Loopback/Ends.antt =====
-- How a loopback run that returns `Ok` has ended.
use audiowire.Base.{
  ℕ, ◌+◌, ◌-◌, ◌≡◌, inl, inr, refl, ap, ◌∙◌, arith, true, List, [], ◌∷◌, All, Option, some, Outcome,
  ok, err, panic, leb, Bool-cases,
}
use audiowire.Config.{buffer_size}
use audiowire.Device.{Driver, DeviceError, is_ok, initialize, terminate}
use audiowire.Stream.{
  BaseStream, StreamBuilder, Direction, builder, with_error_cb, start_args, capture, playback,
  start_stream, stop, peek,
}
use audiowire.Stream.Start.{start_stream-eq-ok}
use audiowire.Handlers.{Moment, device}
use audiowire.Peer.{IoError}
use audiowire.Handlers.Record.{Control, outer, inner}
use audiowire.Handlers.Check.Balance.{Counts}
use audiowire.Loopback
use audiowire.Loopback.{
  config, source_name, sink_name, open_playback, Result, attempt, registered, stopped, close,
  close_playback, close_library, loop, run, main,
}

-- Reading and writing open and close no stream.
pub record Steady (d : Driver) (opened : d.World → ℕ) : Type 0 where
  pub reads : (h : d.Handle) (n : ℕ) (w : d.World) → opened (d.aw_record_read h n w).1 ≡ opened w
  pub writes :
      (h : d.Handle) (bytes : List ℕ) (w : d.World)
      → opened (d.aw_playback_write h bytes w).1 ≡ opened w

-- Nor does what other threads do at a moment.
pub record Quiet {W : Type 0} (opened : W → ℕ) (m : Moment W) : Type 0 where
  pub before : (w : W) → opened (m.before w) ≡ opened w
  pub during : (w : W) → opened (m.during w) ≡ opened w

attempt-ok :
    (d : Driver) {A : Type 0} (r : Outcome DeviceError A × d.World) (f : A → d.World → Result d)
    (w' : d.World)
    → attempt d r f ≡ (some (ok tt), w')
    → (a : A) × (w1 : d.World) × (r ≡ (ok a, w1)) × (f a w1 ≡ (some (ok tt), w'))
attempt-ok d (ok a, w1) f w' h = (a, w1, refl, h)
attempt-ok d (err e, w1) f w' h = cc
attempt-ok d (panic, w1) f w' h = cc

registered-ok :
    (d : Driver) (signals : Outcome IoError Unit) (f : d.World → Result d) (w w' : d.World)
    → registered d signals f w ≡ (some (ok tt), w')
    → f w ≡ (some (ok tt), w')
registered-ok d (ok u) f w w' h = h
registered-ok d (err e) f w w' h = cc
registered-ok d panic f w w' h = cc

module _ (d : Driver) (opened : d.World → ℕ) (counts : Counts d opened) where
  start_counts :
      (b : StreamBuilder) (dir : Direction) (name : List ℕ) (dev : Option (List ℕ)) (w w' : d.World)
      (s : BaseStream d.Handle)
      → start_stream d b dir name dev w ≡ (ok s, w')
      → (opened w' ≡ opened w + 1) × (s.running ≡ true)
  start_counts b dir name dev w w' s e =
      let (_, _, success, same, _, _, running) = start_stream-eq-ok d b dir name dev w w' s e in
      (ap opened same ∙ counts.start_ok dir _ w success, running)

  start_err_counts :
      (b : StreamBuilder) (dir : Direction) (name : List ℕ) (dev : Option (List ℕ)) (w w' : d.World)
      (x : DeviceError)
      → start_stream d b dir name dev w ≡ (err x, w')
      → opened w' ≡ opened w
  unfolding start_stream is_ok
  start_err_counts b dir name dev w w' x e =
      ground (arith, e, counts.start_err dir (start_args d dev name b) w)

  stop_counts :
      (b : BaseStream d.Handle) (w w' : d.World)
      → b.running ≡ true
      → stopped d b w ≡ (ok tt, w')
      → opened w' ≡ opened w - 1
  unfolding stop is_ok
  stop_counts b w w' running e = ground (arith, running, e, counts.stop_ok b.handle w)

  close_counts :
      (rec play : BaseStream d.Handle) (w w' : d.World)
      → rec.running ≡ true
      → play.running ≡ true
      → close d rec play w ≡ (some (ok tt), w')
      → (w2 : d.World) × ((terminate d w2).1 ≡ w') × (opened w2 ≡ opened w - 1 - 1)
  unfolding close
  close_counts rec play w w' r p e =
      let (_, w1, first, e1) = attempt-ok d (stopped d rec w) (λ u. close_playback d play) w' e in
      let (_, w2, second, e2) = attempt-ok d (stopped d play w1) (λ u. close_library d) w' e1 in
      let (_, w3, third, e3) = attempt-ok d (terminate d w2) (λ u w4. (some (ok tt), w4)) w' e2 in
      (
        w2,
        ap (λ (x : Outcome DeviceError Unit × d.World). x.1) third ∙ ap (λ (x : Result d). x.1) e3,
        stop_counts play w1 w2 p second ∙ ap (λ k. k - 1) (stop_counts rec w w1 r first),
      )

  module _ (steady : Steady d opened) (rec play : BaseStream d.Handle) (n : ℕ) where
    loop_counts :
        (ms : List (Moment d.World)) (c : Control) (w : d.World)
        → All (Quiet opened) ms
        → opened (loop d rec play n ms c w).world ≡ opened w
    unfolding loop
    loop_counts [] c w q = refl
    loop_counts (m ∷ ms) outer w q = elim (Bool-cases m.term) [
      | inl t ↦ rw (t, loop)
      | inr t ↦ rw (t, loop) (loop_counts ms inner w q.1)
    ]
    loop_counts (m ∷ ms) inner w q = elim (Bool-cases (leb n (peek d capture rec (m.before w)))) [
      | inl t ↦
          rw (t, loop)
            (loop_counts ms inner _ q.1
              ∙ steady.writes play.handle _ _
              ∙ q.0.during _
              ∙ steady.reads rec.handle n _
              ∙ q.0.before w)
      | inr t ↦ rw (t, loop) (loop_counts ms outer _ q.1 ∙ q.0.before w)
    ]

  -- The library is terminated from a world with so many open streams, and this is the world after it.
  abbrev pub TerminatedFrom : ℕ → d.World → Type 0
  TerminatedFrom k w' = (w2 : d.World) × ((terminate d w2).1 ≡ w') × (opened w2 ≡ k)

  module _ (steady : Steady d opened) (ms : List (Moment d.World))
      (quiet : All (Quiet opened) ms) where
    run_closes :
        (rec play : BaseStream d.Handle) (w w' : d.World)
        → rec.running ≡ true
        → play.running ≡ true
        → run d rec play ms w ≡ (some (ok tt), w')
        → TerminatedFrom (opened w - 1 - 1) w'
    unfolding run
    run_closes rec play w w' r p e =
        let l : Loopback.Looped d.World = loop d rec play (buffer_size config) ms outer w in
        elim (Bool-cases l.ended) [
          | inl t ↦
              let (w2, done, count) = close_counts rec play l.world w' r p (rw (t, run) at e) in
              (
                w2,
                done,
                count ∙ ap (λ k. k - 1 - 1) (loop_counts steady rec play _ ms outer w quiet),
              )
          | inr t ↦ cc (rw (t, run) at e)
        ]

    -- When a start of libaudiowire that succeeds opens one stream, a stop that succeeds closes one, and no other call
    -- and no other thread opens or closes any, a loopback run that returns `Ok` has terminated the library in a world
    -- with exactly as many open streams as when it was initialised.
    pub main-closes :
        (input output : Option (List ℕ)) (signals : Outcome IoError Unit) (w w1 w' : d.World)
        → initialize d w ≡ (ok tt, w1)
        → main d input output signals ms w ≡ (some (ok tt), w')
        → TerminatedFrom (opened w1) w'
    unfolding main
    main-closes input output signals w w1 w' i e =
        let b : StreamBuilder = with_error_cb (builder config) in
        let (rec, w2, first, e1) =
          attempt-ok d (start_stream d b capture source_name input w1)
            (open_playback d output signals ms) w' (rw (i, main) at e) in
        let (play, w3, second, e2) =
          attempt-ok d (start_stream d b playback sink_name output w2)
            (λ x. registered d signals (run d rec x ms)) w' e1 in
        let (one, rec_runs) = start_counts b capture source_name input w1 w2 rec first in
        let (two, play_runs) = start_counts b playback sink_name output w2 w3 play second in
        let (w4, done, count) =
          run_closes rec play w3 w' rec_runs play_runs
            (registered-ok d signals (run d rec play ms) w3 w' e2) in
        (w4, done, omega (arith, one, two, count))

  -- When a start of libaudiowire that succeeds opens one stream and one that fails opens none, and the playback stream of a
  -- loopback run cannot be started, the run returns that error, and the world is as the failed start left it, with one
  -- stream more open than when the library was initialised.
  pub main-playback_err :
      (input output : Option (List ℕ)) (signals : Outcome IoError Unit) (ms : List (Moment d.World))
      (w w1 w2 w3 : d.World) (rec : BaseStream d.Handle) (x : DeviceError)
      → initialize d w ≡ (ok tt, w1)
      → start_stream d (with_error_cb (builder config)) capture source_name input w1 ≡ (ok rec, w2)
      → start_stream d (with_error_cb (builder config)) playback sink_name output w2 ≡ (err x, w3)
      → (main d input output signals ms w ≡ (some (err (device x)), w3))
        × (opened w3 ≡ opened w1 + 1)
  unfolding main
  main-playback_err input output signals ms w w1 w2 w3 rec x i first second =
      let b : StreamBuilder = with_error_cb (builder config) in
      (
        rw (i, main, first, second),
        start_err_counts b playback sink_name output w2 w3 x second
            ∙ (start_counts b capture source_name input w1 w2 rec first).0,
      )
