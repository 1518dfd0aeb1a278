-- ===== src/Session/Ends.antt =====
-- How the server and the client come to an end.
use audiowire.Base.{
  ℕ, ◌+◌, ap, ◌∙◌, ◌≡◌, ◌≢◌, ◌⊎◌, inl, inr, refl, arith, Bool, true, false, List, [], ◌∷◌, Option,
  none, some, Outcome, ok, err, panic, Bool-cases,
}
use audiowire.Config.{Config}
use audiowire.Device.{Driver, DeviceError, initialize, terminate, is_ok}
use audiowire.Peer.{IoError}
use audiowire.Handlers.{Error, device, io}
use audiowire.Handlers.Check.{check_audio}
use audiowire.Handlers.Check.Levels.{Levels, check_audio-Level}
use audiowire.Session.{Run, Exchange}
use audiowire.Session.Server
use audiowire.Session.Server.{
  Accept, Round, Setup, timed_out, failed, connected, listen_loop, handle_client, server_type,
}
use audiowire.Session.Client
use audiowire.Session.Client.{Tasks, Connection}

-- One of the rounds is an `accept` that fails with this error.
abbrev pub FailsWith : List Round → Error → Type 0
FailsWith [] e = ⊥
FailsWith (x ∷ xs) e = ((y : IoError) × (x.accept ≡ failed y) × (io y ≡ e)) ⊎ FailsWith xs e

module _ (d : Driver) (c : Config) (input output : Option (List ℕ)) where
  abbrev loop : List Round → d.World → Server.Listened d c input output
  loop = listen_loop d c input output

  abbrev client_run : Exchange → List ℕ → d.World → Run d
  client_run ex addr w = handle_client d c input output (server_type input output) ex addr w

  after_client :
      (t : Bool) (ex : Exchange) (addr : List ℕ) (xs : List Round) (w : d.World) (e : Error)
      (o : Outcome Error Unit)
      → t ≡ false
      → (client_run ex addr w).outcome ≡ o
      → ((w' : d.World) → (loop xs w').outcome ≡ some (err e) → FailsWith xs e)
      → (loop (record { term = t; accept = connected ex addr } ∷ xs) w).outcome ≡ some (err e)
      → FailsWith xs e
  unfolding listen_loop
  after_client t ex addr xs w e (ok u) q k ih h = ih _ (rw (q, listen_loop, k, listen_loop) at h)
  after_client t ex addr xs w e (err x) q k ih h = ih _ (rw (q, listen_loop, k, listen_loop) at h)
  after_client t ex addr xs w e panic q k ih h = cc (rw (q, listen_loop, k, listen_loop) at h)

  one_round :
      (a : Accept) (t : Bool) (xs : List Round) (w : d.World) (e : Error)
      → t ≡ false
      → ((w' : d.World) → (loop xs w').outcome ≡ some (err e) → FailsWith xs e)
      → (loop (record { term = t; accept = a } ∷ xs) w).outcome ≡ some (err e)
      → FailsWith (record { term = t; accept = a } ∷ xs) e
  unfolding listen_loop
  one_round timed_out t xs w e q ih h = inr (ih w (rw (q, listen_loop) at h))
  one_round (failed y) t xs w e q ih h = inl (y, refl, ground (arith, h, q))
  one_round (connected ex addr) t xs w e q ih h = inr (after_client t ex addr xs w e _ q refl ih h)

  ended_by_term :
      (x : Round) (xs : List Round) (w : d.World)
      → x.term ≡ true
      → (loop (x ∷ xs) w).outcome ≡ some (ok tt)
  unfolding listen_loop
  ended_by_term x xs w q = rw (q, listen_loop)

  -- The listener returns an error only if an `accept` has failed with it.
  pub listen_loop-err :
      (xs : List Round) (w : d.World) (e : Error)
      → (loop xs w).outcome ≡ some (err e)
      → FailsWith xs e
  listen_loop-err [] w e h = unfold listen_loop in cc
  listen_loop-err (x ∷ xs) w e h = elim (Bool-cases x.term) [
    | inl t ↦ cc (ended_by_term x xs w t)
    | inr t ↦ one_round x.accept x.term xs w e t (λ w'. listen_loop-err xs w' e) h
  ]

  main_runs :
      (xs : Setup) (w w1 : d.World)
      → initialize d w ≡ (ok tt, w1)
      → Server.main d c input output xs w
        ≡ Server.after_run d c input output (Server.run d c input output xs w1)
  unfolding Server.main
  main_runs xs w w1 i = rw (i, Server.main) (rw i)

  closes :
      (o : Outcome Error Unit) (w : d.World)
      → (Server.close d c input output o w).1 ≡ (terminate d w).1
  unfolding Server.close terminate
  closes o w = ground arith

  -- The server that has initialised the audio library and whose `run` returns, with `Ok` or an error,
  -- leaves the world that terminating the library makes of the world after `run`.
  pub server-terminates :
      (xs : Setup) (w w1 w2 : d.World) (o : Outcome Error Unit)
      → initialize d w ≡ (ok tt, w1)
      → Server.run d c input output xs w1 ≡ (some o, w2)
      → o ≢ panic
      → (Server.main d c input output xs w).1 ≡ (terminate d w2).1
  server-terminates xs w w1 w2 (ok u) i r safe = rw (main_runs xs w w1 i, r) (closes (ok tt) w2)
  server-terminates xs w w1 w2 (err e) i r safe = rw (main_runs xs w w1 i, r) (closes (err e) w2)
  server-terminates xs w w1 w2 panic i r safe = absurd (safe refl)

  client_ends :
      (opus_disabled : Bool) (connect : ℕ → Outcome IoError Unit) (cn : Connection) (addr : List ℕ)
      (tasks : Tasks d c input output opus_disabled) (w w1 w2 : d.World) (e : DeviceError)
      → initialize d w ≡ (ok tt, w1)
      → check_audio d c input output w1 ≡ (err e, w2)
      → Client.init d c input output opus_disabled connect cn addr tasks w
        ≡ some (err (device e), w2)
  unfolding Client.init
  client_ends opus_disabled connect cn addr tasks w w1 w2 e i k = ground (arith, i, k)

  server_runs :
      (xs : Setup) (w1 w2 : d.World) (e : DeviceError)
      → check_audio d c input output w1 ≡ (err e, w2)
      → Server.run d c input output xs w1 ≡ (some (err (device e)), w2)
  unfolding Server.run
  server_runs xs w1 w2 e k = ground (arith, k)

  server_closes :
      (o : Outcome Error Unit) (w : d.World)
      → is_ok (d.aw_terminate w).0 ≡ true
      → Server.close d c input output o w ≡ (some o, (d.aw_terminate w).1)
  unfolding Server.close terminate is_ok
  server_closes o w good = ground (arith, good)

  initialize-ok :
      (w : d.World)
      → is_ok (d.aw_initialize w).0 ≡ true
      → initialize d w ≡ (ok tt, (d.aw_initialize w).1)
  unfolding initialize is_ok
  initialize-ok w good = ground (arith, good)

  module _ (level : d.World → ℕ) (levels : Levels d level) where
    -- The client has initialised the library once more than before, the server as often as before.
    abbrev pub Uneven :
        Error
        → d.World
        → Option (Outcome Error Unit × d.World)
        → Option (Outcome Error Unit) × d.World
        → Type 0
    Uneven e w none server = ⊥
    Uneven e w (some (o, w')) (o2, w2) =
        (o ≡ err e) × (level w' ≡ level w + 1) × (o2 ≡ some (err e)) × (level w2 ≡ level w)

    -- When the library counts how often it is initialised, and neither a start nor a stop changes that, a client and a server
    -- that initialise it and whose check of the same devices fails return the same error, but, if the library lets itself be
    -- terminated, only the server leaves it initialised as often as before: the client leaves it initialised once more.
    pub client_check_failed :
        (opus_disabled : Bool) (connect : ℕ → Outcome IoError Unit) (cn : Connection)
        (addr : List ℕ) (tasks : Tasks d c input output opus_disabled) (xs : Setup) (w : d.World)
        (e : DeviceError)
        → let w1 = (d.aw_initialize w).1 in
          let w2 = (check_audio d c input output w1).1 in
          is_ok (d.aw_initialize w).0 ≡ true
          → (check_audio d c input output w1).0 ≡ err e
          → is_ok (d.aw_terminate w2).0 ≡ true
          → Uneven
              (device e)
              w
              (Client.init d c input output opus_disabled connect cn addr tasks w)
              (Server.main d c input output xs w)
    client_check_failed opus_disabled connect cn addr tasks xs w e begun refused over =
        let w1 = (d.aw_initialize w).1 in
        let w2 = (check_audio d c input output w1).1 in
        let k : check_audio d c input output w1 ≡ (err e, w2) = ap (λ o. (o, w2)) refused in
        let i = initialize-ok w begun in
        let up : level w2 ≡ level w + 1 =
          check_audio-Level d level levels c input output w1 ∙ levels.initialized w begun in
        rw
          (
            client_ends opus_disabled connect cn addr tasks w w1 w2 e i k,
            main_runs xs w w1 i,
            server_runs xs w1 w2 e k,
            server_closes (err (device e)) w2 over,
          )
          (refl, up, refl, omega (arith, levels.terminated w2 over, up))
