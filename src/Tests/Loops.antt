-- ===== src/Tests/Loops.antt =====
-- Loopback runs at concrete devices.
use audiowire.Base.{
  ℕ, ◌+◌, ◌≡◌, refl, Bool, true, false, List, [], ◌∷◌, none, some, ok, err, if◌then◌else◌,
}
use audiowire.Device.{DeviceError, StartArgs, Driver, initialize, is_ok}
use audiowire.Stream.{BaseStream, Direction, capture, playback, start_fn, start_stream}
use audiowire.Handlers.{Moment, device}
use audiowire.Handlers.Check.Balance.{Counts}
use audiowire.Loopback.{main}
use audiowire.Loopback.Ends.{main-playback_err}
use audiowire.Tests.Toys.{Machine, working, machine, quiet, signal, no_error, not_found}

abbrev some_bytes : List ℕ → ℕ
some_bytes [] = 0
some_bytes (x ∷ xs) = 4000

-- A device whose recordings come in whole buffers, and which plays back if `plays`
abbrev looping : Bool → Driver
looping plays = record working {
  aw_record_peek = λ h w. some_bytes w.captured;
  aw_start_playback =
      λ a w. if plays then (no_error, 2, record w { opened = w.opened + 1 }) else (not_found, 0, w);
}

opens :
    (plays : Bool) (dir : Direction) (a : StartArgs) (w : Machine)
    → is_ok (start_fn (looping plays) dir a w).0 ≡ true
    → (start_fn (looping plays) dir a w).2.opened ≡ w.opened + 1
unfolding is_ok
opens plays capture a w h = refl
opens true playback a w h = refl
opens false playback a w h = cc

fails :
    (plays : Bool) (dir : Direction) (a : StartArgs) (w : Machine)
    → is_ok (start_fn (looping plays) dir a w).0 ≡ false
    → (start_fn (looping plays) dir a w).2.opened ≡ w.opened
unfolding is_ok
fails plays capture a w h = cc
fails true playback a w h = cc
fails false playback a w h = refl

looping-Counts : (plays : Bool) → Counts (looping plays) (λ m. m.opened)
unfolding is_ok
looping-Counts plays = record {
  start_ok = opens plays;
  start_err = fails plays;
  stop_ok = λ h w e. refl;
  stop_err = λ h w e. cc;
}

-- One buffer is moved, then no more come, and then there is a signal.
abbrev moments : List (Moment Machine)
moments = quiet ∷ quiet ∷ quiet ∷ signal ∷ []

abbrev no_playback : DeviceError
no_playback = record { code = not_found.code; message = not_found.message }

abbrev recording : BaseStream ℕ
recording = record { handle = 1; devname = some "toy"; running = true }

main-playback_err_example :
    (main (looping false) none none (ok tt) moments machine
      ≡ (some (err (device no_playback)), record machine { opened = 1 }))
    × (◌≡◌ {A = ℕ} 1 1)
unfolding initialize start_stream
main-playback_err_example =
    main-playback_err (looping false) (λ m. m.opened) (looping-Counts false) none none (ok tt)
      moments machine machine (record machine { opened = 1 }) (record machine { opened = 1 })
      recording no_playback refl refl refl
