-- ===== src/Handlers/Check/Balance.antt =====
-- `check_audio` leaves no stream behind.
use audiowire.Base.{
  ℕ, ◌+◌, ◌-◌, ◌≤◌, ◌≡◌, refl, arith, Bool, true, false, List, Option, Outcome, ok, err, panic,
  if◌then◌else◌,
}
use audiowire.Config.{Config}
use audiowire.Device.{Driver, DeviceError, StartArgs, is_ok}
use audiowire.Stream.{Direction, capture, playback, start_fn, start_args, builder}
use audiowire.Handlers.Check.{
  check_device, check_audio, is_used, and_then, record_test, playback_test,
}

-- How libaudiowire's calls change the number of open streams: a start that succeeds opens one, a stop that
-- succeeds closes it, and a call that fails changes nothing.
pub record Counts (d : Driver) (opened : d.World → ℕ) : Type 0 where
  pub start_ok :
      (dir : Direction) (a : StartArgs) (w : d.World)
      → is_ok (start_fn d dir a w).0 ≡ true
      → opened (start_fn d dir a w).2 ≡ opened w + 1
  pub start_err :
      (dir : Direction) (a : StartArgs) (w : d.World)
      → is_ok (start_fn d dir a w).0 ≡ false
      → opened (start_fn d dir a w).2 ≡ opened w
  pub stop_ok :
      (h : d.Handle) (w : d.World)
      → is_ok (d.aw_stop h w).0 ≡ true
      → opened (d.aw_stop h w).1 ≡ opened w - 1
  pub stop_err :
      (h : d.Handle) (w : d.World)
      → is_ok (d.aw_stop h w).0 ≡ false
      → opened (d.aw_stop h w).1 ≡ opened w

-- By its outcome: success and a panic leave as many streams open as before, an error at most one more.
abbrev pub Balanced : Outcome DeviceError Unit → ℕ → ℕ → Type 0
Balanced (ok u) before after = after ≡ before
Balanced (err e) before after = (before ≤ after) × (after ≤ before + 1)
Balanced panic before after = after ≡ before

module _ (d : Driver) (opened : d.World → ℕ) (counts : Counts d opened) where
  check_device-Balanced :
      (dir : Direction) (name : List ℕ) (dev : Option (List ℕ)) (c : Config) (w : d.World)
      → let (o, w') = check_device d dir name dev c w in Balanced o (opened w) (opened w')
  unfolding check_device is_ok
  check_device-Balanced dir name dev c w =
      let a : StartArgs = start_args d dev name (builder c) in
      ground (
        arith,
        counts.start_ok dir a w,
        counts.start_err dir a w,
        counts.stop_ok (start_fn d dir a w).1 (start_fn d dir a w).2,
        counts.stop_err (start_fn d dir a w).1 (start_fn d dir a w).2,
      )

  abbrev Result : Type 0
  Result = Outcome DeviceError Unit × d.World

  half-Balanced :
      (used : Bool) (dir : Direction) (name : List ℕ) (dev : Option (List ℕ)) (c : Config)
      (w : d.World)
      → let r : Result = if used then check_device d dir name dev c w else (ok tt, w) in
        Balanced r.0 (opened w) (opened r.1)
  half-Balanced true dir name dev c w = check_device-Balanced dir name dev c w
  half-Balanced false dir name dev c w = refl

  and_then-Balanced :
      (r : Result) (f : d.World → Result) (before : ℕ)
      → Balanced r.0 before (opened r.1)
      → Balanced (f r.1).0 (opened r.1) (opened (f r.1).1)
      → Balanced (and_then d r f).0 before (opened (and_then d r f).1)
  and_then-Balanced (ok u, w1) f before h k = rw (← h) k
  and_then-Balanced (err e, w1) f before h k = h
  and_then-Balanced (panic, w1) f before h k = h

  -- When a start of libaudiowire that succeeds opens one stream, a stop that succeeds closes one, and a
  -- call that fails changes nothing, `check_audio` leaves exactly as many streams open as it found if it
  -- returns `Ok` or panics, and at most one more if it returns an error.
  pub check_audio-Balanced :
      (c : Config) (input output : Option (List ℕ)) (w : d.World)
      → let (o, w') = check_audio d c input output w in Balanced o (opened w) (opened w')
  check_audio-Balanced c input output w =
      let first : Result =
        if is_used input then check_device d capture record_test input c w else (ok tt, w) in
      let next : d.World → Result = λ w1.
        if is_used output then check_device d playback playback_test output c w1 else (ok tt, w1) in
      let both =
        and_then-Balanced first next (opened w)
          (half-Balanced (is_used input) capture record_test input c w)
          (half-Balanced (is_used output) playback playback_test output c first.1) in
      unfold check_audio in both
