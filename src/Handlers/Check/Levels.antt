-- ===== src/Handlers/Check/Levels.antt =====
-- How often libaudiowire is initialised, which `check_audio` leaves as it is.
use audiowire.Base.{
  ℕ, ◌+◌, ◌-◌, ◌≡◌, refl, ◌∙◌, arith, Bool, true, false, List, Option, Outcome, ok, err, panic,
  if◌then◌else◌,
}
use audiowire.Config.{Config}
use audiowire.Device.{Driver, DeviceError, StartArgs, is_ok}
use audiowire.Stream.{Direction, capture, playback, start_fn, start_args, builder}
use audiowire.Handlers.Check.{
  check_device, check_audio, is_used, and_then, record_test, playback_test,
}

-- What the calls of libaudiowire do to the count
pub record Levels (d : Driver) (level : d.World → ℕ) : Type 0 where
  pub initialized :
      (w : d.World) → is_ok (d.aw_initialize w).0 ≡ true → level (d.aw_initialize w).1 ≡ level w + 1
  pub terminated :
      (w : d.World) → is_ok (d.aw_terminate w).0 ≡ true → level (d.aw_terminate w).1 ≡ level w - 1
  pub started :
      (dir : Direction) (a : StartArgs) (w : d.World) → level (start_fn d dir a w).2 ≡ level w
  pub stopped : (h : d.Handle) (w : d.World) → level (d.aw_stop h w).1 ≡ level w

module _ (d : Driver) (level : d.World → ℕ) (levels : Levels d level) where
  check_device-Level :
      (dir : Direction) (name : List ℕ) (dev : Option (List ℕ)) (c : Config) (w : d.World)
      → level (check_device d dir name dev c w).1 ≡ level w
  unfolding check_device is_ok
  check_device-Level dir name dev c w =
      let a : StartArgs = start_args d dev name (builder c) in
      ground (
        arith,
        levels.started dir a w,
        levels.stopped (start_fn d dir a w).1 (start_fn d dir a w).2,
      )

  abbrev Result : Type 0
  Result = Outcome DeviceError Unit × d.World

  half-Level :
      (used : Bool) (dir : Direction) (name : List ℕ) (dev : Option (List ℕ)) (c : Config)
      (w : d.World)
      → let r : Result = if used then check_device d dir name dev c w else (ok tt, w) in
        level r.1 ≡ level w
  half-Level true dir name dev c w = check_device-Level dir name dev c w
  half-Level false dir name dev c w = refl

  and_then-Level :
      (r : Result) (f : d.World → Result) (before : ℕ)
      → level r.1 ≡ before
      → level (f r.1).1 ≡ level r.1
      → level (and_then d r f).1 ≡ before
  and_then-Level (ok u, w1) f before h k = k ∙ h
  and_then-Level (err e, w1) f before h k = h
  and_then-Level (panic, w1) f before h k = h

  pub check_audio-Level :
      (c : Config) (input output : Option (List ℕ)) (w : d.World)
      → level (check_audio d c input output w).1 ≡ level w
  unfolding check_audio
  check_audio-Level c input output w =
      let first : Result =
        if is_used input then check_device d capture record_test input c w else (ok tt, w) in
      let next : d.World → Result = λ w1.
        if is_used output then check_device d playback playback_test output c w1 else (ok tt, w1) in
      and_then-Level first next (level w) (half-Level (is_used input) capture record_test input c w)
        (half-Level (is_used output) playback playback_test output c first.1)
