-- ===== src/Handlers/Check.antt =====
-- audiowire/src/handlers.rs: `check_audio`, which starts and stops each device once.
pub mod Balance
pub mod Levels
use audiowire.Base.{
  ℕ, Bool, true, false, not, ◌&&◌, List, [], ◌∷◌, Option, none, some, Outcome, ok, err, panic, ◌==◌,
  if◌then◌else◌,
}
use audiowire.Config.{Config}
use audiowire.Device.{Driver, DeviceError}
use audiowire.Stream.{BaseStream, Direction, capture, playback, start, stop}

abbrev bytes_eq : List ℕ → List ℕ → Bool
bytes_eq [] [] = true
bytes_eq (x ∷ xs) (y ∷ ys) = x == y && bytes_eq xs ys
bytes_eq _ _ = false

-- `"null"`, `"record-test"` and `"playback-test"`
abbrev pub null_name : List ℕ
null_name = b'n' ∷ b'u' ∷ b'l' ∷ b'l' ∷ []

abbrev pub record_test : List ℕ
record_test = b'r' ∷ b'e' ∷ b'c' ∷ b'o' ∷ b'r' ∷ b'd' ∷ b'-' ∷ b't' ∷ b'e' ∷ b's' ∷ b't' ∷ []

abbrev pub playback_test : List ℕ
playback_test =
    b'p' ∷ b'l' ∷ b'a' ∷ b'y' ∷ b'b' ∷ b'a' ∷ b'c' ∷ b'k' ∷ b'-' ∷ b't' ∷ b'e' ∷ b's' ∷ b't' ∷ []

-- `.map(|s| s != "null").unwrap_or(true)`
unfoldable pub is_used : Option (List ℕ) → Bool
is_used none = true
is_used (some s) = not (bytes_eq s null_name)

module _ (d : Driver) where
  abbrev stop_all :
      Outcome DeviceError (BaseStream d.Handle) → d.World → Outcome DeviceError Unit × d.World
  stop_all (ok b) w = let (o, b', w') = stop d b w in (o, w')
  stop_all (err e) w = (err e, w)
  stop_all panic w = (panic, w)

  -- One half of `check_audio`: `start(…)?`, then `stop()?`
  unfoldable pub check_device :
      Direction → List ℕ → Option (List ℕ) → Config → d.World → Outcome DeviceError Unit × d.World
  unfolding start stop
  check_device dir name dev c w = let (o, w1) = start d dir name dev c w in stop_all o w1

  abbrev pub and_then :
      Outcome DeviceError Unit × d.World
      → (d.World → Outcome DeviceError Unit × d.World)
      → Outcome DeviceError Unit × d.World
  and_then r f = elim r.0 [ ok u ↦ f r.1 | err e ↦ (err e, r.1) | panic ↦ (panic, r.1) ]

  unfoldable pub check_audio :
      Config → Option (List ℕ) → Option (List ℕ) → d.World → Outcome DeviceError Unit × d.World
  unfolding check_device is_used
  check_audio c input output w =
      and_then (if is_used input then check_device capture record_test input c w else (ok tt, w))
        (λ w1.
          if is_used output then check_device playback playback_test output c w1 else (ok tt, w1))
