-- ===== src/Native/Table/Runs.antt =====
-- The Rust side over libaudiowire and PortAudio: the device's callbacks of libaudiowire/src/portaudio.c are what other
-- threads do at a moment.
use audiowire.Base.{
  ℕ, ◌≡◌, refl, ◌∙◌, Bool, List, [], ◌∷◌, Option, none, some, String, Outcome, ok, All,
}
use mathlib.Core.List.{map}
use audiowire.Config.{Config}
use audiowire.Device.{initialize}
use audiowire.Native.{AwStream, on_stream_read, on_stream_write}
use audiowire.Native.PortAudio.{PortAudio}
use audiowire.Native.Table.{Handle, World, call_at, native_driver, allocated}
use audiowire.Native.Table.Laws.{native_driver-Counts, native_driver-Steady, call_at-live}
use audiowire.Handlers.{Moment}
use audiowire.Handlers.Check.{check_audio}
use audiowire.Handlers.Check.Balance.{Balanced, check_audio-Balanced}
use audiowire.Peer.{IoError}
use audiowire.Loopback.{main}
use audiowire.Loopback.Ends.{Quiet, TerminatedFrom, main-closes}

-- A call that PortAudio makes: it gives or asks for so many frames.
pub data Callback : Type 0 where
  gives asks : Handle → List ℕ → ℕ → Callback

module _ (pa : PortAudio) (to_text : List ℕ → String) where
  abbrev pub with_unit : Option AwStream → Option (Unit {0} × AwStream)
  with_unit none = none
  with_unit (some s) = some (tt, s)

  unfoldable pub run_callback : Callback → World pa → World pa
  unfolding on_stream_read on_stream_write
  run_callback (gives h input count) w =
      (call_at pa h w tt (λ s. with_unit (on_stream_read s input count))).1
  run_callback (asks h output count) w = (call_at pa h w [] (λ s. on_stream_write s output count)).1

  unfoldable pub run_callbacks : List Callback → World pa → World pa
  unfolding run_callback
  run_callbacks [] w = w
  run_callbacks (c ∷ cs) w = run_callbacks cs (run_callback c w)

  -- What is heard of a signal, and the callbacks before the loop goes on and while it waits
  abbrev pub moment : Bool × List Callback × List Callback → Moment (World pa)
  moment (term, before, during) = record {
    term = term;
    before = run_callbacks before;
    during = run_callbacks during;
  }

  run_callback-allocated :
      (c : Callback) (w : World pa) → allocated pa (run_callback c w) ≡ allocated pa w
  unfolding run_callback
  run_callback-allocated (gives h input count) w =
      call_at-live pa to_text h w tt (λ s. with_unit (on_stream_read s input count)) _ refl
  run_callback-allocated (asks h output count) w =
      call_at-live pa to_text h w [] (λ s. on_stream_write s output count) _ refl

  run_callbacks-allocated :
      (cs : List Callback) (w : World pa) → allocated pa (run_callbacks cs w) ≡ allocated pa w
  unfolding run_callbacks
  run_callbacks-allocated [] w = refl
  run_callbacks-allocated (c ∷ cs) w =
      run_callbacks-allocated cs (run_callback c w) ∙ run_callback-allocated c w

  moments-Quiet :
      (ms : List (Bool × List Callback × List Callback))
      → All (Quiet (allocated pa)) (map moment ms)
  moments-Quiet [] = tt
  moments-Quiet ((term, before, during) ∷ ms) = (
    record { before = run_callbacks-allocated before; during = run_callbacks-allocated during },
    moments-Quiet ms,
  )

  -- Whatever PortAudio answers, `check_audio` leaves as many streams allocated as it found if it returns `Ok` or panics,
  -- and at most one more if it returns an error.
  pub check_audio-allocated :
      (c : Config) (input output : Option (List ℕ)) (w : World pa)
      → let (o, w') = check_audio (native_driver pa to_text) c input output w in
        Balanced o (allocated pa w) (allocated pa w')
  check_audio-allocated =
      check_audio-Balanced (native_driver pa to_text) (allocated pa)
        (native_driver-Counts pa to_text)

  -- Whatever PortAudio answers and whenever it calls back, a loopback run that returns `Ok` has terminated the library
  -- with as many streams allocated as when it was initialised.
  pub main-allocated :
      (ms : List (Bool × List Callback × List Callback)) (input output : Option (List ℕ))
      (signals : Outcome IoError Unit) (w w1 w' : World pa)
      → initialize (native_driver pa to_text) w ≡ (ok tt, w1)
      → main (native_driver pa to_text) input output signals (map moment ms) w ≡ (some (ok tt), w')
      → TerminatedFrom
          (native_driver pa to_text)
          (allocated pa)
          (native_driver-Counts pa to_text)
          (allocated pa w1)
          w'
  main-allocated ms =
      main-closes (native_driver pa to_text) (allocated pa) (native_driver-Counts pa to_text)
        (native_driver-Steady pa to_text) (map moment ms) (moments-Quiet ms)
