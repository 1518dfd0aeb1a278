-- ===== src/Stream/Start.antt =====
-- What a started stream is.
use audiowire.Base.{ℕ, ◌≡◌, arith, true, false, List, Option, ok}
use audiowire.Device.{Driver, is_ok}
use audiowire.Stream.{
  BaseStream, StreamBuilder, Direction, start_fn, start_args, start_stream, has_nul, device_has_nul,
}

-- A stream that `start_stream` returns is running, its names had no NUL byte, libaudiowire reported
-- success, and its handle and its device's name are those that libaudiowire gave.
pub start_stream-eq-ok :
    (d : Driver) (b : StreamBuilder) (dir : Direction) (name : List ℕ) (dev : Option (List ℕ))
    (w w' : d.World) (s : BaseStream d.Handle)
    → start_stream d b dir name dev w ≡ (ok s, w')
    → let started = start_fn d dir (start_args d dev name b) w in
      (has_nul name ≡ false)
      × (device_has_nul dev ≡ false)
      × (is_ok started.0 ≡ true)
      × (w' ≡ started.2)
      × (s.handle ≡ started.1)
      × (s.devname ≡ d.aw_device_name s.handle w')
      × (s.running ≡ true)
unfolding start_stream is_ok
start_stream-eq-ok d b dir name dev w w' s h = ground arith
