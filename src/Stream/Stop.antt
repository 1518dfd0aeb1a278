-- ===== src/Stream/Stop.antt =====
-- `Stream::stop`: idempotent after success, retried after an error.
use audiowire.Base.{◌≡◌, arith, true, ok, err}
use audiowire.Device.{Driver, DeviceError}
use audiowire.Stream.{BaseStream, stop}

module _ (d : Driver) (b : BaseStream d.Handle) (w : d.World) where
  -- A `stop` that returns `Ok` makes every later `stop` return `Ok` without a call of libaudiowire,
  -- whatever has happened to the world in between.
  pub stop-stop :
      (w' : d.World)
      → (stop d b w).0 ≡ ok tt
      → let b' = (stop d b w).1 in stop d b' w' ≡ (ok tt, b', w')
  unfolding stop
  stop-stop w' h = ground arith

  -- A `stop` that returns an error leaves the stream as it was, which is running, and the error has the
  -- code and message of `aw_stop`'s result.
  pub stop-err :
      (e : DeviceError)
      → (stop d b w).0 ≡ err e
      → ((stop d b w).1 ≡ b)
        × (b.running ≡ true)
        × (e.code ≡ (d.aw_stop b.handle w).0.code)
        × (e.message ≡ (d.aw_stop b.handle w).0.message)
  unfolding stop
  stop-err e h = ground arith
