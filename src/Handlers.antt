-- ===== src/Handlers.antt =====
-- audiowire/src/handlers.rs: the tasks that move audio between a stream and a peer.
--
-- Other threads act while a task runs: the audio callback changes the driver's world, a signal sets the flag `term`.
-- A loop therefore runs over a list of moments, one for each time that it looks at its surroundings. A loop
-- whose moments are used up is still running, and its outcome is `none`.
pub mod Peers
pub mod Play
pub mod Record
pub mod Check
pub mod Signals
pub mod Udp
pub mod Link
pub mod Task
use audiowire.Base.{ℕ, Bool, List, Option, none, Outcome}
use audiowire.Device.{DeviceError}
use audiowire.Peer.{IoError}

-- `Box<dyn Error>` as the program makes it: a stream's, a peer's, the Opus library's, or that of joining a
-- task that panicked.
pub data Error : Type 0 where
  device : DeviceError → Error
  io : IoError → Error
  opus : ℕ → Error
  join : Error

-- What a task sees when it looks: `term`, what the callbacks have done to the world by then, and what they do to
-- it while the task waits for its peer.
pub record Moment (W : Type 0) : Type 0 where
  pub term : Bool
  pub before : W → W
  pub during : W → W

-- The byte buffers `[0u8; 65536]`
abbrev pub scratch_size : ℕ
scratch_size = 65536
