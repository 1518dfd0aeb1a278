-- ===== src/Opus.antt =====
-- audiowire/src/opus.rs, and the encoder and decoder of the Opus library as the handlers use them.
use audiowire.Base.{ℕ, zero, suc, List, Outcome, ok, panic}

-- `opus::Channels`
pub data Channels : Type 0 where
  mono stereo : Channels

-- `Channels::from_u8`: any other number panics.
unfoldable pub from_u8 : {E : Type 0} → ℕ → Outcome E Channels
from_u8 zero = panic
from_u8 (suc zero) = ok mono
from_u8 (suc (suc zero)) = ok stereo
from_u8 (suc (suc (suc n))) = panic

-- `opus::Decoder`. An error is its code. `decode` gives the number of frames, and the samples in the
-- caller's buffer after the call.
pub record Decoder : Type 1 where
  pub State : Type 0
  pub new : ℕ → Channels → Outcome ℕ State
  pub decode : List ℕ → State → Outcome ℕ ℕ × List ℕ × State

-- `opus::Encoder`. `encode samples room` gives the bytes of the packet.
pub record Encoder : Type 1 where
  pub State : Type 0
  pub new : ℕ → Channels → Outcome ℕ State
  pub encode : List ℕ → ℕ → State → Outcome ℕ (List ℕ) × State
