-- ===== src/Device.antt =====
-- The surface of libaudiowire (include/audiowire.h) that the Rust side calls, and
-- audiowire/src/audiowire/result.rs, errors.rs and mod.rs, which turn its results into Rust's.
pub mod Errors
use audiowire.Base.{
  ℕ, Bool, true, false, not, List, [], ◌∷◌, Option, none, some, Outcome, ok, err, map_ok, String,
  ◌==◌, if◌then◌else◌, ℤ, pos, negsuc,
}
use audiowire.Config.{AwConfig}

-- `aw_result`; a null message is `none`.
pub record AwResult : Type 0 where
  pub code : ℤ
  pub message : Option String

-- `errors::Error`
pub record DeviceError : Type 0 where
  pub code : ℤ
  pub message : Option String

abbrev pub is_zero : ℤ → Bool
is_zero (pos n) = n == 0
is_zero (negsuc n) = false

-- `CResult for aw_result`
unfoldable pub is_ok : AwResult → Bool
is_ok r = is_zero r.code

unfoldable pub is_err : AwResult → Bool
is_err r = not (is_zero r.code)

-- A null message is `None`; a message is decoded with what is no UTF-8 replaced.
abbrev pub get_message : AwResult → Option String
get_message r = r.message

-- `Error::new`
abbrev pub new_error : ℤ → Option String → DeviceError
new_error code message = record { code = code; message = message }

-- What `write!` prints, piece by piece
pub data Piece : Type 0 where
  text : String → Piece
  number : ℤ → Piece

-- `Display for Error`
unfoldable pub fmt : DeviceError → List Piece
fmt e = elim e.message [
  | some message ↦ text "code: " ∷ number e.code ∷ text ", message: " ∷ text message ∷ []
  | none ↦ text "code: " ∷ number e.code ∷ []
]

unfoldable pub parse_result_value : {T : Type 0} → AwResult → T → Outcome DeviceError T
parse_result_value r value =
    if not (is_zero r.code) then err (new_error r.code (get_message r)) else ok value

unfoldable pub parse_result : AwResult → Outcome DeviceError Unit
unfolding parse_result_value
parse_result r = parse_result_value r tt

-- The closure runs only after a result without an error.
unfoldable pub parse_result_lazy : {T : Type 0} → AwResult → (Unit {0} → T) → Outcome DeviceError T
unfolding parse_result
parse_result_lazy r f = map_ok f (parse_result r)

-- What one of the two start functions is given: C strings as their bytes, `none` for a null pointer.
pub record StartArgs : Type 0 where
  pub devname : Option (List ℕ)
  pub name : List ℕ
  pub config : AwConfig
  pub reports_errors : Bool

-- The operations of libaudiowire. `World` is everything that they act on: the streams and the devices.
pub record Driver : Type 1 where
  pub World : Type 0
  pub Handle : Type 0
  pub aw_initialize : World → AwResult × World
  pub aw_terminate : World → AwResult × World
  pub aw_start_record : StartArgs → World → AwResult × Handle × World
  pub aw_start_playback : StartArgs → World → AwResult × Handle × World
  pub aw_device_name : Handle → World → Option String
  pub aw_sample_rate : Handle → World → ℕ
  pub aw_buffer_capacity : Handle → World → ℕ
  pub aw_record_peek : Handle → World → ℕ
  pub aw_record_read : Handle → ℕ → World → List ℕ × World
  pub aw_playback_peek : Handle → World → ℕ
  pub aw_playback_write : Handle → List ℕ → World → ℕ × World
  pub aw_stop : Handle → World → AwResult × World

-- `initialize` and `terminate` of mod.rs
module _ (d : Driver) where
  unfoldable pub initialize : d.World → Outcome DeviceError Unit × d.World
  unfolding parse_result
  initialize w = let (r, w') = d.aw_initialize w in (parse_result r, w')

  unfoldable pub terminate : d.World → Outcome DeviceError Unit × d.World
  unfolding parse_result
  terminate w = let (r, w') = d.aw_terminate w in (parse_result r, w')
