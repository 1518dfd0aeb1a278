-- ===== src/Flags.antt =====
-- audiowire/src/audiowire/stream.rs: `StreamType` and `StreamFlags`, the bytes that the peers exchange first.
pub mod Laws
use Prim.Native.Nat.{bit_and, bit_or}
use audiowire.Base.{
  ℕ, ◌*◌, Bool, true, false, not, List, [], ◌∷◌, Outcome, ok, panic, ◌==◌, if◌then◌else◌,
}

-- `StreamType(u8)`
pub record StreamType : Type 0 where
  pub value : ℕ

-- `StreamFlags(u8)`
pub record StreamFlags : Type 0 where
  pub value : ℕ

-- `1 << 1` and `1 << 2`
abbrev pub sink_bit : ℕ
sink_bit = 1 * 2

abbrev pub opus_bit : ℕ
opus_bit = 1 * 4

-- `impl StreamType`
unfoldable pub type_of : Bool → Bool → StreamType
type_of source sink =
    let value : ℕ = 0 in
    let value' = if source then bit_or value 1 else value in
    record { value = if sink then bit_or value' sink_bit else value' }

unfoldable pub is_source : StreamType → Bool
is_source t = not (bit_and t.value 1 == 0)

unfoldable pub is_sink : StreamType → Bool
is_sink t = not (bit_and t.value sink_bit == 0)

unfoldable pub type_to_bytes : StreamType → List ℕ
type_to_bytes t = t.value ∷ []

-- `From<&[u8]> for StreamType`: `value[0]` panics on an empty slice.
unfoldable pub type_from : {E : Type 0} → List ℕ → Outcome E StreamType
type_from [] = panic
type_from (x ∷ rest) = ok (record { value = x })

-- `impl StreamFlags`
unfoldable pub flags_of : StreamType → Bool → StreamFlags
flags_of t opus_enabled =
    if opus_enabled then record { value = bit_or t.value opus_bit } else record { value = t.value }

unfoldable pub stream_type : StreamFlags → StreamType
stream_type f = record { value = f.value }

unfoldable pub opus_enabled : StreamFlags → Bool
opus_enabled f = not (bit_and f.value opus_bit == 0)

unfoldable pub flags_to_bytes : StreamFlags → List ℕ
flags_to_bytes f = f.value ∷ []

-- `Default for StreamFlags`
unfoldable pub default : StreamFlags
default = record { value = 0 }

-- `From<&[u8]> for StreamFlags`
unfoldable pub flags_from : {E : Type 0} → List ℕ → Outcome E StreamFlags
flags_from [] = panic
flags_from (x ∷ rest) = ok (record { value = x })
