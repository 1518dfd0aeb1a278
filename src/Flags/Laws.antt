-- ===== src/Flags/Laws.antt =====
-- What the flag bytes mean: the encoding of `StreamType` and `StreamFlags` is read back as it was written.
use audiowire.Base.{
  ℕ, zero, suc, ◌%◌, ◌<◌, ◌≡◌, refl, arith, Bool, true, false, ◌==◌, if◌then◌else◌,
}
use audiowire.Flags.{StreamFlags, type_of, is_source, is_sink, flags_of, stream_type, opus_enabled}

-- What a client writes about its two directions and about Opus is what the server reads back, for every combination,
-- and the flags byte stays below 8.
pub flags_roundtrip :
    (source sink opus : Bool)
    → let f = flags_of (type_of source sink) opus in
      (is_source (stream_type f) ≡ source)
      × (is_sink (stream_type f) ≡ sink)
      × (opus_enabled f ≡ opus)
      × (f.value < 8)
unfolding type_of is_source is_sink flags_of stream_type opus_enabled
flags_roundtrip true true true = (refl, refl, refl, omega arith)
flags_roundtrip true true false = (refl, refl, refl, omega arith)
flags_roundtrip true false true = (refl, refl, refl, omega arith)
flags_roundtrip true false false = (refl, refl, refl, omega arith)
flags_roundtrip false true true = (refl, refl, refl, omega arith)
flags_roundtrip false true false = (refl, refl, refl, omega arith)
flags_roundtrip false false true = (refl, refl, refl, omega arith)
flags_roundtrip false false false = (refl, refl, refl, omega arith)

-- The same for the byte that a server writes about its two directions.
pub type_roundtrip :
    (source sink : Bool)
    → (is_source (type_of source sink) ≡ source) × (is_sink (type_of source sink) ≡ sink)
unfolding type_of is_source is_sink
type_roundtrip true true = (refl, refl)
type_roundtrip true false = (refl, refl)
type_roundtrip false true = (refl, refl)
type_roundtrip false false = (refl, refl)

-- The flags rebuilt from what they are read as.
abbrev pub rebuilt : StreamFlags → StreamFlags
rebuilt f =
    flags_of (type_of (is_source (stream_type f)) (is_sink (stream_type f))) (opus_enabled f)

-- Two functions of a byte give the same for each of the first bytes.
same_up_to : (ℕ → ℕ) → (ℕ → ℕ) → ℕ → Bool
same_up_to read write zero = true
same_up_to read write (suc n) = if read n == write n then same_up_to read write n else false

same_up_to-at :
    (read write : ℕ → ℕ) (n x : ℕ) → x < n → same_up_to read write n ≡ true → read x ≡ write x
unfolding same_up_to
same_up_to-at read write zero x below same = absurd (omega arith)
same_up_to-at read write (suc n) x below same =
    let earlier = same_up_to-at read write n x in ground (arith, below, same, earlier)

abbrev read_and_written : ℕ → ℕ
read_and_written x = (rebuilt (record { value = x })).value

every_byte : same_up_to read_and_written (λ x. x % 8) 256 ≡ true
unfolding same_up_to type_of is_source is_sink flags_of stream_type opus_enabled
every_byte = refl

-- Of any byte that a peer sends as its flags, exactly the three low bits count: the flags that the reader
-- sees, written again, are the byte modulo 8.
pub flags_low_bits : (x : ℕ) → x < 256 → (rebuilt (record { value = x })).value ≡ x % 8
flags_low_bits x h = same_up_to-at read_and_written (λ y. y % 8) 256 x h every_byte
