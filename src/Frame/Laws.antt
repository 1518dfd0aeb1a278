-- ===== src/Frame/Laws.antt =====
-- Packets and samples are read back as they were written.
use audiowire.Base.{
  ℕ, ◌*◌, ◌/◌, ◌<◌, ◌^◌, ◌≡◌, refl, ap₂, arith, List, [], ◌∷◌, length, All, take-of_length_le,
}
use audiowire.Frame.{
  to_be_bytes, from_be_bytes, samples_to_bytes, convert_to_bytes, bytes_to_samples,
  convert_to_samples,
}

-- The length in front of a packet is read back as it was, for every length below 2 ^ 16, and its two bytes are bytes.
pub be_bytes_roundtrip :
    (n : ℕ) → n < 2 ^ 16 → (from_be_bytes (to_be_bytes n) ≡ n) × All (λ b. b < 256) (to_be_bytes n)
unfolding to_be_bytes from_be_bytes
be_bytes_roundtrip n h = omega arith

pub length-to_be_bytes : (n : ℕ) → length (to_be_bytes n) ≡ 2
unfolding to_be_bytes
length-to_be_bytes n = refl

samples_roundtrip : (xs : List ℕ) → bytes_to_samples (samples_to_bytes xs) ≡ xs
unfolding samples_to_bytes bytes_to_samples
samples_roundtrip [] = refl
samples_roundtrip (x ∷ xs) = ap₂ ◌∷◌ (omega arith) (samples_roundtrip xs)

length-samples_to_bytes : (xs : List ℕ) → length (samples_to_bytes xs) ≡ 2 * length xs
unfolding samples_to_bytes
length-samples_to_bytes [] = refl
length-samples_to_bytes (x ∷ xs) = omega (arith, length-samples_to_bytes xs)

convert_to_bytes_all : (xs : List ℕ) → convert_to_bytes xs (length xs) ≡ samples_to_bytes xs
unfolding convert_to_bytes
convert_to_bytes_all xs =
    take-of_length_le (length xs * 2 / 1) (samples_to_bytes xs)
      (omega (arith, length-samples_to_bytes xs))

convert_to_samples_all :
    (xs : List ℕ) → convert_to_samples (samples_to_bytes xs) (length (samples_to_bytes xs)) ≡ xs
unfolding convert_to_samples
convert_to_samples_all xs = rw samples_roundtrip (
    take-of_length_le (length (samples_to_bytes xs) * 1 / 2) xs
      (omega (arith, length-samples_to_bytes xs)))

-- Converting all samples of a buffer to bytes and all those bytes back to samples gives the samples.
pub convert_roundtrip :
    (xs : List ℕ)
    → let bytes = convert_to_bytes xs (length xs) in
      (length bytes ≡ 2 * length xs) × (convert_to_samples bytes (length bytes) ≡ xs)
convert_roundtrip xs =
    rw convert_to_bytes_all (length-samples_to_bytes xs, convert_to_samples_all xs)
