-- ===== src/Frame.antt =====
-- The byte formats of audiowire/src/handlers.rs: a packet with its length in front, and samples as bytes.
pub mod Laws
use audiowire.Base.{ℕ, ◌+◌, ◌*◌, ◌/◌, ◌%◌, ◌^◌, List, [], ◌∷◌, ◌++◌, length, take}

-- `u16::to_be_bytes` of `size as u16`
unfoldable pub to_be_bytes : ℕ → List ℕ
to_be_bytes size = (size % 2 ^ 16 / 256) ∷ (size % 2 ^ 16 % 256) ∷ []

-- `u16::from_be_bytes` of the two bytes of `head`
unfoldable pub from_be_bytes : List ℕ → ℕ
from_be_bytes [] = 0
from_be_bytes (hi ∷ []) = hi
from_be_bytes (hi ∷ lo ∷ rest) = hi * 256 + lo

-- The bytes behind the two of the length in the 8192 bytes of both handlers' buffers
abbrev pub max_payload : ℕ
max_payload = 8190

-- What `handle_opus_record_stream` writes for one packet: `buf[..end]`, after the length is copied into its head.
unfoldable pub frame : List ℕ → List ℕ
unfolding to_be_bytes
frame payload = to_be_bytes (length payload) ++ payload

-- Packets one after the other, as they go over a byte stream
abbrev pub wire : List (List ℕ) → List ℕ
wire [] = []
wire (p ∷ ps) = frame p ++ wire ps

-- `convert_slice::<i16, u8>(buf, len)` on a little-endian machine
unfoldable pub samples_to_bytes : List ℕ → List ℕ
samples_to_bytes [] = []
samples_to_bytes (x ∷ xs) = (x % 256) ∷ (x / 256) ∷ samples_to_bytes xs

unfoldable pub convert_to_bytes : List ℕ → ℕ → List ℕ
unfolding samples_to_bytes
convert_to_bytes buf len = take (len * 2 / 1) (samples_to_bytes buf)

-- `convert_slice::<u8, i16>(buf, len)`; an odd last byte is not part of the slice.
unfoldable pub bytes_to_samples : List ℕ → List ℕ
bytes_to_samples [] = []
bytes_to_samples (lo ∷ []) = []
bytes_to_samples (lo ∷ hi ∷ rest) = (lo + hi * 256) ∷ bytes_to_samples rest

unfoldable pub convert_to_samples : List ℕ → ℕ → List ℕ
unfolding bytes_to_samples
convert_to_samples buf len = take (len * 1 / 2) (bytes_to_samples buf)
