-- ===== src/Config/Sizes.antt =====
-- The sizes that a configuration stands for: no wrap, the same on both sides, and the durations.
use audiowire.Base.{ℕ, ◌+◌, ◌*◌, ◌/◌, ◌%◌, ◌≤◌, ◌<◌, ◌^◌, ◌≡◌, arith, some, ap, refl}
use audiowire.Config.{
  Config, SampleFormat, s16, f32, size, frame_size, buffer_size, max_buffer_size, buffer_duration,
  into, native_buffer_size, usize_mod,
}

-- What the fields' types and the checks of libaudiowire's `start_stream` admit.
pub record IsValid (c : Config) : Type 0 where
  pub channels_u8 : c.channels < 256
  pub some_frames : 0 < c.buffer_frames
  pub frames_le_max : c.buffer_frames ≤ c.max_buffer_frames
  pub max_frames : c.max_buffer_frames ≤ 65536

size-le : (f : SampleFormat) → size f ≤ 4
unfolding size
size-le s16 = omega arith
size-le f32 = omega arith

mul-le : (a b m n : ℕ) → a ≤ m → b ≤ n → a * b ≤ m * n
mul-le a b m n p q = grind arith

frame_size_exact :
    (c : Config)
    → IsValid c
    → (frame_size c ≡ c.channels * size c.sample_format) × (frame_size c ≤ 1020)
unfolding frame_size
frame_size_exact c v =
    omega (
      arith,
      mul-le c.channels (size c.sample_format) 255 4 (omega arith) (size-le c.sample_format),
    )

buffer_size_lem : (c : Config) → buffer_size c ≡ c.buffer_frames * frame_size c % usize_mod
unfolding buffer_size
buffer_size_lem c = refl

max_buffer_size_lem :
    (c : Config) → max_buffer_size c ≡ c.max_buffer_frames * frame_size c % usize_mod
unfolding max_buffer_size
max_buffer_size_lem c = refl

div_bounds : (x y q : ℕ) → 0 < y → q ≡ x / y → (q * y ≤ x) × (x < (q + 1) * y)
div_bounds x y q h e = rw e (grind arith, grind arith)

-- Within the limits that libaudiowire checks, the sizes in bytes are the exact products, and they stay below 2 ^ 27.
pub sizes_exact :
    (c : Config)
    → IsValid c
    → (buffer_size c ≡ c.buffer_frames * (c.channels * size c.sample_format))
      × (max_buffer_size c ≡ c.max_buffer_frames * (c.channels * size c.sample_format))
      × (buffer_size c ≤ max_buffer_size c)
      × (max_buffer_size c < 2 ^ 27)
sizes_exact c v =
    let (e, small) = frame_size_exact c v in
    let whole : c.max_buffer_frames * frame_size c < 2 ^ 27 =
      omega (arith, mul-le c.max_buffer_frames (frame_size c) 65536 1020 v.max_frames small) in
    let part : c.buffer_frames * frame_size c ≤ c.max_buffer_frames * frame_size c =
      mul-le _ _ _ _ v.frames_le_max (omega arith) in
    omega (
      arith,
      buffer_size_lem c,
      max_buffer_size_lem c,
      ap (λ t. c.buffer_frames * t) e,
      ap (λ t. c.max_buffer_frames * t) e,
      e,
    )

-- Within the limits that libaudiowire checks, it computes the same size of the largest buffer from the
-- converted configuration as the Rust side does.
pub native-max_buffer_size :
    (c : Config)
    → IsValid c
    → native_buffer_size (into c) (into c).max_buffer_frames ≡ max_buffer_size c
unfolding native_buffer_size into max_buffer_size
native-max_buffer_size c v = ground (arith, v.max_frames)

-- Within the limits that libaudiowire checks, the duration of a buffer is its number of frames over the
-- sample rate, in whole milliseconds, rounded down.
pub buffer_duration_floor :
    (c : Config) (ms : ℕ)
    → IsValid c
    → buffer_duration c ≡ some ms
    → (ms * c.sample_rate ≤ c.buffer_frames * 1000)
      × (c.buffer_frames * 1000 < (ms + 1) * c.sample_rate)
unfolding buffer_duration
buffer_duration_floor c ms v e =
    ground (arith, div_bounds (c.buffer_frames * 1000) c.sample_rate ms)
