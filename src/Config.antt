-- ===== src/Config.antt =====
-- audiowire/src/audiowire/config.rs and the default of audiowire/src/lib.rs, with the part of
-- libaudiowire (src/common.c, src/internals.h) that measures a configuration on the other side.
pub mod Sizes
use audiowire.Base.{ℕ, zero, suc, ◌*◌, ◌/◌, ◌%◌, ◌^◌, Option, none, some, ◌==◌, if◌then◌else◌}

-- `SampleFormat`; the values are those of `aw_sample_format`.
pub data SampleFormat : Type 0 where
  s16 f32 : SampleFormat

unfoldable pub as_u32 : SampleFormat → ℕ
as_u32 s16 = 0
as_u32 f32 = 1

-- `aw_sample_size` of src/common.c
unfoldable pub aw_sample_size : ℕ → ℕ
aw_sample_size zero = 2
aw_sample_size (suc zero) = 4
aw_sample_size (suc (suc n)) = 0

-- `SampleFormat::size`
unfoldable pub size : SampleFormat → ℕ
unfolding as_u32 aw_sample_size
size f = aw_sample_size (as_u32 f)

pub record Config : Type 0 where
  pub channels : ℕ
  pub sample_rate : ℕ
  pub sample_format : SampleFormat
  pub buffer_frames : ℕ
  pub max_buffer_frames : ℕ

abbrev pub usize_mod : ℕ
usize_mod = 2 ^ 64

abbrev pub u32_mod : ℕ
u32_mod = 2 ^ 32

-- Products of `usize` wrap, as a release build computes them.
unfoldable pub frame_size : Config → ℕ
unfolding size
frame_size c = c.channels * size c.sample_format % usize_mod

unfoldable pub buffer_size : Config → ℕ
unfolding frame_size
buffer_size c = c.buffer_frames * frame_size c % usize_mod

unfoldable pub max_buffer_size : Config → ℕ
unfolding frame_size
max_buffer_size c = c.max_buffer_frames * frame_size c % usize_mod

-- In milliseconds; `none` is the panic of a division by zero.
unfoldable pub frame_count_to_duration : Config → ℕ → Option ℕ
frame_count_to_duration c count =
    if c.sample_rate == 0 then none else some (count * 1000 % usize_mod / c.sample_rate)

unfoldable pub buffer_duration : Config → Option ℕ
unfolding frame_count_to_duration
buffer_duration c = frame_count_to_duration c c.buffer_frames

unfoldable pub max_buffer_duration : Config → Option ℕ
unfolding frame_count_to_duration
max_buffer_duration c = frame_count_to_duration c c.max_buffer_frames

-- `aw_config`
pub record AwConfig : Type 0 where
  pub channels : ℕ
  pub sample_rate : ℕ
  pub sample_format : ℕ
  pub buffer_frames : ℕ
  pub max_buffer_frames : ℕ

-- `Into<aw_config> for Config`: the two counts are cut to 32 bits.
unfoldable pub into : Config → AwConfig
unfolding as_u32
into c = record {
  channels = c.channels;
  sample_rate = c.sample_rate;
  sample_format = as_u32 c.sample_format;
  buffer_frames = c.buffer_frames % u32_mod;
  max_buffer_frames = c.max_buffer_frames % u32_mod;
}

-- `frame_buffer_size` and `frame_size` of src/internals.h
unfoldable pub native_buffer_size : AwConfig → ℕ → ℕ
unfolding aw_sample_size
native_buffer_size c count =
    count * (c.channels * aw_sample_size c.sample_format % usize_mod) % usize_mod

-- `DEFAULT_CONFIG`
abbrev pub default_config : Config
default_config = record {
  channels = 2;
  sample_rate = 48000;
  sample_format = s16;
  buffer_frames = 960;
  max_buffer_frames = 14400;
}
