-- ===== src/Native/Table.antt =====
-- libaudiowire over PortAudio (libaudiowire/src/common.c and portaudio.c) as the driver of the Rust side: the streams that
-- it has allocated and not freed are a table, and a handle is a null pointer or a place in it.
--
-- `crashed` is set by a call that fails an assertion or goes outside its memory, and by one on a stream that is freed or
-- was never there; what such a call returns says nothing. A getter on such a stream is zero.
pub mod Laws
pub mod Uses
pub mod Runs
pub mod Streams
pub mod Sizes
pub mod Starves
use audiowire.Base.{
  ℕ, suc, Bool, true, false, List, [], ◌∷◌, ◌++◌, Option, none, some, String, length, negsuc,
}
use audiowire.Base.Arrays.{get_or, set}
use audiowire.Device.{AwResult, StartArgs, Driver}
use audiowire.Native.{
  AwStream, aw_buffer_capacity, aw_record_peek, aw_record_read, aw_playback_peek, aw_playback_write,
}
use audiowire.Native.PortAudio.{PortAudio}
use audiowire.Native.Backend.{
  AwPaStream, aw_initialize, aw_terminate, aw_start_record, aw_start_playback, aw_stop,
}

abbrev pub Handle : Type 0
Handle = Option ℕ

abbrev pub aborted : AwResult
aborted = record { code = negsuc 0; message = none }

module _ (pa : PortAudio) where
  pub record World : Type 0 where
    pub state : pa.State
    pub streams : List (Option (AwPaStream pa))
    pub crashed : Bool

  abbrev pub crash : World → World
  crash w = record w { crashed = true }

  -- The stream that a handle points to
  abbrev pub stream_at : Handle → World → Option (AwPaStream pa)
  stream_at none w = none
  stream_at (some i) w = get_or w.streams i none

  abbrev pub put_at : Handle → Option (AwPaStream pa) → World → World
  put_at none s w = w
  put_at (some i) s w = record w { streams = set w.streams i s }

  -- A start that fails leaves the pointer null.
  abbrev pub allocate :
      World → AwResult × Option (AwPaStream pa) × pa.State → AwResult × Handle × World
  allocate w (r, none, state) = (r, none, record w { state = state })
  allocate w (r, some s, state) =
      (r, some (length w.streams), record w { state = state; streams = w.streams ++ (some s ∷ []) })

  abbrev pub started :
      World → Option (AwResult × Option (AwPaStream pa) × pa.State) → AwResult × Handle × World
  started w none = (aborted, none, crash w)
  started w (some r) = allocate w r

  abbrev pub stopped :
      Handle → World → AwResult × Option (AwPaStream pa) × pa.State → AwResult × World
  stopped h w (r, s, state) = (r, record (put_at h s w) { state = state })

  unfoldable pub stop_at : Handle → World → AwResult × World
  unfolding aw_stop
  stop_at h w = elim (stream_at h w) [
    | none ↦ (aborted, crash w)
    | some s ↦ stopped h w (aw_stop pa s w.state)
  ]

  -- A call on the base of a stream
  abbrev pub based :
      {A : Type 0} → Handle → World → A → AwPaStream pa → Option (A × AwStream) → A × World
  based h w a s none = (a, crash w)
  based h w a s (some (b, base)) = (b, put_at h (some (record s { base = base })) w)

  abbrev pub call_at :
      {A : Type 0} → Handle → World → A → (AwStream → Option (A × AwStream)) → A × World
  call_at h w a f = elim (stream_at h w) [ none ↦ (a, crash w) | some s ↦ based h w a s (f s.base) ]

  abbrev pub get_at : {A : Type 0} → Handle → World → A → (AwStream → A) → A
  get_at h w a f = elim (stream_at h w) [ none ↦ a | some s ↦ f s.base ]

  abbrev pub native_driver : (List ℕ → String) → Driver
  native_driver to_text = record {
    World = World;
    Handle = Handle;
    aw_initialize =
        λ w. let (r, state) = aw_initialize pa w.state in (r, record w { state = state });
    aw_terminate = λ w. let (r, state) = aw_terminate pa w.state in (r, record w { state = state });
    aw_start_record = λ a w.
        started w (aw_start_record pa to_text a.devname a.name a.config a.reports_errors w.state);
    aw_start_playback = λ a w.
        started w (aw_start_playback pa to_text a.devname a.name a.config a.reports_errors w.state);
    aw_device_name = λ h w. get_at h w none (λ s. s.devname);
    aw_sample_rate = λ h w. get_at h w 0 (λ s. s.sample_rate);
    aw_buffer_capacity = λ h w. get_at h w 0 aw_buffer_capacity;
    aw_record_peek = λ h w. get_at h w 0 aw_record_peek;
    aw_record_read = λ h n w. call_at h w [] (λ s. aw_record_read s n);
    aw_playback_peek = λ h w. get_at h w 0 aw_playback_peek;
    aw_playback_write = λ h bytes w. call_at h w 0 (λ s. aw_playback_write s bytes);
    aw_stop = stop_at;
  }

  -- How many streams are allocated
  abbrev pub live : List (Option (AwPaStream pa)) → ℕ
  live [] = 0
  live (none ∷ ss) = live ss
  live (some s ∷ ss) = suc (live ss)

  abbrev pub allocated : World → ℕ
  allocated w = live w.streams
