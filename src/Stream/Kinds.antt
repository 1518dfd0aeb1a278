-- ===== src/Stream/Kinds.antt =====
-- audiowire/src/audiowire/stream.rs: `RecordStream` and `PlaybackStream`, each around a `BaseStream`.
use audiowire.Base.{ℕ, List, Option, Outcome, map_ok}
use audiowire.Config.{Config}
use audiowire.Device.{DeviceError, Driver}
use audiowire.Stream.{BaseStream, StreamBuilder, capture, playback, builder, start_stream, stop}

pub record RecordStream (H : Type 0) : Type 0 where
  pub base : BaseStream H

pub record PlaybackStream (H : Type 0) : Type 0 where
  pub base : BaseStream H

-- `StreamInternal`: `base_mut` gives access to the base, which is then this one.
pub record StreamInternal (H S : Type 0) : Type 0 where
  pub base : S → BaseStream H
  pub base_mut : S → BaseStream H → S

abbrev pub record_internal : {H : Type 0} → StreamInternal H (RecordStream H)
record_internal = record { base = λ s. s.base; base_mut = λ s b. record s { base = b } }

abbrev pub playback_internal : {H : Type 0} → StreamInternal H (PlaybackStream H)
playback_internal = record { base = λ s. s.base; base_mut = λ s b. record s { base = b } }

module _ (d : Driver) where
  open d use {World, Handle}

  -- `StreamBuilder::start_record` and `start_playback`
  unfoldable pub start_record :
      StreamBuilder
      → List ℕ
      → Option (List ℕ)
      → World
      → Outcome DeviceError (RecordStream Handle) × World
  unfolding start_stream
  start_record b name device w =
      let (o, w') = start_stream d b capture name device w in
      (map_ok (λ s. record { base = s }) o, w')

  unfoldable pub start_playback :
      StreamBuilder
      → List ℕ
      → Option (List ℕ)
      → World
      → Outcome DeviceError (PlaybackStream Handle) × World
  unfolding start_stream
  start_playback b name device w =
      let (o, w') = start_stream d b playback name device w in
      (map_ok (λ s. record { base = s }) o, w')

  -- `Stream for RecordStream`, with `RecordStream::read`
  unfoldable pub record_start :
      List ℕ → Option (List ℕ) → Config → World → Outcome DeviceError (RecordStream Handle) × World
  unfolding builder start_record
  record_start name device c = start_record (builder c) name device

  unfoldable pub record_peek : RecordStream Handle → World → ℕ
  record_peek s w = d.aw_record_peek s.base.handle w

  unfoldable pub record_read : RecordStream Handle → ℕ → World → List ℕ × World
  record_read s n w = d.aw_record_read s.base.handle n w

  -- `Stream for PlaybackStream`, with `PlaybackStream::write`
  unfoldable pub playback_start :
      List ℕ
      → Option (List ℕ)
      → Config
      → World
      → Outcome DeviceError (PlaybackStream Handle) × World
  unfolding builder start_playback
  playback_start name device c = start_playback (builder c) name device

  unfoldable pub playback_peek : PlaybackStream Handle → World → ℕ
  playback_peek s w = d.aw_playback_peek s.base.handle w

  unfoldable pub playback_write : PlaybackStream Handle → List ℕ → World → ℕ × World
  playback_write s buf w = d.aw_playback_write s.base.handle buf w

  -- The methods that `Stream` has for both
  module _ {S : Type 0} (i : StreamInternal Handle S) where
    unfoldable pub stop_of : S → World → Outcome DeviceError Unit × S × World
    unfolding stop
    stop_of s w = let (o, b, w') = stop d (i.base s) w in (o, i.base_mut s b, w')
