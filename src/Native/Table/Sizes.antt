-- ===== src/Native/Table/Sizes.antt =====
-- The streams over PortAudio whose rings have a given size: what a start makes, and what callbacks keep.
use mathlib.Core.Path.{subst}
use audiowire.Base.{
  ℕ, zero, suc, ◌^◌, ◌≤◌, ◌<◌, ◌≡◌, refl, Bool, not, true, false, List, [], ◌∷◌, Option, none, some,
  String, if◌then◌else◌,
}
use audiowire.Base.Arrays.{get_or, set}
use audiowire.Config.{AwConfig, native_buffer_size}
use audiowire.Device.{AwResult, is_zero}
use audiowire.Ring.{◌>>=◌}
use audiowire.Ring.Within.{Within}
use audiowire.Native.{AwStream}
use audiowire.Native.PortAudio.{PortAudio, OpenArgs}
use audiowire.Native.Devices.{choose_device}
use audiowire.Native.Backend.{AwPaStream, asserted, pa_format, open_and_start, aw_start_playback}
use audiowire.Native.Backend
use audiowire.Native.Table.{Handle, World, stream_at, call_at, crash, based}
use audiowire.Native.Table.Runs.{Callback, gives, asks, run_callback, run_callbacks}
use audiowire.Native.Table.Streams.{Left, base-Within, on_stream_read-Left, on_stream_write-Left}

module _ (pa : PortAudio) (to_text : List ℕ → String) (j : ℕ) (pos : 0 < j) where
  -- The stream at a place, if there is one, has a ring of 2 ^ j bytes.
  abbrev pub Small : Option (AwPaStream pa) → Type 0
  Small none = Unit
  Small (some s) = Within j s.base.ringbuf

  set-Small :
      (xs : List (Option (AwPaStream pa))) (i k : ℕ) (y : Option (AwPaStream pa))
      → Small (get_or xs k none)
      → (Small (get_or xs i none) → Small y)
      → Small (get_or (set xs i y) k none)
  set-Small [] i k y h f = tt
  set-Small (x ∷ xs) zero zero y h f = f h
  set-Small (x ∷ xs) zero (suc k) y h f = h
  set-Small (x ∷ xs) (suc i) zero y h f = h
  set-Small (x ∷ xs) (suc i) (suc k) y h f = set-Small xs i k y h f

  module _ {A : Type 0} (i k : ℕ) (w : World pa) (a : A) where
    based-Small :
        (s : AwPaStream pa) (r : Option (A × AwStream))
        → get_or w.streams i none ≡ some s
        → Small (get_or w.streams k none)
        → (Within j s.base.ringbuf → Left j r)
        → Small (get_or (based pa (some i) w a s r).1.streams k none)
    based-Small s none e h f = h
    based-Small s (some (b, base)) e h f = set-Small w.streams i k _ h (λ v. f (subst Small e v))

    called-Small :
        (o : Option (AwPaStream pa)) (f : AwStream → Option (A × AwStream))
        → get_or w.streams i none ≡ o
        → Small (get_or w.streams k none)
        → ((s : AwStream) → Within j s.ringbuf → Left j (f s))
        → let left : A × World pa = elim o [
          | none ↦ (a, crash pa w)
          | some s ↦ based pa (some i) w a s (f s.base)
        ] in
          Small (get_or left.1.streams k none)
    called-Small none f e h keeps = h
    called-Small (some s) f e h keeps = based-Small s (f s.base) e h (keeps s.base)

  -- The stream of a handle has such a ring.
  abbrev pub Full : Handle → World pa → Type 0
  Full h w = Small (stream_at pa h w)

  call_at-Full :
      {A : Type 0} (g h : Handle) (w : World pa) (a : A) (f : AwStream → Option (A × AwStream))
      → ((s : AwStream) → Within j s.ringbuf → Left j (f s))
      → Full h w
      → Full h (call_at pa g w a f).1
  call_at-Full g none w a f keeps full = tt
  call_at-Full none (some k) w a f keeps full = full
  call_at-Full (some i) (some k) w a f keeps full =
      called-Small i k w a (get_or w.streams i none) f refl full keeps

  pub run_callbacks-Full :
      (cs : List Callback) (h : Handle) (w : World pa)
      → Full h w
      → Full h (run_callbacks pa to_text cs w)
  unfolding run_callbacks run_callback
  run_callbacks-Full [] h w full = full
  run_callbacks-Full (gives g input count ∷ cs) h w full =
      run_callbacks-Full cs h (run_callback pa to_text (gives g input count) w)
        (call_at-Full g h w tt _ (λ s. on_stream_read-Left j pos pa to_text s input count) full)
  run_callbacks-Full (asks g output count ∷ cs) h w full =
      run_callbacks-Full cs h (run_callback pa to_text (asks g output count) w)
        (call_at-Full g h w [] _ (λ s. on_stream_write-Left j pos s output count) full)

  -- The stream of a start that makes one has such a ring.
  abbrev pub Makes : Option (AwResult × Option (AwPaStream pa) × pa.State) → Type 0
  Makes none = Unit
  Makes (some (r, o, state)) = Small o

  if-Makes :
      (b : Bool) (x y : AwResult × Option (AwPaStream pa) × pa.State)
      → Makes (some x)
      → Makes (some y)
      → Makes (some (if b then x else y))
  if-Makes true x y h k = h
  if-Makes false x y h k = k

  open_and_start-Makes :
      (base : AwStream) (args : OpenArgs) (state : pa.State)
      → Within j base.ringbuf
      → Makes (some (open_and_start pa base args state))
  unfolding open_and_start
  open_and_start-Makes base args state v =
      if-Makes (not (is_zero (pa.open_stream args state).0)) _ _ tt (
        if-Makes
          (not (
            is_zero
              (pa.start_stream (pa.open_stream args state).1 (pa.open_stream args state).2).0))
          _ _ tt v)

  bind-Makes :
      {A : Type 0} (o : Option A) (f : A → Option (AwResult × Option (AwPaStream pa) × pa.State))
      → ((a : A) → Makes (f a))
      → Makes (o >>= f)
  bind-Makes none f h = tt
  bind-Makes (some a) f h = h a

  choice-Makes :
      {A : Type 0} (o : Option (Option A))
      (f : Option A → Option (AwResult × Option (AwPaStream pa) × pa.State))
      → Makes (f none)
      → ((a : A) → Makes (f (some a)))
      → Makes (o >>= f)
  choice-Makes none f h k = tt
  choice-Makes (some none) f h k = h
  choice-Makes (some (some a)) f h k = k a

  test-Makes :
      (b : Bool) (o : Option (AwResult × Option (AwPaStream pa) × pa.State))
      → Makes o
      → Makes (if b then o else none)
  test-Makes true o h = h
  test-Makes false o h = tt

  pub start_stream-Makes :
      (devname : Option (List ℕ)) (cfg : AwConfig) (is_input error_cb : Bool) (state : pa.State)
      → native_buffer_size cfg cfg.max_buffer_frames ≡ 2 ^ j
      → j ≤ 63
      → Makes (Backend.start_stream pa to_text devname cfg is_input error_cb state)
  unfolding Backend.start_stream
  start_stream-Makes devname cfg is_input error_cb state size le = test-Makes (asserted cfg) _ (
      choice-Makes (choose_device pa cfg devname is_input state) _ tt (λ c.
        let (base, e, v) = base-Within j pos cfg (some (to_text c.1.name)) error_cb size le in
        rw e (
          bind-Makes (pa_format cfg.sample_format) _
            (λ format. open_and_start-Makes base _ state v))))
