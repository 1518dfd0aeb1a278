-- ===== src/Native/Starts.antt =====
-- How libaudiowire's streams over PortAudio (src/portaudio.c) start and stop.
use audiowire.Base.{
  ℕ, suc, ◌≡◌, inl, inr, refl, sym, ◌∙◌, Bool, true, false, List, Option, none, some, String, ℤ,
  pos, Bool-cases, if◌then◌else◌,
}
use mathlib.Core.Bool.{false≢true}
use audiowire.Config.{AwConfig}
use audiowire.Device.{is_zero}
use audiowire.Native.{AwStream}
use audiowire.Native.PortAudio.{PortAudio, OpenArgs}
use audiowire.Native.Devices.{device_is_valid, default_device, choose_device}
use audiowire.Native.Backend.{AwPaStream, asserted, open_and_start, start_stream, aw_stop, no_error}

-- What the library does to the number of streams that are open
pub record Counts (pa : PortAudio) (streams : pa.State → ℕ) : Type 0 where
  pub opens :
      (args : OpenArgs) (w : pa.State)
      → is_zero (pa.open_stream args w).0 ≡ true
      → streams (pa.open_stream args w).2 ≡ suc (streams w)
  pub starts : (s : pa.PaStream) (w : pa.State) → streams (pa.start_stream s w).1 ≡ streams w
  pub stops : (s : pa.PaStream) (w : pa.State) → streams (pa.stop_stream s w).1 ≡ streams w
  pub closes :
      (s : pa.PaStream) (w : pa.State)
      → is_zero (pa.close_stream s w).0 ≡ true
      → suc (streams (pa.close_stream s w).1) ≡ streams w

choose_device-no_default :
    (pa : PortAudio) (cfg : AwConfig) (devname : Option (List ℕ)) (is_input : Bool) (w : pa.State)
    → default_device pa is_input w ≡ none
    → pa.get_device_info none w ≡ none
    → choose_device pa cfg devname is_input w ≡ none
unfolding choose_device device_is_valid
choose_device-no_default pa cfg devname is_input w nothing null =
    rw (nothing, choose_device) (rw (null, device_is_valid) refl)

-- Where PortAudio has no default device and answers a null pointer to the question about no device, as it does for an
-- index out of range, a start whose assertions hold reads that null pointer, although other devices may fit.
pub start_stream-no_default :
    (pa : PortAudio) (to_text : List ℕ → String) (devname : Option (List ℕ)) (cfg : AwConfig)
    (is_input error_cb : Bool) (w : pa.State)
    → asserted cfg ≡ true
    → default_device pa is_input w ≡ none
    → pa.get_device_info none w ≡ none
    → start_stream pa to_text devname cfg is_input error_cb w ≡ none
unfolding start_stream choose_device device_is_valid
start_stream-no_default pa to_text devname cfg is_input error_cb w holds nothing null =
    rw (holds, start_stream)
      (rw (choose_device-no_default pa cfg devname is_input w nothing null) refl)

module _ (pa : PortAudio) (streams : pa.State → ℕ) (counts : Counts pa streams) where
  -- If PortAudio opens the stream and fails to start it, the result is the error of the start, there is no stream to
  -- stop, and PortAudio has one more open stream than before.
  pub open_and_start-leaks :
      (base : AwStream) (args : OpenArgs) (w : pa.State)
      → let (e, handle, w1) = pa.open_stream args w in
        is_zero e ≡ true
        → is_zero (pa.start_stream handle w1).0 ≡ false
        → let (r, s, w') = open_and_start pa base args w in
          (r.code ≡ (pa.start_stream handle w1).0) × (s ≡ none) × (streams w' ≡ suc (streams w))
  unfolding open_and_start
  open_and_start-leaks base args w opened failed =
      rw (opened, open_and_start)
        (rw (failed, open_and_start) (refl, refl, counts.starts _ _ ∙ counts.opens args w opened))

  -- The stream after a start that succeeds
  abbrev pub started : AwStream → pa.PaStream → pa.State → AwPaStream pa
  started base handle w = record {
    base = record base { sample_rate = pa.stream_sample_rate handle w };
    handle = some handle;
  }

  -- PortAudio's stream, stopped if it is active
  abbrev stopped : pa.PaStream → pa.State → ℤ × pa.State
  stopped handle w = if pa.is_stream_active handle w then pa.stop_stream handle w else (pos 0, w)

  stopped-streams : (handle : pa.PaStream) (w : pa.State) → streams (stopped handle w).1 ≡ streams w
  stopped-streams handle w = elim (Bool-cases (pa.is_stream_active handle w)) [
    | inl active ↦ rw active (counts.stops handle w)
    | inr idle ↦ rw idle refl
  ]

  -- A stop that succeeds
  abbrev pub Stopped : AwPaStream pa → pa.State → Type 0
  Stopped stream w =
      let (r, s, w') = aw_stop pa stream w in (s ≡ none) × (suc (streams w') ≡ streams w)

  aw_stop-Stopped :
      (stream : AwPaStream pa) (handle : pa.PaStream) (w : pa.State)
      → stream.handle ≡ some handle
      → is_zero (aw_stop pa stream w).0.code ≡ true
      → Stopped stream w
  unfolding aw_stop
  aw_stop-Stopped stream handle w e =
      rw (e, aw_stop)
        (elim (Bool-cases (is_zero (stopped handle w).0)) [
          | inl halted ↦
              elim (Bool-cases (is_zero (pa.close_stream handle (stopped handle w).1).0)) [
                | inl closed ↦
                    rw (halted, closed)
                      (λ h. (refl, counts.closes handle _ closed ∙ stopped-streams handle w))
                | inr bad ↦ rw (halted, bad) (λ h. absurd (false≢true (sym bad ∙ h)))
              ]
          | inr bad ↦ rw bad (λ h. absurd (false≢true (sym bad ∙ h)))
        ])

  -- If PortAudio opens and starts the stream, the start returns it without an error, with the handle and the sample rate
  -- that PortAudio gives, and one more stream is open; if then aw_stop returns without an error, in whatever state the
  -- stream is by then, the stream is freed and one stream fewer is open than before aw_stop.
  pub start-stop :
      (base : AwStream) (args : OpenArgs) (w later : pa.State)
      → let (e, handle, w1) = pa.open_stream args w in
        let (e', w2) = pa.start_stream handle w1 in
        let stream = started base handle w1 in
        is_zero e ≡ true
        → is_zero e' ≡ true
        → is_zero (aw_stop pa stream later).0.code ≡ true
        → (open_and_start pa base args w ≡ (no_error, some stream, w2))
          × (streams w2 ≡ suc (streams w))
          × Stopped stream later
  unfolding open_and_start
  start-stop base args w later opened running closed = (
    rw (opened, open_and_start) (rw (running, open_and_start) refl),
    counts.starts _ _ ∙ counts.opens args w opened,
    aw_stop-Stopped _ _ later refl closed,
  )
