-- ===== src/Native/Table/Laws.antt =====
-- The count of the streams that libaudiowire over PortAudio has allocated, call by call.
use audiowire.Base.{
  ℕ, suc, zero, ◌+◌, ◌-◌, ◌≡◌, inl, inr, refl, ap, ◌∙◌, arith, Bool, true, false, List, [], ◌∷◌,
  ◌++◌, Option, none, some, String, Bool-cases, pos, ℤ, if◌then◌else◌,
}
use audiowire.Base.Arrays.{get_or, set}
use audiowire.Config.{AwConfig}
use audiowire.Device.{AwResult, StartArgs, is_zero, is_ok}
use audiowire.Ring.{◌>>=◌}
use audiowire.Stream.{Direction, capture, playback, start_fn}
use audiowire.Handlers.Check.Balance.{Counts}
use audiowire.Loopback.Ends.{Steady}
use audiowire.Native.{AwStream, aw_stream_base_init, aw_record_read, aw_playback_write}
use audiowire.Native.PortAudio.{PortAudio, OpenArgs}
use audiowire.Native.Devices.{choose_device}
use audiowire.Native.Backend.{
  AwPaStream, asserted, pa_format, aw_start_record, aw_start_playback, start_stream, open_and_start,
  aw_stop,
}
use audiowire.Native.Table.{
  Handle, World, stream_at, put_at, stop_at, started, stopped, native_driver, live, allocated,
  based, call_at,
}

module _ (pa : PortAudio) where
  -- A result without an error comes with a stream, and one with an error without.
  abbrev pub Agrees : AwResult × Option (AwPaStream pa) × pa.State → Type 0
  Agrees (r, none, state) = is_zero r.code ≡ false
  Agrees (r, some s, state) = is_zero r.code ≡ true

  abbrev pub StartAgrees : Option (AwResult × Option (AwPaStream pa) × pa.State) → Type 0
  StartAgrees none = Unit
  StartAgrees (some r) = Agrees r

  open_and_start-Agrees :
      (base : AwStream) (args : OpenArgs) (w : pa.State) → Agrees (open_and_start pa base args w)
  unfolding open_and_start
  open_and_start-Agrees base args w = elim (Bool-cases (is_zero (pa.open_stream args w).0)) [
    | inl opened ↦
        let h = (pa.open_stream args w).1 in
        let w1 = (pa.open_stream args w).2 in
        elim (Bool-cases (is_zero (pa.start_stream h w1).0)) [
          | inl running ↦ rw (opened, open_and_start) (rw (running, open_and_start) refl)
          | inr bad ↦ rw (opened, open_and_start) (rw (bad, open_and_start) bad)
        ]
    | inr bad ↦ rw (bad, open_and_start) bad
  ]

  bind-StartAgrees :
      {A : Type 0} (o : Option A) (f : A → Option (AwResult × Option (AwPaStream pa) × pa.State))
      → ((a : A) → StartAgrees (f a))
      → StartAgrees (o >>= f)
  bind-StartAgrees none f h = tt
  bind-StartAgrees (some a) f h = h a

  choice-StartAgrees :
      {A : Type 0} (o : Option (Option A))
      (f : Option A → Option (AwResult × Option (AwPaStream pa) × pa.State))
      → StartAgrees (f none)
      → ((a : A) → StartAgrees (f (some a)))
      → StartAgrees (o >>= f)
  choice-StartAgrees none f h k = tt
  choice-StartAgrees (some none) f h k = h
  choice-StartAgrees (some (some a)) f h k = k a

  test-StartAgrees :
      (b : Bool) (o : Option (AwResult × Option (AwPaStream pa) × pa.State))
      → StartAgrees o
      → StartAgrees (if b then o else none)
  test-StartAgrees true o h = h
  test-StartAgrees false o h = tt

  pub start_stream-Agrees :
      (to_text : List ℕ → String) (devname : Option (List ℕ)) (cfg : AwConfig)
      (is_input error_cb : Bool) (w : pa.State)
      → StartAgrees (start_stream pa to_text devname cfg is_input error_cb w)
  unfolding start_stream
  start_stream-Agrees to_text devname cfg is_input error_cb w = test-StartAgrees (asserted cfg) _ (
      choice-StartAgrees (choose_device pa cfg devname is_input w) _ refl (λ c.
        bind-StartAgrees (aw_stream_base_init cfg (some (to_text c.1.name)) error_cb) _ (λ base.
          bind-StartAgrees (pa_format cfg.sample_format) _
            (λ format. open_and_start-Agrees base _ w))))

  -- PortAudio's stream, stopped if it is active
  abbrev halted : pa.PaStream → pa.State → ℤ × pa.State
  halted h w = if pa.is_stream_active h w then pa.stop_stream h w else (pos 0, w)

  -- A stop without an error frees the stream, one with an error keeps it.
  pub aw_stop-frees :
      (s : AwPaStream pa) (w : pa.State) (h : Option pa.PaStream) (kept : Option (AwPaStream pa))
      → s.handle ≡ h
      → some s ≡ kept
      → (aw_stop pa s w).1 ≡ (if is_zero (aw_stop pa s w).0.code then none else kept)
  unfolding aw_stop
  aw_stop-frees s w none kept e k = rw (e, aw_stop) refl
  aw_stop-frees s w (some h) kept e k =
      rw (e, aw_stop)
        (elim (Bool-cases (is_zero (halted h w).0)) [
          | inl done ↦ elim (Bool-cases (is_zero (pa.close_stream h (halted h w).1).0)) [
            | inl closed ↦ rw (done, closed) refl
            | inr bad ↦ rw (done, bad) (rw bad k)
          ]
          | inr bad ↦ rw bad (rw bad k)
        ])

  live-append :
      (ss : List (Option (AwPaStream pa))) (s : AwPaStream pa)
      → live pa (ss ++ (some s ∷ [])) ≡ live pa ss + 1
  live-append [] s = refl
  live-append (none ∷ ss) s = live-append ss s
  live-append (some t ∷ ss) s = omega (arith, live-append ss s)

  live-set :
      (ss : List (Option (AwPaStream pa))) (i : ℕ) (s t : AwPaStream pa)
      → get_or ss i none ≡ some s
      → live pa (set ss i (some t)) ≡ live pa ss
  live-set [] i s t e = refl
  live-set (none ∷ ss) zero s t e = cc
  live-set (some x ∷ ss) zero s t e = refl
  live-set (none ∷ ss) (suc i) s t e = live-set ss i s t e
  live-set (some x ∷ ss) (suc i) s t e = ap suc (live-set ss i s t e)

  live-free :
      (ss : List (Option (AwPaStream pa))) (i : ℕ) (s : AwPaStream pa)
      → get_or ss i none ≡ some s
      → live pa (set ss i none) + 1 ≡ live pa ss
  live-free [] i s e = cc
  live-free (none ∷ ss) zero s e = cc
  live-free (some x ∷ ss) zero s e = omega arith
  live-free (none ∷ ss) (suc i) s e = live-free ss i s e
  live-free (some x ∷ ss) (suc i) s e = omega (arith, live-free ss i s e)

  -- What a start does to the count, by what it agrees with
  started-live :
      (w : World pa) (r : Option (AwResult × Option (AwPaStream pa) × pa.State))
      → StartAgrees r
      → allocated pa (started pa w r).2
        ≡ (if is_zero (started pa w r).0.code then allocated pa w + 1 else allocated pa w)
  started-live w none h = refl
  started-live w (some (r, none, state)) h = rw h refl
  started-live w (some (r, some s, state)) h = rw h (live-append w.streams s)

  put_at-live :
      (h : Handle) (s t : AwPaStream pa) (w : World pa)
      → stream_at pa h w ≡ some s
      → allocated pa (put_at pa h (some t) w) ≡ allocated pa w
  put_at-live none s t w e = refl
  put_at-live (some i) s t w e = live-set w.streams i s t e

  put_at-free :
      (h : Handle) (s : AwPaStream pa) (w : World pa)
      → stream_at pa h w ≡ some s
      → allocated pa (put_at pa h none w) + 1 ≡ allocated pa w
  put_at-free none s w e = cc
  put_at-free (some i) s w e = live-free w.streams i s e

  stopped-live :
      (h : Handle) (s : AwPaStream pa) (w : World pa)
      (r : AwResult × Option (AwPaStream pa) × pa.State)
      → stream_at pa h w ≡ some s
      → r.1 ≡ (if is_zero r.0.code then none else some s)
      → allocated pa (stopped pa h w r).1
        ≡ (if is_zero (stopped pa h w r).0.code then allocated pa w - 1 else allocated pa w)
  stopped-live h s w (r, s', state) e k = elim (Bool-cases (is_zero r.code)) [
    | inl good ↦ rw (good, k) (rw good (omega (arith, put_at-free h s w e)))
    | inr bad ↦ rw (bad, k) (rw bad (put_at-live h s s w e))
  ]

  module _ (to_text : List ℕ → String) where
    started-Agrees :
        (dir : Direction) (a : StartArgs) (w : World pa)
        → let r = start_fn (native_driver pa to_text) dir a w in
          allocated pa r.2 ≡ (if is_zero r.0.code then allocated pa w + 1 else allocated pa w)
    unfolding aw_start_record aw_start_playback
    started-Agrees capture a w =
        started-live w _
          (start_stream-Agrees to_text a.devname a.config true a.reports_errors w.state)
    started-Agrees playback a w =
        started-live w _
          (start_stream-Agrees to_text a.devname a.config false a.reports_errors w.state)

    stop_at-live :
        (h : Handle) (w : World pa) (o : Option (AwPaStream pa))
        → stream_at pa h w ≡ o
        → let r = stop_at pa h w in
          allocated pa r.1 ≡ (if is_zero r.0.code then allocated pa w - 1 else allocated pa w)
    unfolding stop_at
    stop_at-live h w none e = rw (e, stop_at) refl
    stop_at-live h w (some s) e =
        rw (e, stop_at)
          (stopped-live h s w (aw_stop pa s w.state) e
            (aw_stop-frees s w.state s.handle (some s) refl refl))

    -- The streams that libaudiowire has allocated over PortAudio are as the Rust side counts them: a start or a stop
    -- that succeeds, and no other, adds one or takes one away, whatever PortAudio answers.
    pub native_driver-Counts : Counts (native_driver pa to_text) (allocated pa)
    unfolding is_ok
    native_driver-Counts = record {
      start_ok = λ dir a w e.
          started-Agrees dir a w ∙ ap (λ b. if b then allocated pa w + 1 else allocated pa w) e;
      start_err = λ dir a w e.
          started-Agrees dir a w ∙ ap (λ b. if b then allocated pa w + 1 else allocated pa w) e;
      stop_ok = λ h w e.
          stop_at-live h w _ refl ∙ ap (λ b. if b then allocated pa w - 1 else allocated pa w) e;
      stop_err = λ h w e.
          stop_at-live h w _ refl ∙ ap (λ b. if b then allocated pa w - 1 else allocated pa w) e;
    }

    based-live :
        {A : Type 0} (h : Handle) (s : AwPaStream pa) (w : World pa) (a : A)
        (r : Option (A × AwStream))
        → stream_at pa h w ≡ some s
        → allocated pa (based pa h w a s r).1 ≡ allocated pa w
    based-live h s w a none e = refl
    based-live h s w a (some (b, base)) e = put_at-live h s _ w e

    pub call_at-live :
        {A : Type 0} (h : Handle) (w : World pa) (a : A) (f : AwStream → Option (A × AwStream))
        (o : Option (AwPaStream pa))
        → stream_at pa h w ≡ o
        → allocated pa (call_at pa h w a f).1 ≡ allocated pa w
    call_at-live h w a f none e = rw (e, call_at) refl
    call_at-live h w a f (some s) e = rw (e, call_at) (based-live h s w a (f s.base) e)

    pub native_driver-Steady : Steady (native_driver pa to_text) (allocated pa)
    native_driver-Steady = record {
      reads = λ h n w. call_at-live h w [] (λ s. aw_record_read s n) _ refl;
      writes = λ h bytes w. call_at-live h w 0 (λ s. aw_playback_write s bytes) _ refl;
    }
