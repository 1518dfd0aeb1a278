-- ===== src/Native/Pulse/Stops.antt =====
-- The calls with which libaudiowire/src/pulseaudio.c stops a stream.
use mathlib.Core.Path.{subst}
use mathlib.Core.Bool.{false≢true}
use audiowire.Base.{
  ℕ, ◌≡◌, inl, inr, refl, ap, ◌∙◌, Bool, true, false, List, [], ◌∷◌, ◌++◌, Option, none, some,
  String, Bool-cases,
}
use audiowire.Config.{AwConfig}
use audiowire.Device.{AwResult, is_zero}
use audiowire.Native.{AwStream}
use audiowire.Native.Pulse.Client.{
  Call, loop_stop, loop_free, context_errno, context_disconnect, context_unref, stream_disconnect,
  stream_unref, PulseClient, Held, nothing, connected, allowed, loose, touches, unguarded,
}
use audiowire.Native.Pulse.Calls.{Leaves, more, Guarded, unguarded-snoc}
use audiowire.Native.Pulse.Start.{
  Job, did, answer, AwPulseStream, error_stream, free_stream, start_stream, aw_stop,
}
use audiowire.Native.Backend.{no_error}
use audiowire.Native.Pulse.Order.{Settled, SettledIf, start_stream-Settled}

-- One more call, and whether it is guarded
loosely :
    {h h' : Held} {us : List Call} (cs : List Call) (c : Call)
    → Leaves h cs × (unguarded nothing cs ≡ us)
    → allowed h c ≡ some h'
    → Leaves h' (cs ++ (c ∷ [])) × (unguarded nothing (cs ++ (c ∷ [])) ≡ us ++ loose h c)
loosely {h} cs c (e, q) k =
    (more cs c e k, unguarded-snoc nothing h cs c e ∙ ap (λ l. l ++ loose h c) q)

module _ (pa : PulseClient) where
  -- What a stop leaves: nothing, after four calls without the lock, or the stream as it was, after two
  abbrev pub Stopped : AwResult × Option (AwPulseStream pa) × Job pa → Type 0
  Stopped (r, none, j) =
      Leaves nothing j.calls
      × (unguarded nothing j.calls
          ≡ stream_disconnect ∷ stream_unref ∷ context_disconnect ∷ context_unref ∷ [])
  Stopped (r, some s, j) =
      Leaves connected j.calls
      × (unguarded nothing j.calls ≡ stream_disconnect ∷ context_errno ∷ [])

  refused :
      (s : AwPulseStream pa) (j : Job pa)
      → Guarded connected j.calls
      → let (r, j1) = error_stream pa (did pa stream_disconnect j) in Stopped (r, some s, j1)
  unfolding error_stream allowed loose touches
  refused s j g = loosely _ context_errno (loosely _ stream_disconnect g refl) refl

  freed :
      (j : Job pa)
      → Guarded connected j.calls
      → Stopped (no_error, none, free_stream pa true (did pa stream_disconnect j))
  unfolding free_stream allowed loose touches
  freed j g =
      loosely _ loop_free
        (loosely _ loop_stop
          (loosely _ context_unref
            (loosely _ context_disconnect
              (loosely _ stream_unref (loosely _ stream_disconnect g refl) refl) refl)
            refl)
          refl)
        refl

  aw_stop-Stopped :
      (base : AwStream) (has_handle : Bool) (j : Job pa)
      → has_handle ≡ true
      → Guarded connected j.calls
      → Stopped (aw_stop pa (record { base = base; has_handle = has_handle }) j)
  unfolding aw_stop
  aw_stop-Stopped base false j e g = absurd (false≢true e)
  aw_stop-Stopped base true j e g = elim (Bool-cases (is_zero (answer pa stream_disconnect j))) [
    | inl good ↦ rw good (freed j g)
    | inr bad ↦ rw bad (refused (record { base = base; has_handle = true }) j g)
  ]

  -- Whatever PulseAudio answers, a stop after a start that returned a stream, in whatever state the library is by then, has
  -- made its calls in order: either all that the start made is released, each once, or the stream is as it was. But its
  -- calls on the stream and the context are made while the main loop runs and without its lock: the four with which it
  -- disconnects and releases them, or the first of these and the question for its error.
  pub aw_stop-Stopped_started :
      (fuel : ℕ) (is_input : Bool) (devname : Option (List ℕ)) (name : List ℕ) (cfg : AwConfig)
      (to_text : List ℕ → String) (error_cb : Bool) (w later : pa.State) (r : AwResult)
      (s : AwPulseStream pa) (j : Job pa)
      → start_stream pa fuel to_text is_input devname name cfg error_cb w ≡ some (r, some s, j)
      → Stopped (aw_stop pa s (record j { state = later }))
  aw_stop-Stopped_started fuel is_input devname name cfg to_text error_cb w later r s j e =
      let (g, has) : Settled pa (r, some s, j) =
        subst (SettledIf pa) e
          (start_stream-Settled pa fuel is_input devname name cfg to_text error_cb w) in
      aw_stop-Stopped s.base s.has_handle (record j { state = later }) has g
