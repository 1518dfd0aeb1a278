-- ===== src/Native/Pulse/Order.antt =====
-- The order of the calls that libaudiowire/src/pulseaudio.c makes.
use mathlib.Core.Option
use mathlib.Core.Option.{some-injective, none-ne-some}
use audiowire.Base.{
  ℕ, zero, suc, ◌≡◌, refl, Bool, true, false, List, [], ◌∷◌, ◌&&◌, Option, none, some, String,
  if◌then◌else◌,
}
use audiowire.Config.{AwConfig}
use audiowire.Device.{is_zero}
use audiowire.Ring.{◌>>=◌}
use audiowire.Native.{AwStream, aw_stream_base_init}
use audiowire.Native.Pulse.Client.{
  Call, loop_new, loop_get_api, loop_start, loop_stop, loop_free, lock, unlock, wait, context_new,
  context_connect, context_set_state_callback, context_get_state, context_errno, context_disconnect,
  context_unref, stream_new, stream_connect, stream_unref, stream_set_state_callback,
  stream_set_moved_callback, stream_set_read_callback, stream_set_write_callback, stream_get_state,
  stream_get_sample_spec, PulseClient, Held, nothing, connected, allowed, accepts, loose, touches,
  unguarded,
}
use audiowire.Native.Pulse.Calls.{Leaves, more, Guarded, guarded}
use audiowire.Native.Pulse.States.{sample_spec, buffer_attr}
use audiowire.Native.Pulse.Start.{
  Job, did, answer, Started, error_stream, free_stream, error, unlock_error, cleanup, wait_until,
  wait_rounds, set_callbacks, context_ready, stream_ready, when_stream, connect_stream,
  when_context, start_loop, start_stream,
}

-- A main loop that may run and be locked, with a context and perhaps a stream
abbrev with_context : Bool → Bool → Bool → Held
with_context running locked stream = record {
  loop = true;
  running = running;
  locked = locked;
  context = true;
  stream = stream;
}

module _ (pa : PulseClient) where
  pub free_stream-Leaves :
      (running stream : Bool) (j : Job pa)
      → Leaves (with_context running false stream) j.calls
      → Leaves nothing (free_stream pa stream j).calls
  unfolding free_stream allowed
  free_stream-Leaves running true j e =
      more _ loop_free
        (more _ loop_stop
          (more _ context_unref (more _ context_disconnect (more _ stream_unref e refl) refl) refl)
          refl)
        refl
  free_stream-Leaves running false j e =
      more _ loop_free
        (more _ loop_stop (more _ context_unref (more _ context_disconnect e refl) refl) refl) refl

  -- By its result, whether a stream is there
  abbrev pub Settled : Started pa → Type 0
  Settled (r, none, j) = Leaves nothing j.calls
  Settled (r, some s, j) = Guarded connected j.calls × (s.has_handle ≡ true)

  abbrev pub SettledIf : Option (Started pa) → Type 0
  SettledIf none = Unit
  SettledIf (some r) = Settled r

  error-Settled :
      (running stream : Bool) (j : Job pa)
      → Leaves (with_context running false stream) j.calls
      → Settled (error pa stream j)
  unfolding error_stream allowed
  error-Settled running stream j e =
      free_stream-Leaves running stream (did pa context_errno j) (more _ context_errno e refl)

  unlock_error-Settled :
      (stream : Bool) (j : Job pa)
      → Leaves (with_context true true stream) j.calls
      → Settled (unlock_error pa stream j)
  unfolding allowed
  unlock_error-Settled stream j e =
      error-Settled true stream (did pa unlock j) (more _ unlock e refl)

  abbrev WaitGuarded : Bool → Option (Bool × Job pa) → Type 0
  WaitGuarded stream none = Unit
  WaitGuarded stream (some (b, j)) = Guarded (with_context true true stream) j.calls

  if-WaitGuarded :
      (stream b : Bool) (x y : Option (Bool × Job pa))
      → WaitGuarded stream x
      → WaitGuarded stream y
      → WaitGuarded stream (if b then x else y)
  if-WaitGuarded stream true x y h k = h
  if-WaitGuarded stream false x y h k = k

  -- With the lock, no call is loose.
  locked-loose : (stream : Bool) (c : Call) → loose (with_context true true stream) c ≡ []
  unfolding loose
  locked-loose stream c = elim (touches c) as (λ t. (if t && false then c ∷ [] else []) ≡ []) [
    | true ↦ refl
    | false ↦ refl
  ]

  wait_rounds-Guarded :
      (stream : Bool) (getter : Call) (reached good : pa.State → Bool)
      → allowed (with_context true true stream) getter ≡ some (with_context true true stream)
      → (n : ℕ) (seen : pa.State) (j : Job pa) → Guarded (with_context true true stream) j.calls
      → WaitGuarded stream (wait_rounds pa getter reached good n seen j)
  unfolding wait_rounds allowed loose touches
  wait_rounds-Guarded stream getter reached good a zero seen j e =
      if-WaitGuarded stream (reached seen) (some (true, j)) none e tt
  wait_rounds-Guarded stream getter reached good a (suc n) seen j e =
      let j1 = did pa wait j in
      let e1 : Guarded (with_context true true stream) j1.calls = guarded _ wait e refl refl in
      let j2 = did pa getter j1 in
      let e2 = guarded _ getter e1 a (locked-loose stream getter) in
      if-WaitGuarded stream (reached seen) (some (true, j)) _ e (
        if-WaitGuarded stream (good j1.state) (wait_rounds pa getter reached good n j1.state j2)
          (some (false, j2)) (wait_rounds-Guarded stream getter reached good a n j1.state j2 e2) e2)

  wait_until-Guarded :
      (stream : Bool) (getter : Call) (reached good : pa.State → Bool) (n : ℕ) (j : Job pa)
      → allowed (with_context true true stream) getter ≡ some (with_context true true stream)
      → Guarded (with_context true true stream) j.calls
      → WaitGuarded stream (wait_until pa getter reached good n j)
  unfolding wait_until
  wait_until-Guarded stream getter reached good n j a e =
      wait_rounds-Guarded stream getter reached good a n j.state (did pa getter j)
        (guarded _ getter e a (locked-loose stream getter))

  bind-SettledIf :
      (stream : Bool) (o : Option (Bool × Job pa)) (f : Bool × Job pa → Option (Started pa))
      → WaitGuarded stream o
      → ((r : Bool × Job pa) → Guarded (with_context true true stream) r.1.calls → SettledIf (f r))
      → SettledIf (o >>= f)
  bind-SettledIf stream none f h k = tt
  bind-SettledIf stream (some r) f h k = k r h

  if-SettledIf :
      (b : Bool) (x y : Option (Started pa))
      → SettledIf x
      → SettledIf y
      → SettledIf (if b then x else y)
  if-SettledIf true x y h k = h
  if-SettledIf false x y h k = k

  when_stream-Settled :
      (base : AwStream) (r : Bool × Job pa)
      → Guarded (with_context true true true) r.1.calls
      → Settled (when_stream pa base r)
  unfolding allowed loose touches
  when_stream-Settled base (true, j) e =
      (guarded _ unlock (guarded _ stream_get_sample_spec e refl refl) refl refl, refl)
  when_stream-Settled base (false, j) e = unlock_error-Settled true j e.0

  set_callbacks-Guarded :
      (is_input : Bool) (j : Job pa)
      → Guarded (with_context true true true) j.calls
      → Guarded (with_context true true true) (set_callbacks pa is_input j).calls
  unfolding set_callbacks allowed loose touches
  set_callbacks-Guarded true j e =
      guarded _ stream_set_read_callback
        (guarded _ stream_set_moved_callback (guarded _ stream_set_state_callback e refl refl) refl
          refl)
        refl refl
  set_callbacks-Guarded false j e =
      guarded _ stream_set_write_callback
        (guarded _ stream_set_moved_callback (guarded _ stream_set_state_callback e refl refl) refl
          refl)
        refl refl

  module _ (fuel : ℕ) (is_input : Bool) (devname : Option (List ℕ)) (name : List ℕ)
      (cfg : AwConfig) where
    connect_stream-Settled :
        (base : AwStream) (j : Job pa)
        → Guarded (with_context true true false) j.calls
        → SettledIf (connect_stream pa fuel is_input devname name cfg base j)
    unfolding connect_stream allowed loose touches
    connect_stream-Settled base j e =
        let made : Guarded (with_context true true true)
            (did pa (stream_new name (sample_spec cfg)) j).calls =
          guarded _ (stream_new name (sample_spec cfg)) e refl refl in
        let j1 = set_callbacks pa is_input (did pa (stream_new name (sample_spec cfg)) j) in
        let set =
          set_callbacks-Guarded is_input (did pa (stream_new name (sample_spec cfg)) j) made in
        let asked = guarded _ (stream_connect is_input devname (buffer_attr cfg)) set refl refl in
        let connect = stream_connect is_input devname (buffer_attr cfg) in
        let j2 = did pa connect j1 in
        let waited =
          wait_until pa stream_get_state (stream_ready pa)
            (λ w. pa.stream_is_good (pa.stream_state w)) fuel j2 in
        if-SettledIf (is_zero (answer pa connect j1))
          (waited >>= (λ r. some (when_stream pa base r))) (some (unlock_error pa true j2))
          (bind-SettledIf true waited (λ r. some (when_stream pa base r))
            (wait_until-Guarded true stream_get_state (stream_ready pa)
              (λ w. pa.stream_is_good (pa.stream_state w)) fuel j2 refl asked)
            (when_stream-Settled base))
          (unlock_error-Settled true j2 asked.0)

    when_context-Settled :
        (base : AwStream) (r : Bool × Job pa)
        → Guarded (with_context true true false) r.1.calls
        → SettledIf (when_context pa fuel is_input devname name cfg base r)
    when_context-Settled base (true, j) e = connect_stream-Settled base j e
    when_context-Settled base (false, j) e = unlock_error-Settled false j e.0

    start_loop-Settled :
        (base : AwStream) (j : Job pa)
        → Guarded (with_context false false false) j.calls
        → SettledIf (start_loop pa fuel is_input devname name cfg base j)
    unfolding start_loop allowed loose touches
    start_loop-Settled base j e =
        let j1 = did pa lock j in
        let j2 = did pa loop_start j1 in
        let locked : Guarded (with_context false true false) j1.calls =
          guarded _ lock e refl refl in
        let runs : Guarded (with_context true true false) j2.calls =
          guarded _ loop_start locked refl refl in
        let waited =
          wait_until pa context_get_state (context_ready pa)
            (λ w. pa.context_is_good (pa.context_state w)) fuel j2 in
        let then_stream = when_context pa fuel is_input devname name cfg base in
        if-SettledIf (is_zero (answer pa loop_start j1)) (waited >>= then_stream)
          (some (cleanup pa _ false (did pa unlock j2)))
          (bind-SettledIf false waited then_stream
            (wait_until-Guarded false context_get_state (context_ready pa)
              (λ w. pa.context_is_good (pa.context_state w)) fuel j2 refl runs)
            (when_context-Settled base))
          (free_stream-Leaves true false (did pa unlock j2) (more _ unlock runs.0 refl))

    bind-Settled :
        {A : Type 0} (o : Option A) (f : A → Option (Started pa))
        → ((a : A) → SettledIf (f a))
        → SettledIf (o >>= f)
    bind-Settled none f h = tt
    bind-Settled (some a) f h = h a

    abbrev prepared : pa.State → Job pa
    prepared w = did pa context_set_state_callback (
        did pa context_new
          (did pa loop_get_api (did pa loop_new (record { state = w; calls = [] }))))

    -- Whatever PulseAudio answers, when a start is over, the calls that it has made have been in order. If it returns no
    -- stream, all that it made is released, each once, and the main loop is stopped without its lock. If it returns one,
    -- the main loop runs and is not locked, and none of the start's calls, its reads included, has touched the context or
    -- the stream without the lock while it ran.
    pub start_stream-Settled :
        (to_text : List ℕ → String) (error_cb : Bool) (w : pa.State)
        → SettledIf (start_stream pa fuel to_text is_input devname name cfg error_cb w)
    unfolding start_stream allowed accepts loose touches unguarded
    start_stream-Settled to_text error_cb w =
        bind-Settled (aw_stream_base_init cfg (Option.map to_text devname) error_cb) _ begins
      where
        begins :
            (base : AwStream)
            → let j = prepared w in
              SettledIf (
                if is_zero (answer pa context_connect j)
                then start_loop pa fuel is_input devname name cfg base (did pa context_connect j)
                else some (error pa false (did pa context_connect j)))
        begins base =
            let j = prepared w in
            let j1 = did pa context_connect j in
            if-SettledIf (is_zero (answer pa context_connect j))
              (start_loop pa fuel is_input devname name cfg base j1) (some (error pa false j1))
              (start_loop-Settled base j1 (refl, refl)) (error-Settled false false j1 refl)
