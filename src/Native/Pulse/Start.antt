-- ===== src/Native/Pulse/Start.antt =====
-- libaudiowire/src/pulseaudio.c: how a stream starts and stops, and the callbacks of the states.
--
-- Each step acts on the library's state and on the calls that were made: those of the functions below, the reads of a state
-- and of the sample specification included. What a callback calls is not listed; the main loop's thread runs it. A loop that
-- waits for a state runs on fuel, one round for each wake-up, and is `none` while it waits. The library makes each object
-- that it is asked for.
use mathlib.Core.Option
use audiowire.Base.{
  ◌&&◌, ℕ, zero, suc, Bool, true, false, not, List, [], ◌∷◌, ◌++◌, Option, none, some, String, ℤ,
  negsuc, if◌then◌else◌,
}
use audiowire.Config.{AwConfig}
use audiowire.Device.{AwResult, is_zero}
use audiowire.Ring.{◌>>=◌}
use audiowire.Native.{AwStream, aw_stream_base_init}
use audiowire.Native.Backend.{no_error}
use audiowire.Native.Pulse.Client.{
  ready, Call, loop_new, loop_get_api, loop_start, loop_stop, loop_free, lock, unlock, wait,
  context_new, context_set_state_callback, context_connect, context_get_state, context_errno,
  context_disconnect, context_unref, stream_new, stream_set_state_callback,
  stream_set_moved_callback, stream_set_read_callback, stream_set_write_callback, stream_connect,
  stream_get_state, stream_get_sample_spec, stream_disconnect, stream_unref, PulseClient,
}
use audiowire.Native.Pulse.States.{
  sample_spec, buffer_attr, is_context_ready, is_stream_ready, on_stream_state,
}

module _ (pa : PulseClient) where
  -- The library's state, and the calls so far
  pub record Job : Type 0 where
    pub state : pa.State
    pub calls : List Call

  abbrev pub answer : Call → Job → ℤ
  answer c j = (pa.act c j.state).0

  abbrev pub did : Call → Job → Job
  did c j = record { state = (pa.act c j.state).1; calls = j.calls ++ (c ∷ []) }

  -- `struct aw_stream` that is not freed; the stream of PulseAudio is there once the start has returned.
  pub record AwPulseStream : Type 0 where
    pub base : AwStream
    pub has_handle : Bool

  abbrev pub Started : Type 0
  Started = AwResult × Option AwPulseStream × Job

  -- `error_stream`
  unfoldable pub error_stream : Job → AwResult × Job
  error_stream j =
      let j1 = did context_errno j in
      let e = pa.errno j.state in (record { code = e; message = some (pa.strerror e) }, j1)

  -- `free_stream`
  unfoldable pub free_stream : Bool → Job → Job
  free_stream has_handle j =
      let j1 = if has_handle then did stream_unref j else j in
      did loop_free (did loop_stop (did context_unref (did context_disconnect j1)))

  -- The labels `cleanup`, `error` and `unlock_error`
  abbrev pub cleanup : AwResult → Bool → Job → Started
  cleanup r has_handle j = (r, none, free_stream has_handle j)

  abbrev pub error : Bool → Job → Started
  error has_handle j = let (r, j1) = error_stream j in cleanup r has_handle j1

  abbrev pub unlock_error : Bool → Job → Started
  unlock_error has_handle j = error has_handle (did unlock j)

  -- A loop that waits for a state, of which the last look is given: whether the state is reached, or one that is not good
  unfoldable pub wait_rounds :
      Call → (pa.State → Bool) → (pa.State → Bool) → ℕ → pa.State → Job → Option (Bool × Job)
  wait_rounds getter reached good zero seen j = if reached seen then some (true, j) else none
  wait_rounds getter reached good (suc n) seen j =
      let j1 = did wait j in
      let j2 = did getter j1 in
      let rest = wait_rounds getter reached good n j1.state j2 in
      if reached seen then some (true, j) else if good j1.state then rest else some (false, j2)

  -- A first look, and the loop
  unfoldable pub wait_until :
      Call → (pa.State → Bool) → (pa.State → Bool) → ℕ → Job → Option (Bool × Job)
  unfolding wait_rounds
  wait_until getter reached good n j = wait_rounds getter reached good n j.state (did getter j)

  abbrev pub context_ready : pa.State → Bool
  context_ready w = is_context_ready (pa.context_state w)

  abbrev pub stream_ready : pa.State → Bool
  stream_ready w = is_stream_ready (pa.stream_state w)

  -- `start_stream` once the stream is ready
  abbrev pub finish : AwStream → Job → Started
  finish base j =
      let (named, signals) = on_stream_state ready (pa.device_name j.state) base in
      (
        no_error,
        some (record {
          base = record named { sample_rate = pa.sample_rate j.state };
          has_handle = true;
        }),
        did unlock (did stream_get_sample_spec j),
      )

  abbrev pub when_stream : AwStream → Bool × Job → Started
  when_stream base (true, j) = finish base j
  when_stream base (false, j) = unlock_error true j

  -- The three callbacks of a stream
  unfoldable pub set_callbacks : Bool → Job → Job
  set_callbacks is_input j =
      let j1 = did stream_set_moved_callback (did stream_set_state_callback j) in
      if is_input then did stream_set_read_callback j1 else did stream_set_write_callback j1

  -- `start_stream` once the context is ready
  unfoldable pub connect_stream :
      ℕ → Bool → Option (List ℕ) → List ℕ → AwConfig → AwStream → Job → Option Started
  unfolding sample_spec buffer_attr on_stream_state wait_until error_stream free_stream
      set_callbacks
  connect_stream fuel is_input devname name cfg base j =
      let j1 = set_callbacks is_input (did (stream_new name (sample_spec cfg)) j) in
      let connect = stream_connect is_input devname (buffer_attr cfg) in
      if is_zero (answer connect j1)
      then (do
        r ←
            wait_until stream_get_state stream_ready (λ w. pa.stream_is_good (pa.stream_state w))
              fuel (did connect j1)
        some (when_stream base r))
      else some (unlock_error true (did connect j1))

  abbrev pub when_context :
      ℕ → Bool → Option (List ℕ) → List ℕ → AwConfig → AwStream → Bool × Job → Option Started
  when_context fuel is_input devname name cfg base (true, j) =
      connect_stream fuel is_input devname name cfg base j
  when_context fuel is_input devname name cfg base (false, j) = some (unlock_error false j)

  -- `start_stream` once the context is asked to connect
  unfoldable pub start_loop :
      ℕ → Bool → Option (List ℕ) → List ℕ → AwConfig → AwStream → Job → Option Started
  unfolding connect_stream wait_until error_stream free_stream
  start_loop fuel is_input devname name cfg base j =
      let j1 = did lock j in
      let j2 = did loop_start j1 in
      if is_zero (answer loop_start j1)
      then (do
        r ←
            wait_until context_get_state context_ready
              (λ w. pa.context_is_good (pa.context_state w)) fuel j2
        when_context fuel is_input devname name cfg base r)
      else some (
          cleanup (record { code = negsuc 0; message = some "Failed to start mainloop" }) false
            (did unlock j2))

  -- `start_stream`; `to_text` decodes the device's name that the base begins with.
  unfoldable pub start_stream :
      ℕ
      → (List ℕ → String)
      → Bool
      → Option (List ℕ)
      → List ℕ
      → AwConfig
      → Bool
      → pa.State
      → Option Started
  unfolding aw_stream_base_init start_loop error_stream free_stream
  start_stream fuel to_text is_input devname name cfg error_cb w = do
    base ← aw_stream_base_init cfg (Option.map to_text devname) error_cb
    let j0 = did loop_get_api (did loop_new (record { state = w; calls = [] }))
    let j = did context_set_state_callback (did context_new j0)
    let j1 = did context_connect j
    (if is_zero (answer context_connect j)
        then start_loop fuel is_input devname name cfg base j1
        else some (error false j1))

  unfoldable pub aw_start_record :
      ℕ → (List ℕ → String) → Option (List ℕ) → List ℕ → AwConfig → Bool → pa.State → Option Started
  unfolding start_stream
  aw_start_record fuel to_text = start_stream fuel to_text true

  unfoldable pub aw_start_playback :
      ℕ → (List ℕ → String) → Option (List ℕ) → List ℕ → AwConfig → Bool → pa.State → Option Started
  unfolding start_stream
  aw_start_playback fuel to_text = start_stream fuel to_text false

  -- `aw_stop`, with the stream that is left
  unfoldable pub aw_stop : AwPulseStream → Job → AwResult × Option AwPulseStream × Job
  unfolding error_stream free_stream
  aw_stop s j =
      if s.has_handle && not (is_zero (answer stream_disconnect j))
      then (let (r, j1) = error_stream (did stream_disconnect j) in (r, some s, j1))
      else (
        no_error,
        none,
        free_stream s.has_handle (if s.has_handle then did stream_disconnect j else j),
      )
