-- ===== src/Native/Pulse/Client.antt =====
-- The calls of PulseAudio with which libaudiowire/src/pulseaudio.c starts and stops a stream, and the order that
-- PulseAudio's documentation of its threaded main loop asks for.
use audiowire.Base.{
  ℕ, Bool, true, false, not, ◌&&◌, List, [], ◌∷◌, ◌++◌, Option, none, some, String, ℤ,
  if◌then◌else◌,
}
use audiowire.Ring.{◌>>=◌}

-- `pa_context_state_t` and `pa_stream_state_t`
pub data ContextState : Type 0 where
  unconnected connecting authorizing setting_name ready failed terminated : ContextState

pub data StreamState : Type 0 where
  unconnected creating ready failed terminated : StreamState

-- A format that the switch of `start_stream` does not set is zero.
pub data SampleFormat : Type 0 where
  zeroed s16le float32le : SampleFormat

pub record SampleSpec : Type 0 where
  pub format : SampleFormat
  pub rate : ℕ
  pub channels : ℕ

pub record BufferAttr : Type 0 where
  pub maxlength : ℕ
  pub tlength : ℕ
  pub prebuf : ℕ
  pub minreq : ℕ
  pub fragsize : ℕ

pub data Call : Type 0 where
  loop_new loop_get_api loop_start loop_stop loop_free lock unlock wait : Call
  context_new context_set_state_callback context_connect context_get_state : Call
  context_errno context_disconnect context_unref : Call
  stream_new : List ℕ → SampleSpec → Call
  stream_connect : Bool → Option (List ℕ) → BufferAttr → Call
  stream_set_state_callback stream_set_moved_callback : Call
  stream_set_read_callback stream_set_write_callback : Call
  stream_get_state stream_get_sample_spec stream_disconnect stream_unref : Call

-- The library: what a call answers and does, and what is read of a context and of a stream
pub record PulseClient : Type 1 where
  pub State : Type 0
  pub act : Call → State → ℤ × State
  pub context_state : State → ContextState
  pub stream_state : State → StreamState
  pub context_is_good : ContextState → Bool
  pub stream_is_good : StreamState → Bool
  pub sample_rate : State → ℕ
  pub device_name : State → Option String
  pub errno : State → ℤ
  pub strerror : ℤ → String

-- What a program has of PulseAudio: a main loop, which may run and be locked, a context and a stream
pub record Held : Type 0 where
  pub loop : Bool
  pub running : Bool
  pub locked : Bool
  pub context : Bool
  pub stream : Bool

abbrev pub nothing : Held
nothing = record { loop = false; running = false; locked = false; context = false; stream = false }

abbrev pub connected : Held
connected = record { loop = true; running = true; locked = false; context = true; stream = true }

abbrev pub provided : Bool → Held → Option Held
provided b h = if b then some h else none

-- What is held after a call; `none` is a call that must not be made: one on an object that is not there, a second one of
-- a kind, a second lock, a wait without the lock, a stop of the main loop with it, and the release of an object that
-- another stands on.
unfoldable pub allowed : Held → Call → Option Held
allowed h loop_new = provided (not h.loop) (record h { loop = true })
allowed h loop_get_api = provided h.loop h
allowed h loop_start = provided (h.loop && not h.running) (record h { running = true })
allowed h loop_stop = provided (h.loop && not h.locked) (record h { running = false })
allowed h loop_free =
    provided (h.loop && (not h.running && (not h.context && not h.stream)))
      (record h { loop = false })
allowed h lock = provided (h.loop && not h.locked) (record h { locked = true })
allowed h unlock = provided h.locked (record h { locked = false })
allowed h wait = provided (h.running && h.locked) h
allowed h context_new = provided (h.loop && not h.context) (record h { context = true })
allowed h context_set_state_callback = provided h.context h
allowed h context_connect = provided h.context h
allowed h context_get_state = provided h.context h
allowed h context_errno = provided h.context h
allowed h context_disconnect = provided h.context h
allowed h context_unref = provided (h.context && not h.stream) (record h { context = false })
allowed h (stream_new name spec) = provided (h.context && not h.stream) (record h { stream = true })
allowed h (stream_connect is_input devname attr) = provided h.stream h
allowed h stream_set_state_callback = provided h.stream h
allowed h stream_set_moved_callback = provided h.stream h
allowed h stream_set_read_callback = provided h.stream h
allowed h stream_set_write_callback = provided h.stream h
allowed h stream_get_state = provided h.stream h
allowed h stream_get_sample_spec = provided h.stream h
allowed h stream_disconnect = provided h.stream h
allowed h stream_unref = provided h.stream (record h { stream = false })

-- What is held after a sequence of calls
unfoldable pub accepts : Held → List Call → Option Held
unfolding allowed
accepts h [] = some h
accepts h (c ∷ cs) = allowed h c >>= (λ h'. accepts h' cs)

-- A call on the context or the stream
unfoldable pub touches : Call → Bool
touches loop_new = false
touches loop_get_api = false
touches loop_start = false
touches loop_stop = false
touches loop_free = false
touches lock = false
touches unlock = false
touches wait = false
touches context_new = false
touches context_set_state_callback = true
touches context_connect = true
touches context_get_state = true
touches context_errno = true
touches context_disconnect = true
touches context_unref = true
touches (stream_new name spec) = true
touches (stream_connect is_input devname attr) = true
touches stream_set_state_callback = true
touches stream_set_moved_callback = true
touches stream_set_read_callback = true
touches stream_set_write_callback = true
touches stream_get_state = true
touches stream_get_sample_spec = true
touches stream_disconnect = true
touches stream_unref = true

-- A call that touches the context or the stream while the main loop runs and its lock is not held
unfoldable pub loose : Held → Call → List Call
unfolding touches
loose h c = if touches c && (h.running && not h.locked) then c ∷ [] else []

-- Those of a sequence of calls
unfoldable pub unguarded : Held → List Call → List Call
unfolding allowed loose
unguarded h [] = []
unguarded h (c ∷ cs) = loose h c ++ (elim (allowed h c) [ none ↦ [] | some h' ↦ unguarded h' cs ])
