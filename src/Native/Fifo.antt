-- ===== src/Native/Fifo.antt =====
-- What a stream of libaudiowire promises while its queue stays within its room: a FIFO of bytes.
use audiowire.Base.{ℕ, ◌+◌, ◌≤◌, ◌≡◌, List, [], ◌∷◌, ◌++◌, length, take, drop, leb, if◌then◌else◌}
use audiowire.Base.Arrays.{replicate}
use audiowire.Config.{AwConfig, native_buffer_size}

-- What happens to a stream: a read and a write by the program, and the device's two callbacks. The device's buffers
-- have as many bytes as the frames that it counts.
pub data Event : Type 0 where
  reads : ℕ → Event
  writes : List ℕ → Event
  gives : List ℕ → ℕ → Event
  asks : List ℕ → ℕ → Event

-- What comes out of it
pub data Effect : Type 0 where
  got : List ℕ → Effect
  wrote : ℕ → Effect
  captured : Effect
  played : List ℕ → Effect

module _ (cfg : AwConfig) (cap : ℕ) where
  -- A callback whose bytes do not fit drops them all, and one that asks for more than there is gets silence.
  abbrev pub event : Event → List ℕ → Effect × List ℕ
  event (reads n) items = (got (take n items), drop n items)
  event (writes bytes) items = (wrote (length bytes), items ++ bytes)
  event (gives input count) items =
      (captured, if leb (length items + length input) cap then items ++ input else items)
  event (asks output count) items =
      if leb (length output) (length items)
      then (played (take (length output) items), drop (length output) items)
      else (played (replicate (length output) 0), items)

  abbrev pub events : List Event → List ℕ → List Effect × List ℕ
  events [] items = ([], items)
  events (e ∷ es) items =
      let (r, items') = event e items in let (rs, rest) = events es items' in (r ∷ rs, rest)

  -- No more is read or asked for at once than `room` bytes, nor is more waiting then; a write fits the queue.
  abbrev pub Fits : ℕ → Event → List ℕ → Type 0
  Fits room (reads n) items = (n ≤ room) × (length items ≤ room)
  Fits room (writes bytes) items = length items + length bytes ≤ cap
  Fits room (gives input count) items = length input ≡ native_buffer_size cfg count
  Fits room (asks output count) items =
      (length output ≡ native_buffer_size cfg count)
      × (length output ≤ room)
      × (length items ≤ room)

  abbrev pub AllFit : ℕ → List Event → List ℕ → Type 0
  AllFit room [] items = Unit
  AllFit room (e ∷ es) items = Fits room e items × AllFit room es (event e items).1
