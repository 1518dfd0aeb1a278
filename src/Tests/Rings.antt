-- ===== src/Tests/Rings.antt =====
-- A ring of four bytes, and a stream over one of eight.
use audiowire.Base.{
  suc, ℕ, ◌-◌, ◌^◌, ◌≡◌, ◌<◌, refl, arith, List, [], ◌∷◌, ◌++◌, none, some, length, min, ◌+◌, false,
}
use audiowire.Config.{AwConfig, native_buffer_size, aw_sample_size}
use audiowire.Ring.{Ring, remaining, pop_back_from}
use audiowire.Ring.Queue.{last}
use audiowire.Ring.Window.{window}
use audiowire.Ring.Holds.{Holds}
use audiowire.Ring.Refine.{Leaves}
use audiowire.Ring.Create.{CapacityFor}
use audiowire.Ring.Runs.{
  Call, call_push, call_pop_front, call_pop_back, call_pop_back_from, call_flush, queue_calls,
  session, session_refines,
}
use audiowire.Ring.Over.{pop_back_from-over}
use audiowire.Native.Fifo.{Event, reads, writes, gives, asks, AllFit}
use audiowire.Native.Fifo
use audiowire.Native.Events.{lifetime}
use audiowire.Native.Pipe.{Gives}
use audiowire.Native.Lifetime.{lifetime_fifo}
use audiowire.Native.Powers.{lifetime-short}
use audiowire.Native.{AwStream, aw_buffer_capacity, aw_playback_peek}

abbrev some_calls : List Call
some_calls =
    call_push (1 ∷ 2 ∷ [])
    ∷ call_push (3 ∷ 4 ∷ [])
    ∷ call_pop_back_from 1 2
    ∷ call_push (5 ∷ [])
    ∷ call_pop_front 9
    ∷ call_push (6 ∷ 7 ∷ 8 ∷ 9 ∷ [])
    ∷ call_pop_back 2
    ∷ call_flush
    ∷ []

session_refines_example :
    (k : ℕ) × CapacityFor 3 k
    × let (rs, rest) = queue_calls (2 ^ k - 1) some_calls [] in
      Leaves k (session 3 some_calls) rs rest
session_refines_example =
    session_refines 3 some_calls (omega arith) (omega arith)
      (tt, (tt, (omega arith, (tt, (tt, (tt, (tt, (tt, tt))))))))

abbrev three : List ℕ
three = 1 ∷ 2 ∷ 3 ∷ []

-- Four bytes, of which the first three are in the queue
abbrev full : Ring
full = record { bytes = 1 ∷ 2 ∷ 3 ∷ 4 ∷ []; capacity = 4; mask = 3; head = 0; tail = 3 }

full-Holds : Holds 2 three full
unfolding remaining
full-Holds = record {
  valid = record {
    some_bits = omega arith;
    power = refl;
    ones = refl;
    room = refl;
    head_in = omega arith;
    tail_in = omega arith;
  };
  held = refl;
}

pop_back_from-over_example :
    let excess = min 3 (length three) - 1 in
    (rb' : Ring) × (pop_back_from full 3 1
      ≡ some (last 1 three ++ window 4 full.bytes 3 excess, rb'))
    × (0 < excess)
    × (remaining rb' + excess ≡ 4)
pop_back_from-over_example =
    pop_back_from-over 2 full three 3 1 full-Holds (omega arith) (omega arith)

-- Frames of two bytes, and room for four of them
abbrev mono : AwConfig
mono = record {
  channels = 1;
  sample_rate = 48000;
  sample_format = 0;
  buffer_frames = 2;
  max_buffer_frames = 4;
}

abbrev some_events : List Event
some_events =
    writes (1 ∷ 2 ∷ 3 ∷ 4 ∷ [])
    ∷ asks (9 ∷ 9 ∷ []) 1
    ∷ asks (9 ∷ 9 ∷ 9 ∷ 9 ∷ []) 2
    ∷ reads 1
    ∷ gives (5 ∷ 6 ∷ []) 1
    ∷ []

some_events-AllFit : (k : ℕ) → CapacityFor 8 k → AllFit mono (2 ^ k - 1) 8 some_events []
unfolding native_buffer_size aw_sample_size
some_events-AllFit k (lo, hi) = (
  omega (arith, lo),
  (
    (refl, omega arith, omega arith),
    ((refl, omega arith, omega arith), ((omega arith, omega arith), (refl, tt))),
  ),
)

lifetime_fifo_example :
    (k : ℕ) × CapacityFor 8 k
    × let (rs, rest) = Fifo.events mono (2 ^ k - 1) some_events [] in
      Gives k mono 8 (lifetime mono none false some_events) rs rest
unfolding native_buffer_size aw_sample_size
lifetime_fifo_example =
    lifetime_fifo mono none false some_events (omega arith) (omega arith) some_events-AllFit

lifetime-short_example :
    let (rs, waiting) = Fifo.events mono (2 ^ 3 - 1) some_events [] in
    (s : AwStream) × (lifetime mono none false some_events ≡ some (rs, s))
    × (suc (aw_buffer_capacity s) ≡ 8)
    × (suc (aw_playback_peek s + length waiting) ≡ 8)
unfolding native_buffer_size aw_sample_size
lifetime-short_example =
    lifetime-short mono none false some_events 3 refl (omega arith) (omega arith)
      (some_events-AllFit 3 (omega arith, omega arith))
