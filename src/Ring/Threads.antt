-- ===== src/Ring/Threads.antt =====
-- libaudiowire/src/ringbuf.c between two threads: the device's callback and the program, of which one only pushes and
-- the other only takes out. The one tests ringbuf_available before ringbuf_push, the other ringbuf_remaining before
-- ringbuf_pop_back_from.
--
-- A step is a load of the index that the other thread moves, a memcpy, or the store of an index; a thread loads its own
-- index at the step that uses it. A buffer is shorter than the ring's capacity, so that ringbuf_push takes its second
-- branch. `none` is an access outside the memory of the ring or of a buffer.
mod Views
pub mod Moves
mod Heads
mod Tails
mod Pushes
mod Pops
pub mod Safe
pub mod Torn
use Prim.Native.Nat.{bit_and, min}
use audiowire.Base.{
  ℕ, ◌+◌, ◌-◌, ◌%◌, ◌^◌, ◌≤◌, ◌<◌, ◌≡◌, Bool, ◌&&◌, ◌||◌, true, false, List, [], ◌∷◌, ◌++◌, Option,
  none, some, length, take, drop, ltb, leb, if◌then◌else◌,
}
use audiowire.Ring.{Ring, ◌>>=◌, load, store, skip}
use audiowire.Ring.Holds.{contents}

-- A difference of two `size_t`
abbrev pub minus : ℕ → ℕ → ℕ
minus a b = (a + (2 ^ 64 - b)) % 2 ^ 64

-- The test before a call, or the call
pub data Phase : Type 0 where
  testing acting : Phase

-- The thread that pushes: before the first load of the head in ringbuf_available, before the second, at the test of the
-- loop in ringbuf_write, and before the store of the tail.
pub data Producer : Type 0 where
  resting : Producer
  calls : Phase → List ℕ → Producer
  compares : Phase → List ℕ → ℕ → Producer
  writing : List ℕ → ℕ → Producer
  copied : List ℕ → ℕ → ℕ → Producer

-- The thread that takes out: before the first load of the tail in ringbuf_remaining, before the second, before the head
-- is moved to the offset, at the test of the loop in ringbuf_read, and before the store of the head.
pub data Consumer : Type 0 where
  resting : Consumer
  calls : Phase → ℕ → Consumer
  compares : Phase → ℕ → ℕ → Consumer
  skips : ℕ → ℕ → Consumer
  reading : ℕ → ℕ → Consumer
  copied : ℕ → ℕ → List ℕ → Consumer

-- What the consumer has moved the head past
pub data Piece : Type 0 where
  taken skipped : List ℕ → Piece

-- The ring, the two threads, and what has happened: the bytes that the tail has moved past, those that the consumer has
-- moved the head past, and those that the producer has.
pub record Threads : Type 0 where
  pub ring : Ring
  pub producer : Producer
  pub consumer : Consumer
  pub pushed : List ℕ
  pub passed : List Piece
  pub overwritten : List ℕ

-- `ringbuf_available`, of which the head was `h` in the comparison
unfoldable pub free : ℕ → Ring → ℕ
free h rb =
    if ltb rb.tail h then minus (minus rb.head rb.tail) 1 else rb.capacity - rb.tail + rb.head - 1

-- `ringbuf_remaining`, of which the tail was `t` in the comparison
unfoldable pub held : ℕ → Ring → ℕ
held t rb = if leb rb.head t then minus rb.tail rb.head else rb.capacity - rb.head + rb.tail

-- One step of the producer
unfoldable pub produce : Producer → Threads → Option Threads
unfolding free skip
produce resting s = some s
produce (calls phase buf) s = some (record s { producer = compares phase buf s.ring.head })
produce (compares testing buf h) s =
    some (record s {
      producer = if leb (length buf) (free h s.ring) then calls acting buf else resting;
    })
produce (compares acting buf h) s =
    let n = length buf in
    let a = free h s.ring in
    some (record s {
      ring = if ltb a n then skip s.ring (n - a) else s.ring;
      producer = writing buf 0;
      overwritten =
          if ltb a n then s.overwritten ++ take (n - a) (contents s.ring) else s.overwritten;
    })
produce (writing buf offset) s = elim (ltb offset (length buf)) [
  | false ↦ some (record s { producer = resting })
  | true ↦
      let rb = s.ring in
      let len = min (rb.capacity - rb.tail) (length buf - offset) in
      (do
        block ← load buf offset len
        bytes ← store rb.bytes rb.tail block
        some (record s { ring = record rb { bytes = bytes }; producer = copied buf offset len }))
]
produce (copied buf offset len) s =
    let rb = s.ring in
    some (record s {
      ring = record rb { tail = bit_and (rb.tail + len) rb.mask };
      producer = writing buf (offset + len);
      pushed = s.pushed ++ take len (drop offset buf);
    })

-- One step of the consumer, whose offset is `max_bufsize`
unfoldable pub consume : ℕ → Consumer → Threads → Option Threads
unfolding held skip
consume max_bufsize resting s = some s
consume max_bufsize (calls phase n) s = some (record s { consumer = compares phase n s.ring.tail })
consume max_bufsize (compares testing n t) s =
    some (record s { consumer = if leb n (held t s.ring) then calls acting n else resting })
consume max_bufsize (compares acting n t) s = some (record s { consumer = skips n (held t s.ring) })
consume max_bufsize (skips n r) s =
    let far = ltb max_bufsize r in
    let diff = r - max_bufsize in
    some (record s {
      ring = if far then skip s.ring diff else s.ring;
      consumer = reading (min n r) 0;
      passed = if far then s.passed ++ (skipped (take diff (contents s.ring)) ∷ []) else s.passed;
    })
consume max_bufsize (reading n offset) s = elim (ltb offset n) [
  | false ↦ some (record s { consumer = resting })
  | true ↦
      let rb = s.ring in
      let len = min (rb.capacity - rb.head) (n - offset) in
      (do block ← load rb.bytes rb.head len; some (record s { consumer = copied n offset block }))
]
consume max_bufsize (copied n offset block) s =
    let rb = s.ring in
    some (record s {
      ring = record rb { head = bit_and (rb.head + length block) rb.mask };
      consumer = reading n (offset + length block);
      passed = s.passed ++ (taken block ∷ []);
    })

-- What can happen next: a thread that rests starts a call, or one of them takes a step.
pub data Step (max_bufsize : ℕ) : Threads → Threads → Type 0 where
  starts_push :
      (s : Threads) (buf : List ℕ)
      → s.producer ≡ resting
      → length buf < s.ring.mask
      → Step max_bufsize s (record s { producer = calls testing buf })
  starts_pop :
      (s : Threads) (n : ℕ)
      → s.consumer ≡ resting
      → n ≤ max_bufsize
      → Step max_bufsize s (record s { consumer = calls testing n })
  produces : (s t : Threads) → produce s.producer s ≡ some t → Step max_bufsize s t
  consumes : (s t : Threads) → consume max_bufsize s.consumer s ≡ some t → Step max_bufsize s t

-- The states that a state leads to
pub data Reach (max_bufsize : ℕ) (s : Threads) : Threads → Type 0 where
  here : Reach max_bufsize s s
  later : {t u : Threads} → Reach max_bufsize s t → Step max_bufsize t u → Reach max_bufsize s u

-- A thread is between two loads of an index that went round the end of the ring in between.
unfoldable pub torn_free : Producer → Ring → Bool
torn_free resting rb = false
torn_free (calls phase buf) rb = false
torn_free (compares phase buf h) rb = ltb rb.tail h && leb rb.head rb.tail
torn_free (writing buf offset) rb = false
torn_free (copied buf offset len) rb = false

unfoldable pub torn_held : Consumer → Ring → Bool
torn_held resting rb = false
torn_held (calls phase n) rb = false
torn_held (compares phase n t) rb = leb rb.head t && ltb rb.tail rb.head
torn_held (skips n r) rb = false
torn_held (reading n offset) rb = false
torn_held (copied n offset block) rb = false

unfoldable pub torn : Threads → Bool
unfolding torn_free torn_held
torn s = torn_free s.producer s.ring || torn_held s.consumer s.ring

-- Two threads that rest, over a ring
abbrev pub at_rest : Ring → Threads
at_rest rb = record {
  ring = rb;
  producer = resting;
  consumer = resting;
  pushed = [];
  passed = [];
  overwritten = [];
}
