-- ===== src/Ring.antt =====
-- libaudiowire/src/ringbuf.c: the ring of bytes between the audio callback and the program.
--
-- An operation stands for one call that no other call interrupts. `none` is an access outside the
-- memory that it reads or writes, or a loop that has used up its fuel. Indices are below the capacity
-- (`IsValid`), so no difference of two numbers goes below zero.
pub mod Window
pub mod Loops
pub mod Writes
pub mod Queue
pub mod Holds
pub mod Refine
pub mod Push
pub mod Create
pub mod Runs
pub mod Over
pub mod Within
pub mod Threads
use Prim.Native.Nat.{bit_and, min}
use audiowire.Base.{
  ℕ, zero, suc, ◌+◌, ◌-◌, ◌*◌, ◌%◌, ◌^◌, true, false, List, [], ◌∷◌, ◌++◌, Option, none, some,
  length, take, drop, ltb, leb, if◌then◌else◌,
}
use audiowire.Base.Arrays.{set, replicate}

-- `struct ringbuf`
pub record Ring : Type 0 where
  pub bytes : List ℕ
  pub capacity : ℕ
  pub mask : ℕ
  pub head : ℕ
  pub tail : ℕ

infixl 5 ◌>>=◌
abbrev pub ◌>>=◌ : {A B : Type 0} → Option A → (A → Option B) → Option B
none >>= f = none
some a >>= f = f a

-- `memcpy` out of and into an array
abbrev pub load : List ℕ → ℕ → ℕ → Option (List ℕ)
load xs i n = if leb (i + n) (length xs) then some (take n (drop i xs)) else none

abbrev pub put : List ℕ → ℕ → List ℕ → List ℕ
put xs i [] = xs
put xs i (b ∷ bs) = put (set xs i b) (suc i) bs

abbrev pub store : List ℕ → ℕ → List ℕ → Option (List ℕ)
store xs i bs = if leb (i + length bs) (length xs) then some (put xs i bs) else none

-- The loop of `ringbuf_write`
unfoldable pub write_loop : ℕ → Ring → List ℕ → ℕ → ℕ → Option Ring
write_loop zero rb buf tail offset = none
write_loop (suc fuel) rb buf tail offset = elim (ltb offset (length buf)) [
  | false ↦ some rb
  | true ↦
      let available = rb.capacity - tail in
      let remaining = length buf - offset in
      let len = min available remaining in
      (do
        block ← load buf offset len
        bytes ← store rb.bytes tail block
        let tail' = bit_and (tail + len) rb.mask
        write_loop fuel (record rb { bytes = bytes; tail = tail' }) buf tail' (offset + len))
]

-- `ringbuf_write`, for a buffer of `bufsize` bytes; each round copies a byte at least.
unfoldable pub ring_write : Ring → List ℕ → Option Ring
unfolding write_loop
ring_write rb buf = write_loop (suc (length buf)) rb buf rb.tail 0

-- The loop of `ringbuf_read`; `out` is what it has copied.
unfoldable pub read_loop : ℕ → Ring → ℕ → ℕ → ℕ → List ℕ → Option (List ℕ × Ring)
read_loop zero rb bufsize head offset out = none
read_loop (suc fuel) rb bufsize head offset out = elim (ltb offset bufsize) [
  | false ↦ some (out, rb)
  | true ↦
      let remaining = rb.capacity - head in
      let available = bufsize - offset in
      let len = min remaining available in
      (do
        block ← load rb.bytes head len
        let head' = bit_and (head + len) rb.mask
        read_loop fuel (record rb { head = head' }) bufsize head' (offset + len) (out ++ block))
]

-- `ringbuf_read`; the count that it returns is the length of what it copies.
unfoldable pub ring_read : Ring → ℕ → Option (List ℕ × Ring)
unfolding read_loop
ring_read rb bufsize = read_loop (suc bufsize) rb bufsize rb.head 0 []

-- The loop of `ringbuf_create`: `capacity <<= 1` on 64 bits
unfoldable pub grow : ℕ → ℕ → ℕ → Option ℕ
grow zero cap capacity = none
grow (suc fuel) cap capacity = elim (ltb capacity cap) [
  | false ↦ some capacity
  | true ↦ grow fuel cap (capacity * 2 % 2 ^ 64)
]

-- `ringbuf_create`, where the allocation succeeds; 64 rounds go through every power of two.
unfoldable pub create : ℕ → Option Ring
unfolding grow
create cap = do
  capacity ← grow 65 cap 1
  some (record {
    bytes = replicate capacity 0;
    capacity = capacity;
    mask = capacity - 1;
    head = 0;
    tail = 0;
  })

unfoldable pub capacity : Ring → ℕ
capacity rb = rb.mask

unfoldable pub available : Ring → ℕ
available rb =
    if ltb rb.tail rb.head then rb.head - rb.tail - 1 else rb.capacity - rb.tail + rb.head - 1

unfoldable pub remaining : Ring → ℕ
remaining rb = if leb rb.head rb.tail then rb.tail - rb.head else rb.capacity - rb.head + rb.tail

-- `rb->head = (rb->head + n) & rb->mask`
unfoldable pub skip : Ring → ℕ → Ring
skip rb n = record rb { head = bit_and (rb.head + n) rb.mask }

-- `ringbuf_push`, with the count that it returns
unfoldable pub push : Ring → List ℕ → Option (ℕ × Ring)
unfolding capacity available skip ring_write
push rb buf =
    let bufsize = length buf in
    if leb (capacity rb) bufsize
    then (do
      block ← load buf (bufsize - capacity rb) (capacity rb)
      bytes ← store rb.bytes 1 block
      some (bufsize, record rb { bytes = bytes; head = 1; tail = 0 }))
    else do
      rb' ←
          ring_write (if ltb (available rb) bufsize then skip rb (bufsize - available rb) else rb)
            buf
      some (bufsize, rb')

unfoldable pub pop_front : Ring → ℕ → Option (List ℕ × Ring)
unfolding remaining ring_read
pop_front rb bufsize = ring_read rb (min bufsize (remaining rb))

unfoldable pub pop_back : Ring → ℕ → Option (List ℕ × Ring)
unfolding remaining skip ring_read
pop_back rb bufsize =
    let read = min bufsize (remaining rb) in
    let diff = remaining rb - read in ring_read (if ltb 0 diff then skip rb diff else rb) read

unfoldable pub pop_back_from : Ring → ℕ → ℕ → Option (List ℕ × Ring)
unfolding remaining skip ring_read
pop_back_from rb bufsize offset =
    ring_read (if ltb offset (remaining rb) then skip rb (remaining rb - offset) else rb)
      (min bufsize (remaining rb))

unfoldable pub flush : Ring → Ring
flush rb = record rb { head = 0; tail = 0 }
