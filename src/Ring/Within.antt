-- ===== src/Ring/Within.antt =====
-- What no call of libaudiowire/src/ringbuf.c changes of a ring: its size, and that its head is inside.
use Prim.Native.Nat.{bit_and, min}
use audiowire.Base.{
  ℕ, zero, suc, ◌+◌, ◌-◌, ◌^◌, ◌<◌, ◌≡◌, inl, inr, arith, Bool, true, false, List, [], ◌++◌, Option,
  none, some, length, ltb, leb, if◌then◌else◌, Bool-cases,
}
use native.Mathlib.Nat.{mod-lt}
use audiowire.Base.Bits.{bit_and-mask, pow_pos}
use audiowire.Ring.{
  Ring, ◌>>=◌, load, store, write_loop, read_loop, ring_read, ring_write, skip, available,
  remaining, capacity, push, pop_back_from,
}

pub record Within (k : ℕ) (rb : Ring) : Type 0 where
  pub power : rb.capacity ≡ 2 ^ k
  pub ones : rb.mask ≡ 2 ^ k - 1
  pub head_in : rb.head < 2 ^ k

-- The ring of a result, if there is one
abbrev pub Kept : {A : Type 0} → ℕ → Option (A × Ring) → Type 0
Kept k none = Unit
Kept k (some (a, rb)) = Within k rb

abbrev pub KeptRing : ℕ → Option Ring → Type 0
KeptRing k none = Unit
KeptRing k (some rb) = Within k rb

module _ (k : ℕ) where
  pub available-Within : (rb : Ring) → Within k rb → available rb < 2 ^ k
  unfolding available
  available-Within rb v = ground (arith, v.head_in, v.power)

  head-Within :
      (rb : Ring) (i : ℕ) → Within k rb → Within k (record rb { head = bit_and i rb.mask })
  head-Within rb i v = record {
    power = v.power;
    ones = v.ones;
    head_in = rw (v.ones, bit_and-mask i k) (mod-lt i (pow_pos k));
  }

  bind-Kept :
      {A B : Type 0} (o : Option A) (f : A → Option (B × Ring))
      → ((a : A) → Kept k (f a))
      → Kept k (o >>= f)
  bind-Kept none f h = tt
  bind-Kept (some a) f h = h a

  bind-KeptRing :
      {A : Type 0} (o : Option A) (f : A → Option Ring)
      → ((a : A) → KeptRing k (f a))
      → KeptRing k (o >>= f)
  bind-KeptRing none f h = tt
  bind-KeptRing (some a) f h = h a

  ring-Kept : (o : Option Ring) (n : ℕ) → KeptRing k o → Kept k (o >>= λ rb. some (n, rb))
  ring-Kept none n h = tt
  ring-Kept (some rb) n h = h

  write_loop-Within :
      (fuel : ℕ) (rb : Ring) (buf : List ℕ) (tail offset : ℕ)
      → Within k rb
      → KeptRing k (write_loop fuel rb buf tail offset)
  unfolding write_loop
  write_loop-Within zero rb buf tail offset v = tt
  write_loop-Within (suc fuel) rb buf tail offset v = elim (Bool-cases (ltb offset (length buf))) [
    | inr done ↦ rw (done, write_loop) v
    | inl more ↦
        let len = min (rb.capacity - tail) (length buf - offset) in
        let tail' = bit_and (tail + len) rb.mask in
        let go : List ℕ → Option Ring = λ bytes.
          write_loop fuel (record rb { bytes = bytes; tail = tail' }) buf tail' (offset + len) in
        rw (more, write_loop)
          (bind-KeptRing (load buf offset len) (λ block. store rb.bytes tail block >>= go)
            (λ block. bind-KeptRing (store rb.bytes tail block) go (λ bytes.
              write_loop-Within fuel (record rb { bytes = bytes; tail = tail' }) buf tail'
                (offset + len) (record { power = v.power; ones = v.ones; head_in = v.head_in }))))
  ]

  read_loop-Within :
      (fuel : ℕ) (rb : Ring) (n head offset : ℕ) (out : List ℕ)
      → Within k rb
      → Kept k (read_loop fuel rb n head offset out)
  unfolding read_loop
  read_loop-Within zero rb n head offset out v = tt
  read_loop-Within (suc fuel) rb n head offset out v = elim (Bool-cases (ltb offset n)) [
    | inr done ↦ rw (done, read_loop) v
    | inl more ↦
        let len = min (rb.capacity - head) (n - offset) in
        let head' = bit_and (head + len) rb.mask in
        let rb' = record rb { head = head' } in
        rw (more, read_loop)
          (bind-Kept (load rb.bytes head len)
            (λ block. read_loop fuel rb' n head' (offset + len) (out ++ block))
            (λ block.
              read_loop-Within fuel rb' n head' (offset + len) (out ++ block)
                (head-Within rb (head + len) v)))
  ]

  if-Within : (b : Bool) (x y : Ring) → Within k x → Within k y → Within k (if b then x else y)
  if-Within true x y h h' = h
  if-Within false x y h h' = h'

  if-Kept :
      {A : Type 0} (b : Bool) (x y : Option (A × Ring))
      → Kept k x
      → Kept k y
      → Kept k (if b then x else y)
  if-Kept true x y h h' = h
  if-Kept false x y h h' = h'

  pub push-Within : (rb : Ring) (buf : List ℕ) → 1 < 2 ^ k → Within k rb → Kept k (push rb buf)
  unfolding push skip ring_write
  push-Within rb buf two v =
      let n = length buf in
      let made : List ℕ → Option (ℕ × Ring) =
        λ bytes. some (n, record rb { bytes = bytes; head = 1; tail = 0 }) in
      let from = if ltb (available rb) n then skip rb (n - available rb) else rb in
      if-Kept (leb (capacity rb) n)
        (load buf (n - capacity rb) (capacity rb) >>= (λ block. store rb.bytes 1 block >>= made))
        (ring_write from buf >>= (λ rb'. some (n, rb')))
        (bind-Kept (load buf (n - capacity rb) (capacity rb))
          (λ block. store rb.bytes 1 block >>= made)
          (λ block.
            bind-Kept (store rb.bytes 1 block) made
              (λ bytes. record { power = v.power; ones = v.ones; head_in = two })))
        (ring-Kept (ring_write from buf) n (
          write_loop-Within (suc n) from buf from.tail 0 (
            if-Within (ltb (available rb) n) (skip rb (n - available rb)) rb
              (head-Within rb (rb.head + (n - available rb)) v) v)))

  pub pop_back_from-Within :
      (rb : Ring) (n offset : ℕ) → Within k rb → Kept k (pop_back_from rb n offset)
  unfolding pop_back_from skip ring_read
  pop_back_from-Within rb n offset v =
      let more = remaining rb - offset in
      let from = if ltb offset (remaining rb) then skip rb more else rb in
      read_loop-Within (suc (min n (remaining rb))) from (min n (remaining rb)) from.head 0 [] (
        if-Within (ltb offset (remaining rb)) (skip rb more) rb (head-Within rb (rb.head + more) v)
          v)
