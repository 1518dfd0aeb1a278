-- ===== src/Ring/Runs.antt =====
-- A sequence of calls on a ring, and on the queue that it stands for.
use audiowire.Base.{
  ℕ, ◌-◌, ◌≤◌, ◌<◌, ◌^◌, ◌≡◌, inl, refl, ap, arith, List, [], ◌∷◌, Option, none, some, length, All,
}
use audiowire.Ring.{Ring, ◌>>=◌, create, flush, remaining}
use audiowire.Ring as Buffer
use audiowire.Ring.Queue
use audiowire.Ring.Holds.{Holds}
use audiowire.Ring.Refine.{Leaves, pop_front_refines, pop_back_refines, pop_back_from_refines}
use audiowire.Ring.Push.{push_refines}
use audiowire.Ring.Create.{CapacityFor, create-Holds}

-- A call of one of the five functions that change a ring
pub data Call : Type 0 where
  call_push : List ℕ → Call
  call_pop_front : ℕ → Call
  call_pop_back : ℕ → Call
  call_pop_back_from : ℕ → ℕ → Call
  call_flush : Call

-- What it gives back: a count, or the bytes that it copies out
pub data Reply : Type 0 where
  pushed : ℕ → Reply
  popped : List ℕ → Reply
  flushed : Reply

-- `ringbuf_pop_back_from` reads no more than it steps back for.
abbrev pub IsSafe : Call → Type 0
IsSafe (call_push bytes) = Unit
IsSafe (call_pop_front n) = Unit
IsSafe (call_pop_back n) = Unit
IsSafe (call_pop_back_from n offset) = n ≤ offset
IsSafe call_flush = Unit

abbrev reply {ℓ} : {A B : Type ℓ} → (A → Reply) → Option (A × B) → Option (Reply × B)
reply f none = none
reply f (some (a, b)) = some (f a, b)

unfoldable pub call : Call → Ring → Option (Reply × Ring)
call (call_push bytes) rb = reply pushed (Buffer.push rb bytes)
call (call_pop_front n) rb = reply popped (Buffer.pop_front rb n)
call (call_pop_back n) rb = reply popped (Buffer.pop_back rb n)
call (call_pop_back_from n offset) rb = reply popped (Buffer.pop_back_from rb n offset)
call call_flush rb = some (flushed, flush rb)

unfoldable pub calls : List Call → Ring → Option (List Reply × Ring)
unfolding call
calls [] rb = some ([], rb)
calls (c ∷ cs) rb = do (r, rb') ← call c rb; (rs, rb'') ← calls cs rb'; some (r ∷ rs, rb'')

-- The calls on a queue of at most `cap` bytes
abbrev pub queue_call : ℕ → Call → List ℕ → Reply × List ℕ
queue_call cap (call_push bytes) items = (pushed (length bytes), Queue.push cap items bytes)
queue_call cap (call_pop_front n) items =
    let (out, rest) = Queue.pop_front n items in (popped out, rest)
queue_call cap (call_pop_back n) items =
    let (out, rest) = Queue.pop_back n items in (popped out, rest)
queue_call cap (call_pop_back_from n offset) items =
    let (out, rest) = Queue.pop_back_from n offset items in (popped out, rest)
queue_call cap call_flush items = (flushed, [])

abbrev pub queue_calls : ℕ → List Call → List ℕ → List Reply × List ℕ
queue_calls cap [] items = ([], items)
queue_calls cap (c ∷ cs) items =
    let (r, items') = queue_call cap c items in
    let (rs, rest) = queue_calls cap cs items' in (r ∷ rs, rest)

module _ (k : ℕ) where
  Leaves-reply :
      {A : Type 0} (f : A → Reply) (r : Option (A × Ring)) (out : A) (items : List ℕ)
      → Leaves k r out items
      → Leaves k (reply f r) (f out) items
  Leaves-reply f r out items (rb', e, h) = (rb', ap (reply f) e, h)

  flush-Holds : (rb : Ring) (items : List ℕ) → Holds k items rb → Holds k [] (flush rb)
  unfolding flush remaining
  flush-Holds rb items h =
      let v = h.valid in
      record {
        valid = record {
          some_bits = v.some_bits;
          power = v.power;
          ones = v.ones;
          room = v.room;
          head_in = omega (arith, v.some_bits);
          tail_in = omega (arith, v.some_bits);
        };
        held = refl;
      }

  call_refines :
      (c : Call) (rb : Ring) (items : List ℕ)
      → IsSafe c
      → Holds k items rb
      → let (r, rest) = queue_call rb.mask c items in Leaves k (call c rb) r rest
  unfolding call
  call_refines (call_push bytes) rb items s h =
      Leaves-reply pushed _ _ _ (push_refines k rb items bytes h)
  call_refines (call_pop_front n) rb items s h =
      Leaves-reply popped _ _ _ (pop_front_refines k rb items n h)
  call_refines (call_pop_back n) rb items s h =
      Leaves-reply popped _ _ _ (pop_back_refines k rb items n h)
  call_refines (call_pop_back_from n offset) rb items s h =
      Leaves-reply popped _ _ _ (pop_back_from_refines k rb items n offset h (inl s))
  call_refines call_flush rb items s h = (flush rb, refl, flush-Holds rb items h)

  same_mask :
      (rb rb' : Ring) (items items' : List ℕ)
      → Holds k items rb
      → Holds k items' rb'
      → rb'.mask ≡ rb.mask
  same_mask rb rb' items items' h h' =
      omega (arith, h.valid.ones, h'.valid.ones, h.valid.power, h'.valid.power)

  pub calls_refine :
      (cs : List Call) (rb : Ring) (items : List ℕ)
      → All IsSafe cs
      → Holds k items rb
      → let (rs, rest) = queue_calls rb.mask cs items in Leaves k (calls cs rb) rs rest
  unfolding calls
  calls_refine [] rb items safe h = (rb, refl, h)
  calls_refine (c ∷ cs) rb items (s, safe) h =
      let (rb', e, h') = call_refines c rb items s h in
      let m = same_mask rb rb' _ _ h h' in
      let (rb'', e', h'') = calls_refine cs rb' (queue_call rb.mask c items).1 safe h' in
      (rb'', rw (e, calls) (rw (e', m) refl), rw m at h'')

-- Any calls on a new ring, as the program makes them
unfoldable pub session : ℕ → List Call → Option (List Reply × Ring)
unfolding create calls
session cap cs = do rb ← create cap; calls cs rb

-- A ring created for 2 to 2 ^ 63 bytes answers every sequence of calls, of which those of ringbuf_pop_back_from read no
-- more bytes than the offset, as a queue does that keeps the newest 2 ^ k - 1 bytes, where 2 ^ k is the least power of
-- two that is no less than the size asked for; no call accesses memory outside the ring or fails to return.
pub session_refines :
    (cap : ℕ) (cs : List Call)
    → 1 < cap
    → cap ≤ 2 ^ 63
    → All IsSafe cs
    → (k : ℕ) × CapacityFor cap k
      × let (rs, rest) = queue_calls (2 ^ k - 1) cs [] in Leaves k (session cap cs) rs rest
unfolding session
session_refines cap cs h le safe =
    let (k, rb, e, bounds, holds) = create-Holds cap h le in
    let m : rb.mask ≡ 2 ^ k - 1 = omega (arith, holds.valid.ones, holds.valid.power) in
    (k, bounds, rw (e, session) (rw m at (calls_refine k cs rb [] safe holds)))
