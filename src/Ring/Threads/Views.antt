-- ===== src/Ring/Threads/Views.antt =====
-- What a thread of libaudiowire/src/ringbuf.c counts, where no index went round between its two loads.
use audiowire.Base.{ℕ, ◌+◌, ◌-◌, ◌%◌, ◌^◌, ◌≤◌, ◌<◌, ◌≡◌, ◌∙◌, arith, false, ◌&&◌, ltb, leb}
use audiowire.Ring.{Ring, remaining, available}
use audiowire.Ring.Loops.{mod_wrap}
use audiowire.Ring.Threads.{free, held}

pub minus_lem : (a b w : ℕ) → b ≤ a → a < w → (a + (w - b)) % w ≡ a - b
minus_lem a b w hb ha = mod_wrap (a + (w - b)) w (omega arith) ∙ ground arith

pub held_lem :
    (t : ℕ) (rb : Ring)
    → rb.tail < 2 ^ 64
    → (t < rb.head → rb.tail < rb.head)
    → (leb rb.head t && ltb rb.tail rb.head) ≡ false
    → held t rb ≡ remaining rb
unfolding held remaining
held_lem t rb small moved whole = ground (arith, minus_lem rb.tail rb.head (2 ^ 64))

pub free_lem :
    (h : ℕ) (rb : Ring)
    → rb.head < 2 ^ 64
    → (h ≤ rb.tail → rb.head ≤ rb.tail)
    → (ltb rb.tail h && leb rb.head rb.tail) ≡ false
    → free h rb ≡ available rb
unfolding free available
free_lem h rb small moved whole =
    ground (arith, minus_lem rb.head rb.tail (2 ^ 64), minus_lem (rb.head - rb.tail) 1 (2 ^ 64))

-- An index that went round makes the difference go round as well.
pub held_torn :
    (t : ℕ) (rb : Ring)
    → rb.head ≤ t
    → rb.tail < rb.head
    → rb.head ≤ 2 ^ 64
    → rb.head ≤ rb.capacity
    → held t rb + rb.capacity ≡ remaining rb + 2 ^ 64
unfolding held remaining
held_torn t rb ht behind small inside =
    ground (arith, mod_wrap (rb.tail + (2 ^ 64 - rb.head)) (2 ^ 64))
