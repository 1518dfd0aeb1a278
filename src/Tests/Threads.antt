-- ===== src/Tests/Threads.antt =====
-- Two threads over a ring of four bytes.
use audiowire.Base.{ℕ, zero, suc, ◌≡◌, ◌⊎◌, refl, arith, [], ◌∷◌, Option, none, some}
use audiowire.Ring.{Ring, skip, remaining}
use audiowire.Ring.Loops.{IsValid}
use audiowire.Ring.Holds.{Holds}
use audiowire.Ring.Threads.{
  Threads, starts_push, starts_pop, produces, consumes, Reach, here, later, at_rest, produce,
  consume, free, held, torn_held, taken, acting, testing, calls, copied, compares, reading,
}
use audiowire.Ring.Threads.Moves.{Flow}
use audiowire.Ring.Threads.Safe.{Overtaken, Returns, Reach-Flow, Reach-Returns}
use audiowire.Ring.Threads.Torn.{compare_and_skip, compare_and_skip-remaining}

abbrev empty : Ring
empty = record { bytes = 0 ∷ 0 ∷ 0 ∷ 0 ∷ []; capacity = 4; mask = 3; head = 0; tail = 0 }

empty-Holds : Holds 2 [] empty
unfolding remaining
empty-Holds = record {
  valid = record {
    some_bits = omega arith;
    power = refl;
    ones = refl;
    room = refl;
    head_in = omega arith;
    tail_in = omega arith;
  };
  held = refl;
}

-- A number of steps of one thread, which waits where a step does not return
abbrev get : Threads → Option Threads → Threads
get s none = s
get s (some t) = t

abbrev push_on : ℕ → Threads → Threads
push_on zero s = s
push_on (suc n) s = push_on n (get s (produce s.producer s))

abbrev pop_on : ℕ → Threads → Threads
pop_on zero s = s
pop_on (suc n) s = pop_on n (get s (consume 3 s.consumer s))

module _ {a : Threads} where
  pushed_once :
      (s : Threads) (o : Option Threads)
      → Reach 3 a s
      → produce s.producer s ≡ o
      → Reach 3 a (get s o)
  pushed_once s none r e = r
  pushed_once s (some t) r e = later r (produces s t e)

  pushes : (n : ℕ) (s : Threads) → Reach 3 a s → Reach 3 a (push_on n s)
  pushes zero s r = r
  pushes (suc n) s r = pushes n _ (pushed_once s (produce s.producer s) r refl)

  popped_once :
      (s : Threads) (o : Option Threads)
      → Reach 3 a s
      → consume 3 s.consumer s ≡ o
      → Reach 3 a (get s o)
  popped_once s none r e = r
  popped_once s (some t) r e = later r (consumes s t e)

  pops : (n : ℕ) (s : Threads) → Reach 3 a s → Reach 3 a (pop_on n s)
  pops zero s r = r
  pops (suc n) s r = pops n _ (popped_once s (consume 3 s.consumer s) r refl)

-- Two bytes are pushed, then a third while the two are taken out.
abbrev two_pushed : Threads
two_pushed = push_on 7 (record (at_rest empty) { producer = calls testing (7 ∷ 8 ∷ []) })

abbrev both_start : Threads
both_start = record (record two_pushed { producer = calls testing (9 ∷ []) }) {
  consumer = calls testing 2;
}

abbrev two_popped : Threads
two_popped = pop_on 2 (push_on 5 (pop_on 6 both_start))

-- A byte is pushed past the end of the ring between the two loads of the tail by a call that takes out a byte.
abbrev pop_starts : Threads
pop_starts = record (push_on 2 two_popped) { consumer = calls testing 1 }

abbrev push_starts : Threads
push_starts = record (pop_on 3 pop_starts) { producer = calls testing (10 ∷ []) }

abbrev between : Threads
between = push_on 6 push_starts

two_popped-reached : Reach 3 (at_rest empty) two_popped
unfolding produce consume
two_popped-reached = pops 2 _ (
    pushes 5 _ (
      pops 6 both_start (
        later
          (later
            (pushes 7 _ (later here (starts_push (at_rest empty) (7 ∷ 8 ∷ []) refl (omega arith))))
            (starts_push two_pushed (9 ∷ []) refl (omega arith)))
          (starts_pop _ 2 refl (omega arith)))))

between-reached : Reach 3 (at_rest empty) between
unfolding produce consume
between-reached = pushes 6 push_starts (
    later
      (pops 3 pop_starts (
        later (pushes 2 two_popped two_popped-reached)
          (starts_pop (push_on 2 two_popped) 1 refl (omega arith))))
      (starts_push (pop_on 3 pop_starts) (10 ∷ []) refl (omega arith)))

Reach-Flow_example : Flow 2 two_popped ⊎ Overtaken 3 (at_rest empty) two_popped
Reach-Flow_example = Reach-Flow 2 3 empty two_popped (omega arith) empty-Holds two_popped-reached

Reach-Returns_example :
    (Returns (produce two_popped.producer two_popped)
      × Returns (consume 3 two_popped.consumer two_popped))
    ⊎ Overtaken 3 (at_rest empty) two_popped
Reach-Returns_example =
    Reach-Returns 2 3 empty two_popped (omega arith) empty-Holds two_popped-reached

-- Nothing of this was torn.
two_popped-passed : two_popped.passed ≡ taken (7 ∷ 8 ∷ []) ∷ []
unfolding produce consume
two_popped-passed = refl

-- The ring holds two bytes before the call.
between-remaining : remaining between.ring ≡ 2
unfolding produce consume remaining
between-remaining = refl

between-consumer : between.consumer ≡ compares acting 1 3
unfolding produce consume
between-consumer = refl

-- It then reads the byte 8 again.
between-next : (pop_on 3 between).consumer ≡ copied 1 0 (8 ∷ [])
unfolding produce consume held free skip
between-next = refl

between-IsValid : IsValid 2 between.ring
unfolding produce consume
between-IsValid = record {
  some_bits = omega arith;
  power = refl;
  ones = refl;
  room = refl;
  head_in = omega arith;
  tail_in = omega arith;
}

compare_and_skip-remaining_example :
    (u : Threads) × (compare_and_skip 3 1 3 between ≡ some u)
    × (u.consumer ≡ reading 1 0)
    × (remaining u.ring ≡ 3)
unfolding torn_held produce consume
compare_and_skip-remaining_example =
    compare_and_skip-remaining 2 3 between 1 3 between-IsValid (omega arith) (omega arith)
      (omega arith) refl
