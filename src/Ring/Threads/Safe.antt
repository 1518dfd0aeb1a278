-- ===== src/Ring/Threads/Safe.antt =====
-- What the schedules of two threads over the ring of libaudiowire/src/ringbuf.c lead to.
use mathlib.Core.Option.{some-injective}
use mathlib.Core.Path.{subst}
use mathlib.Core.Bool.{true≢false}
use native.Mathlib.Nat.{pow-le-pow_right}
use audiowire.Base.{
  ℕ, ◌≤◌, ◌≡◌, ◌⊎◌, inl, inr, refl, sym, ◌∙◌, arith, Bool, ◌||◌, true, false, [], Option, some,
  Bool-cases,
}
use audiowire.Ring.{Ring}
use audiowire.Ring.Holds.{Holds}
use audiowire.Ring.Threads.{
  Threads, Step, starts_push, starts_pop, produces, consumes, Reach, here, later, torn, torn_free,
  torn_held, produce, consume, at_rest, calls, testing,
}
use audiowire.Ring.Threads.Moves.{Flow, Invariant}
use audiowire.Ring.Threads.Pops.{consume-Keeps}
use audiowire.Ring.Threads.Heads.{Keeps, consumer_waits}
use audiowire.Ring.Threads.Tails.{producer_waits}
use audiowire.Ring.Threads.Pushes.{produce-Keeps}

-- On the way to a state, an index went round the end of the ring between the two loads of it.
pub record Overtaken (max_bufsize : ℕ) (s t : Threads) : Type 0 where
  pub moment : Threads
  pub before : Reach max_bufsize s moment
  pub went_round : torn moment ≡ true
  pub after : Reach max_bufsize moment t

-- A step that returns, without an access outside the memory
abbrev pub Returns : Option Threads → Type 0
Returns step = (t : Threads) × (step ≡ some t)

or_false : (a b : Bool) → (a || b) ≡ false → (a ≡ false) × (b ≡ false)
or_false true b e = absurd (true≢false e)
or_false false b e = (refl, e)

module _ (k max_bufsize : ℕ) where
  at_rest-Invariant : (rb : Ring) → k ≤ 64 → Holds k [] rb → Invariant k max_bufsize (at_rest rb)
  at_rest-Invariant rb small h = record {
    flow = record {
      valid = h.valid;
      sized =
          omega
            (arith, h.valid.power, pow-le-pow_right {n = 2} (omega arith) {i = k} {j = 64} small);
      in_order = sym h.held;
      kept = refl;
    };
    producer_ok = tt;
    consumer_ok = tt;
  }

  next-Keeps :
      (s : Threads)
      → Invariant k max_bufsize s
      → torn s ≡ false
      → Keeps k max_bufsize (produce s.producer s)
        × Keeps k max_bufsize (consume max_bufsize s.consumer s)
  unfolding torn
  next-Keeps s i whole =
      let (p, c) = or_false (torn_free s.producer s.ring) (torn_held s.consumer s.ring) whole in
      (
        produce-Keeps k max_bufsize s s.producer i i.producer_ok p,
        consume-Keeps k max_bufsize s s.consumer i i.consumer_ok c,
      )

  kept_by :
      (step : Option Threads) (t : Threads)
      → Keeps k max_bufsize step
      → step ≡ some t
      → Invariant k max_bufsize t
  kept_by step t (u, e, i) e' = subst (Invariant k max_bufsize) (some-injective _ _ (sym e ∙ e')) i

  Step-Invariant :
      (s t : Threads)
      → Invariant k max_bufsize s
      → torn s ≡ false
      → Step max_bufsize s t
      → Invariant k max_bufsize t
  Step-Invariant s t i whole (starts_push s' buf e small) =
      producer_waits k max_bufsize s (calls testing buf) i.flow (small, tt) i.consumer_ok
  Step-Invariant s t i whole (starts_pop s' n e small) =
      consumer_waits k max_bufsize s (calls testing n) i.flow i.producer_ok (small, tt)
  Step-Invariant s t i whole (produces s' t' e) = kept_by _ t (next-Keeps s i whole).0 e
  Step-Invariant s t i whole (consumes s' t' e) = kept_by _ t (next-Keeps s i whole).1 e

  Reach-Invariant :
      (s t : Threads)
      → Invariant k max_bufsize s
      → Reach max_bufsize s t
      → Invariant k max_bufsize t ⊎ Overtaken max_bufsize s t
  Reach-Invariant s t i here = inl i
  Reach-Invariant s t i (later {t = u} r step) = elim (Reach-Invariant s u i r) [
    | inl j ↦ elim (Bool-cases (torn u)) [
      | inl went ↦
          inr (record { moment = u; before = r; went_round = went; after = later here step })
      | inr whole ↦ inl (Step-Invariant u t j whole step)
    ]
    | inr o ↦ inr (record {
      moment = o.moment;
      before = o.before;
      went_round = o.went_round;
      after = later o.after step;
    })
  ]

  -- Two threads rest over an empty ring of 2 ^ k bytes, k at most 64; the one pushes buffers shorter than the ring's
  -- capacity, the other takes out at most `max_bufsize` bytes at a time, and each tests before it calls. Then every
  -- schedule of their steps leads to a ring that is well formed, in which what was pushed is, in order, what the
  -- consumer has passed and then what the ring holds, and no push has overwritten anything; or on the way an index
  -- went round the end of the ring between the two loads of it.
  pub Reach-Flow :
      (rb : Ring) (s : Threads)
      → k ≤ 64
      → Holds k [] rb
      → Reach max_bufsize (at_rest rb) s
      → Flow k s ⊎ Overtaken max_bufsize (at_rest rb) s
  Reach-Flow rb s small h r =
      elim (Reach-Invariant (at_rest rb) s (at_rest-Invariant rb small h) r) [
        | inl i ↦ inl i.flow
        | inr o ↦ inr o
      ]

  -- Two threads rest over an empty ring of 2 ^ k bytes, k at most 64; the one pushes buffers shorter than the ring's
  -- capacity, the other takes out at most `max_bufsize` bytes at a time, and each tests before it calls. Then in every
  -- state that a schedule of their steps leads to, the next step of either thread stays inside the memory of the ring
  -- and of the buffer; or, on the way or now, an index went round the end of the ring between the two loads of it.
  pub Reach-Returns :
      (rb : Ring) (s : Threads)
      → k ≤ 64
      → Holds k [] rb
      → Reach max_bufsize (at_rest rb) s
      → (Returns (produce s.producer s) × Returns (consume max_bufsize s.consumer s))
        ⊎ Overtaken max_bufsize (at_rest rb) s
  Reach-Returns rb s small h r =
      elim (Reach-Invariant (at_rest rb) s (at_rest-Invariant rb small h) r) [
        | inl i ↦ elim (Bool-cases (torn s)) [
          | inl went ↦ inr (record { moment = s; before = r; went_round = went; after = here })
          | inr whole ↦
              let ((p, pe, pi), (c, ce, ci)) = next-Keeps s i whole in inl ((p, pe), (c, ce))
        ]
        | inr o ↦ inr o
      ]
