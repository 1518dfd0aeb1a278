-- ===== src/Ring/Create.antt =====
-- The ring that libaudiowire/src/ringbuf.c makes.
use native.Mathlib.Nat.{two-pow-succ, pow-le-pow_right, mod-eq_of_lt}
use audiowire.Base.{
  ℕ, zero, suc, ◌+◌, ◌-◌, ◌*◌, ◌%◌, ◌^◌, ◌≤◌, ◌<◌, ◌≡◌, inl, inr, refl, sym, ap, ◌∙◌, arith, [],
  some, lt→ltb, le→not_ltb, lt_or_le,
}
use audiowire.Base.Arrays.{replicate, length-replicate}
use audiowire.Ring.{Ring, grow, create, remaining}
use audiowire.Ring.Holds.{Holds}

-- The smallest power of two that is no less
abbrev pub CapacityFor : ℕ → ℕ → Type 0
CapacityFor cap k = (cap ≤ 2 ^ k) × (2 ^ k < 2 * cap)

-- The capacity is doubled at most `d` times, below 2 ^ 64.
grow-CapacityFor :
    (fuel cap j d : ℕ)
    → cap ≤ 2 ^ (j + d)
    → d < fuel
    → j + d < 64
    → 2 ^ j < 2 * cap
    → (k : ℕ) × (grow fuel cap (2 ^ j) ≡ some (2 ^ k)) × CapacityFor cap k
unfolding grow
grow-CapacityFor zero cap j d hc hd hj hs = absurd (omega arith)
grow-CapacityFor (suc fuel) cap j zero hc hd hj hs =
    let z : j + 0 ≡ j = omega arith in
    let enough : cap ≤ 2 ^ j = rw (sym z) hc in
    (j, rw (le→not_ltb _ _ enough, grow) refl, (enough, hs))
grow-CapacityFor (suc fuel) cap j (suc d) hc hd hj hs = elim (lt_or_le (2 ^ j) cap) [
  | inl more ↦
      let below : 2 ^ suc j ≤ 2 ^ 63 =
        pow-le-pow_right {n = 2} (omega arith) {i = suc j} {j = 63} (omega arith) in
      let double : 2 ^ j * 2 ≡ 2 ^ suc j = omega (arith, two-pow-succ j) in
      let fits : 2 ^ j * 2 % 2 ^ 64 ≡ 2 ^ suc j =
        ap (λ n. n % 2 ^ 64) double ∙ mod-eq_of_lt (omega (arith, below)) in
      let s : j + suc d ≡ suc j + d = omega arith in
      let (k, e, bounds) =
        grow-CapacityFor fuel cap (suc j) d (rw (← s) hc) (omega arith) (omega arith)
          (omega (arith, double)) in
      (k, rw (lt→ltb _ _ more, grow) (ap (grow fuel cap) fits ∙ e), bounds)
  | inr enough ↦ (j, rw (le→not_ltb _ _ enough, grow) refl, (enough, hs))
]

pub create-Holds :
    (cap : ℕ)
    → 1 < cap
    → cap ≤ 2 ^ 63
    → (k : ℕ) × (rb : Ring) × (create cap ≡ some rb) × CapacityFor cap k × Holds k [] rb
unfolding create remaining
create-Holds cap h le =
    let (k, e, bounds) =
      grow-CapacityFor 65 cap 0 63 le (omega arith) (omega arith) (omega arith) in
    (
      k,
      record {
        bytes = replicate (2 ^ k) 0;
        capacity = 2 ^ k;
        mask = 2 ^ k - 1;
        head = 0;
        tail = 0;
      },
      rw e refl,
      bounds,
      record {
        valid = record {
          some_bits = omega (arith, bounds.0);
          power = refl;
          ones = refl;
          room = length-replicate (2 ^ k) 0;
          head_in = omega (arith, bounds.0);
          tail_in = omega (arith, bounds.0);
        };
        held = refl;
      },
    )
