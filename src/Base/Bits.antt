-- ===== src/Base/Bits.antt =====
-- A mask of `k` ones keeps a number's remainder by 2 ^ k.
use Prim.Native.Nat.{
  ℕ, zero, suc, ◌+◌, ◌-◌, ◌*◌, ◌/◌, ◌%◌, ◌^◌, ◌≤◌, ◌<◌, min, bit_and, digits, bit_and-bitwise,
}
use mathlib.Core.Path.{◌≡◌, refl, sym, ap, ◌∙◌}
use native.Mathlib.Nat.{
  two-pow-succ, pow-zero, zero-mod, mod-one, one-le-pow, mod-add-div, add-mul-mod_self_left,
  mod-eq_of_lt, mod-lt,
}
use native.Mathlib.Omega.{arith}

-- The binary digits that both numbers have, of at most `n`
abbrev common_digits : ℕ → ℕ → ℕ → ℕ
common_digits n a b = digits (λ b'. zero) min n a b

common_digits-zero : (n a : ℕ) → common_digits n a 0 ≡ 0
common_digits-zero zero a = refl
common_digits-zero (suc n) zero = refl
common_digits-zero (suc n) (suc a) = omega (arith, common_digits-zero n (suc a / 2))

pub pow_pos : (k : ℕ) → 0 < 2 ^ k
pow_pos k = omega (arith, one-le-pow k 2)

-- The lowest digit apart, the remainder is that of the half.
mod_double : (a p : ℕ) → 0 < p → a % (p + p) ≡ (a / 2 % p) * 2 + a % 2
mod_double a p h =
    let whole : a ≡ (a / 2 % p * 2 + a % 2) + (p + p) * (a / 2 / p) =
      grind (arith, mod-add-div (a / 2) p) in
    ap (λ n. n % (p + p)) whole
    ∙ add-mul-mod_self_left (a / 2 % p * 2 + a % 2) (p + p) (a / 2 / p)
    ∙ mod-eq_of_lt (omega (arith, mod-lt (a / 2) h))

common_digits-mask : (k n a : ℕ) → a ≤ n → common_digits n a (2 ^ k - 1) ≡ a % 2 ^ k
common_digits-mask zero n a h = rw pow-zero (common_digits-zero n a ∙ sym (mod-one a))
common_digits-mask (suc k) zero zero h = sym (zero-mod _)
common_digits-mask (suc k) zero (suc a) h = absurd (omega arith)
common_digits-mask (suc k) (suc n) zero h = sym (zero-mod _)
common_digits-mask (suc k) (suc n) (suc a) h =
    let double = two-pow-succ k in
    let ones : (2 ^ suc k - 1) / 2 ≡ 2 ^ k - 1 = omega (arith, double, pow_pos k) in
    let odd : (2 ^ suc k - 1) % 2 ≡ 1 = omega (arith, double, pow_pos k) in
    let ih = common_digits-mask k n (suc a / 2) (omega arith) in
    rw (ones, odd, ih, double) (omega (arith, mod_double (suc a) (2 ^ k) (pow_pos k)))

pub bit_and-mask : (a k : ℕ) → bit_and a (2 ^ k - 1) ≡ a % 2 ^ k
bit_and-mask a k = (λ i. bit_and-bitwise a (2 ^ k - 1) i) ∙ common_digits-mask k a a (omega arith)
