-- ===== src/Base/Bits.antt =====
-- Laws of `bit_and` and `bit_or` at variables, from the digits that the operations stand for.
use Prim.Native.Nat.{
  ℕ, zero, suc, ◌+◌, ◌-◌, ◌*◌, ◌/◌, ◌%◌, ◌^◌, ◌≤◌, ◌<◌, min, max, bit_and, bit_or, digits, bitwise,
  bit_and-bitwise, bit_or-bitwise,
}
use mathlib.Core.Path.{◌≡◌, refl, sym, ap, ◌∙◌}
use native.Mathlib.Omega.{arith}
use native.Mathlib.Nat.{
  two-pow-succ, one-le-pow, div-add-mod, mod-lt, mul-add-mod_self_left, mod-eq_of_lt,
}

-- Both operations are `bitwise`, with their own rest and their own join of two digits.
module _ (rest : ℕ → ℕ) (join : ℕ → ℕ → ℕ) where
  digits-zero : (rounds b : ℕ) → digits rest join rounds zero b ≡ rest b
  digits-zero zero b = refl
  digits-zero (suc rounds) b = refl

  -- Rounds past the highest digit of the first operand add nothing.
  digits_settled :
      (more fewer a b : ℕ)
      → a ≤ more
      → a ≤ fewer
      → digits rest join more a b ≡ digits rest join fewer a b
  digits_settled more fewer zero b p q = digits-zero more b ∙ sym (digits-zero fewer b)
  digits_settled zero _ (suc a) b p q = elim p [ ]
  digits_settled (suc more) zero (suc a) b p q = elim q [ ]
  digits_settled (suc more) (suc fewer) (suc a) b p q =
      ap (λ (high : ℕ). high * 2 + join (suc a % 2) (b % 2))
        (digits_settled more fewer (suc a / 2) (b / 2) (omega arith) (omega arith))

  bitwise_step :
      (a b : ℕ)
      → 0 < a
      → bitwise rest join a b ≡ bitwise rest join (a / 2) (b / 2) * 2 + join (a % 2) (b % 2)
  bitwise_step zero b h = elim h [ ]
  bitwise_step (suc a) b h =
      ap (λ (high : ℕ). high * 2 + join (suc a % 2) (b % 2))
        (digits_settled a (suc a / 2) (suc a / 2) (b / 2) (omega arith) (omega arith))

bit_and_step : (a b : ℕ) → bit_and a b ≡ bit_and (a / 2) (b / 2) * 2 + min (a % 2) (b % 2)
bit_and_step zero b = omega (arith, bit_and-bitwise 0 b, bit_and-bitwise 0 (b / 2))
bit_and_step (suc a) b = omega (
  arith,
  bitwise_step (λ b. zero) min (suc a) b (omega arith),
  bit_and-bitwise (suc a) b,
  bit_and-bitwise (suc a / 2) (b / 2),
)

bit_or_step : (a b : ℕ) → bit_or a b ≡ bit_or (a / 2) (b / 2) * 2 + max (a % 2) (b % 2)
bit_or_step zero b = omega (arith, bit_or-bitwise 0 b, bit_or-bitwise 0 (b / 2))
bit_or_step (suc a) b = omega (
  arith,
  bitwise_step (λ b. b) max (suc a) b (omega arith),
  bit_or-bitwise (suc a) b,
  bit_or-bitwise (suc a / 2) (b / 2),
)

-- With nothing on the right: by halving, below a bound.
bit_and-nothing : (bound a : ℕ) → a < bound → bit_and a 0 ≡ 0
bit_and-nothing zero a h = elim h [ ]
bit_and-nothing (suc bound) zero h = bit_and-bitwise 0 0
bit_and-nothing (suc bound) (suc a) h =
    omega (arith, bit_and-nothing bound (suc a / 2) (omega arith), bit_and_step (suc a) 0)

bit_or-nothing : (bound a : ℕ) → a < bound → bit_or a 0 ≡ a
bit_or-nothing zero a h = elim h [ ]
bit_or-nothing (suc bound) zero h = bit_or-bitwise 0 0
bit_or-nothing (suc bound) (suc a) h =
    omega (arith, bit_or-nothing bound (suc a / 2) (omega arith), bit_or_step (suc a) 0)

double-shift : (k a : ℕ) → a * 2 ^ suc k ≡ 2 * (a * 2 ^ k)
double-shift k a = omega (arith, two-pow-succ k, ap (λ (t : ℕ). a * t) (two-pow-succ k))

half : (n : ℕ) → 2 * n / 2 ≡ n
half n = omega arith

half_mask : (k : ℕ) → (2 ^ suc k - 1) / 2 ≡ 2 ^ k - 1
half_mask k = omega (arith, two-pow-succ k)

rem_split : (k a : ℕ) → a % 2 ^ suc k ≡ a / 2 % 2 ^ k * 2 + a % 2
rem_split k a =
    let q = a / 2 / 2 ^ k in
    let r = a / 2 % 2 ^ k * 2 + a % 2 in
    let parts : a ≡ 2 ^ suc k * q + r =
      omega (arith, div-add-mod (a / 2) (2 ^ k), ap (λ (t : ℕ). t * q) (two-pow-succ k)) in
    let small : r < 2 ^ suc k =
      omega (arith, two-pow-succ k, mod-lt (a / 2) (one-le-pow k 2 (omega arith))) in
    ap (λ (t : ℕ). t % 2 ^ suc k) parts ∙ mul-add-mod_self_left (2 ^ suc k) q r ∙ mod-eq_of_lt small

-- `a << k | b` is a sum where `b` has at most `k` bits.
pub bit_or-shift : (k a b : ℕ) → b < 2 ^ k → bit_or (a * 2 ^ k) b ≡ a * 2 ^ k + b
bit_or-shift zero a b h =
    let e : b ≡ 0 = omega arith in
    let f : a * 2 ^ 0 ≡ a = omega arith in
    rw (e, f) (omega (arith, bit_or-nothing (a + 1) a (omega arith)))
bit_or-shift (suc k) a b h =
    rw (double-shift k a, bit_or_step)
      (rw (half (a * 2 ^ k))
        (omega (arith, bit_or-shift k a (b / 2) (omega (arith, two-pow-succ k)))))

-- A mask of `k` ones is a remainder.
pub bit_and-mask : (k a : ℕ) → bit_and a (2 ^ k - 1) ≡ a % 2 ^ k
bit_and-mask zero a = omega (arith, bit_and-nothing (a + 1) a (omega arith))
bit_and-mask (suc k) a = omega (
  arith,
  bit_and_step a (2 ^ suc k - 1),
  ap (bit_and (a / 2)) (half_mask k),
  bit_and-mask k (a / 2),
  two-pow-succ k,
  rem_split k a,
  one-le-pow k 2 (omega arith),
)
