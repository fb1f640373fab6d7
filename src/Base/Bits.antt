-- ===== src/Base/Bits.antt =====
-- The bit operations of the source at variables: joining disjoint fields by `|`, and masking by
-- `&` with a power of two less one.
use Prim.Native.Nat.{
  ℕ, zero, suc, ◌+◌, ◌-◌, ◌*◌, ◌/◌, ◌%◌, ◌^◌, ◌≤◌, ◌<◌, max, min, bit_or, bit_and, digits,
  bit_or-bitwise, bit_and-bitwise,
}
use mathlib.Core.Path.{◌≡◌, refl, sym, ◌∙◌}
use native.Mathlib.Nat.{pow-suc, zero-mod}
use native.Mathlib.Omega.{arith}

-- What `bit_or` and `bit_and` compute, with `n` digits to go.
abbrev or_loop : ℕ → ℕ → ℕ → ℕ
or_loop n a b = digits (λ b. b) max n a b

abbrev and_loop : ℕ → ℕ → ℕ → ℕ
and_loop n a b = digits (λ b. zero) min n a b

or_loop-zero : (n a : ℕ) → a ≤ n → or_loop n a 0 ≡ a
or_loop-zero zero a h = omega arith
or_loop-zero (suc n) zero h = refl
or_loop-zero (suc n) (suc a) h = omega (arith, or_loop-zero n (suc a / 2) (omega arith))

double_shift : (hi k : ℕ) → hi * 2 ^ suc k ≡ hi * 2 ^ k * 2
double_shift hi k = rw (pow-suc 2 k) (omega arith)

or_loop-disjoint : (k n a b hi : ℕ) → a ≤ n → a ≡ hi * 2 ^ k → b < 2 ^ k → or_loop n a b ≡ a + b
or_loop-disjoint zero n a zero hi h e l = omega (arith, or_loop-zero n a h)
or_loop-disjoint zero n a (suc b) hi h e l = absurd (omega arith)
or_loop-disjoint (suc k) zero a b hi h e l = omega arith
or_loop-disjoint (suc k) (suc n) zero b hi h e l = omega arith
or_loop-disjoint (suc k) (suc n) (suc a) b hi h e l = omega (
  arith,
  halves,
  pow-suc 2 k,
  or_loop-disjoint k n (suc a / 2) (b / 2) hi (omega arith) (omega (arith, halves))
      (omega (arith, pow-suc 2 k)),
)
  where
    halves : suc a ≡ hi * 2 ^ k * 2
    halves = e ∙ double_shift hi k

-- Fields that share no bit are joined as by addition.
pub bit_or-disjoint : (k hi lo : ℕ) → lo < 2 ^ k → bit_or (hi * 2 ^ k) lo ≡ hi * 2 ^ k + lo
bit_or-disjoint k hi lo l =
    bit_or-bitwise (hi * 2 ^ k) lo
    ∙ or_loop-disjoint k (hi * 2 ^ k) (hi * 2 ^ k) lo hi (omega arith) refl l

and_loop-zero : (n a : ℕ) → a ≤ n → and_loop n a 0 ≡ 0
and_loop-zero zero a h = refl
and_loop-zero (suc n) zero h = refl
and_loop-zero (suc n) (suc a) h = omega (arith, and_loop-zero n (suc a / 2) (omega arith))

-- The remainder by an even number, by its digits.
mod-double : (a p : ℕ) → 0 < p → a % (p * 2) ≡ a / 2 % p * 2 + a % 2
mod-double a p h = grind arith

and_loop-mask : (k n a m : ℕ) → a ≤ n → m + 1 ≡ 2 ^ k → and_loop n a m ≡ a % 2 ^ k
and_loop-mask zero n a m h e =
    let none_left : m ≡ 0 = omega arith in rw (none_left, and_loop-zero n a h) (omega arith)
and_loop-mask (suc k) zero a m h e =
    let gone : a ≡ 0 = omega arith in rw (gone, zero-mod (2 ^ suc k))
and_loop-mask (suc k) (suc n) zero m h e = sym (zero-mod (2 ^ suc k))
and_loop-mask (suc k) (suc n) (suc a) m h e = rw (pow-suc 2 k) (
    omega (
      arith,
      ones,
      mod-double (suc a) (2 ^ k) (omega arith),
      and_loop-mask k n (suc a / 2) (m / 2) (omega arith) (omega (arith, ones)),
    ))
  where
    ones : m + 1 ≡ 2 ^ k * 2
    ones = e ∙ pow-suc 2 k

two_pow_pos : (k : ℕ) → 0 < 2 ^ k
two_pow_pos zero = omega arith
two_pow_pos (suc k) = rw (pow-suc 2 k) (omega (arith, two_pow_pos k))

-- A mask of `k` ones keeps the remainder by 2^k.
pub bit_and-mask : (k a : ℕ) → bit_and a (2 ^ k - 1) ≡ a % 2 ^ k
bit_and-mask k a =
    bit_and-bitwise a (2 ^ k - 1)
    ∙ and_loop-mask k a a (2 ^ k - 1) (omega arith) (omega (arith, two_pow_pos k))
