-- ===== src/Mpmc/Capacity.antt =====
-- The constructor rounds the capacity up to a power of two.
use d_app_libe.Base.{
  ℕ, zero, suc, ◌+◌, ◌*◌, ◌%◌, ◌^◌, ◌≤◌, ◌<◌, ◌≡◌, refl, ◌⊎◌, inl, inr, ltb, lt→ltb, ltb→lt,
  if◌then◌else◌, Bool-cases, Option, some, none, true, false, arith,
}
use native.Mathlib.Nat.{pow-suc, pow-le-pow_right, mod-eq_of_lt}
use native.Mathlib.Decide.{dec_lt}
use d_app_libe.Mpmc.Defs.{round_up, size_mod}

-- What the loop returns from the capacity 2^k.
record Rounded (k min : ℕ) (r : Option ℕ) : Type 0 where
  exponent : ℕ
  returned : r ≡ some (2 ^ exponent)
  above : k ≤ exponent
  fits : exponent ≤ 63
  enough : min ≤ 2 ^ exponent
  tight : (exponent ≡ k) ⊎ (2 ^ exponent < min * 2)

-- Doubling 2^k does not wrap while k < 63.
doubled : (k : ℕ) → k < 63 → 2 ^ k * 2 % 2 ^ 64 ≡ 2 ^ suc k
doubled k h =
    let small : 2 ^ suc k ≤ 2 ^ 63 = pow-le-pow_right {n = 2} (omega arith) h in
    rw (pow-suc 2 k) (mod-eq_of_lt (omega (arith, pow-suc 2 k)))

round_up_step :
    (fuel c min : ℕ)
    → round_up (suc fuel) c min
      ≡ (if ltb c min then round_up fuel (c * 2 % size_mod) min else some c)
unfolding round_up
round_up_step fuel c min = refl

round_up_out : (c min : ℕ) → round_up zero c min ≡ none
unfolding round_up
round_up_out c min = refl

stops :
    (fuel k min : ℕ)
    → k ≤ 63
    → ltb (2 ^ k) min ≡ false
    → Rounded k min (round_up (suc fuel) (2 ^ k) min)
stops fuel k min fits stop = record {
  exponent = k;
  returned = rw (round_up_step, stop);
  above = omega arith;
  fits = fits;
  enough = ground arith;
  tight = inl refl;
}

doubles :
    (fuel k min : ℕ)
    → k < 63
    → ltb (2 ^ k) min ≡ true
    → Rounded (suc k) min (round_up fuel (2 ^ suc k) min)
    → Rounded k min (round_up (suc fuel) (2 ^ k) min)
doubles fuel k min fits less r = record {
  exponent = r.exponent;
  returned = rw (round_up_step, less, doubled k fits) r.returned;
  above = omega (arith, r.above);
  fits = r.fits;
  enough = r.enough;
  tight = inr (elim r.tight [
    | inl first ↦ rw (first, pow-suc 2 k) (omega (arith, ltb→lt (2 ^ k) min less))
    | inr double ↦ double
  ]);
}

round_up-Rounded :
    (fuel k min : ℕ)
    → k + suc fuel ≡ 64
    → min ≤ 2 ^ 63
    → Rounded k min (round_up (suc fuel) (2 ^ k) min)
round_up-Rounded zero k min e small =
    let last : k ≡ 63 = omega arith in stops zero k min (omega arith) (rw last (ground arith))
round_up-Rounded (suc fuel) k min e small = elim (Bool-cases (ltb (2 ^ k) min)) [
  | inl less ↦
      doubles (suc fuel) k min (omega arith) less
        (round_up-Rounded fuel (suc k) min (omega arith) small)
  | inr stop ↦ stops (suc fuel) k min (omega arith) stop
]

-- For a minimum of at most 2^63 the constructor's loop ends within 63 rounds, at a power of two
-- from 2 to 2^63 that is at least the minimum, and is 2 or less than twice the minimum.
pub round_up-power :
    (min : ℕ)
    → min ≤ 2 ^ 63
    → (n : ℕ) × (round_up 63 2 min ≡ some (2 ^ n))
      × (1 ≤ n)
      × (n ≤ 63)
      × (min ≤ 2 ^ n)
      × ((n ≡ 1) ⊎ (2 ^ n < min * 2))
round_up-power min small =
    let r = round_up-Rounded 62 1 min refl small in
    (r.exponent, r.returned, r.above, r.fits, r.enough, r.tight)

-- For a positive minimum the shift of 0 stays below it: the loop never ends.
round_up-zero : (fuel min : ℕ) → 0 < min → round_up fuel 0 min ≡ none
unfolding round_up
round_up-zero zero min h = refl
round_up-zero (suc fuel) min h = ground (arith, round_up-zero fuel min h)

diverges : (fuel k min : ℕ) → k ≤ 63 → 2 ^ 63 < min → round_up fuel (2 ^ k) min ≡ none
diverges zero k min fits large = round_up_out (2 ^ k) min
diverges (suc fuel) k min fits large =
    let below : 2 ^ k ≤ 2 ^ 63 = pow-le-pow_right {n = 2} (omega arith) fits in
    let less : ltb (2 ^ k) min ≡ true = lt→ltb (2 ^ k) min (omega arith) in
    elim (dec_lt k 63) [
      | yes more ↦ rw (round_up_step, less, doubled k more) (diverges fuel (suc k) min more large)
      | no end ↦
          let last : k ≡ 63 = omega arith in
          rw (round_up_step, less, last) (round_up-zero fuel min (omega arith))
    ]

-- For a minimum above 2^63 the constructor's loop never ends: the capacity wraps to 0 before it
-- reaches it.
pub round_up-diverges : (fuel min : ℕ) → 2 ^ 63 < min → round_up fuel 2 min ≡ none
round_up-diverges fuel min large = diverges fuel 1 min (omega arith) large
