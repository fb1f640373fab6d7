-- ===== src/Json/Tests/Scalars.antt =====
-- Characters from their numbers.
use Prim.Native.Nat.{Ordering, compare}
use Prim.Native.Char.{Char, char, code, IsLt, IsScalar}
use d_app_libe.Base.{ℕ, ◌≡◌, refl, ap, Option, none, some}

-- The test of IsScalar, in its three comparisons.
abbrev Both : Ordering → Ordering → Type 0
Both Ordering.lt o = IsLt o
Both Ordering.eq _ = ⊥
Both Ordering.gt _ = ⊥

abbrev Scalar : Ordering → Ordering → Ordering → Type 0
Scalar Ordering.lt _ _ = Unit
Scalar Ordering.eq o p = Both o p
Scalar Ordering.gt o p = Both o p

abbrev both_of : (o p : Ordering) → Option (Both o p)
both_of Ordering.lt Ordering.lt = some tt
both_of Ordering.lt Ordering.eq = none
both_of Ordering.lt Ordering.gt = none
both_of Ordering.eq _ = none
both_of Ordering.gt _ = none

both_of-some : (o p : Ordering) (h : Both o p) → both_of o p ≡ some h
both_of-some Ordering.lt Ordering.lt h = refl
both_of-some Ordering.lt Ordering.eq h = absurd h
both_of-some Ordering.lt Ordering.gt h = absurd h
both_of-some Ordering.eq p h = absurd h
both_of-some Ordering.gt p h = absurd h

abbrev scalar_of : (o p q : Ordering) → Option (Scalar o p q)
scalar_of Ordering.lt _ _ = some tt
scalar_of Ordering.eq p q = both_of p q
scalar_of Ordering.gt p q = both_of p q

scalar_of-some : (o p q : Ordering) (h : Scalar o p q) → scalar_of o p q ≡ some h
scalar_of-some Ordering.lt p q h = refl
scalar_of-some Ordering.eq p q h = both_of-some p q h
scalar_of-some Ordering.gt p q h = both_of-some p q h

abbrev char_if : (n : ℕ) → Option (IsScalar n) → Option Char
char_if n none = none
char_if n (some h) = some (char n h)

abbrev pub from_code : ℕ → Option Char
from_code n = char_if n (scalar_of (compare n 55296) (compare 57343 n) (compare n 1114112))

pub from_code-code : (c : Char) → from_code (code c) ≡ some c
from_code-code (char n h) =
    ap (char_if n) (scalar_of-some (compare n 55296) (compare 57343 n) (compare n 1114112) h)
