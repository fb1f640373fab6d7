-- ===== src/Base/Options.antt =====
-- std::optional and calls that may throw, in sequence.
use Prim.Native.Nat.{ℕ}
use mathlib.Core.Bool.{Bool, false}
use mathlib.Core.Option.{Option, none, some}
use d_app_libe.Base.Tests.{◌==◌}

infixl 5 ◌>>=◌
abbrev pub ◌>>=◌ {ℓ κ} : {A : Type ℓ} {B : Type κ} → Option A → (A → Option B) → Option B
none >>= f = none
some a >>= f = f a

-- What holds of the value, if there is one.
abbrev pub AllOf {ℓ κ} : {A : Type ℓ} → (A → Type κ) → Option A → Type κ
AllOf P none = Unit
AllOf P (some a) = P a

pub >>=-AllOf {ℓ κ μ} :
    {A : Type ℓ} {B : Type κ} (P : B → Type μ) (o : Option A) (f : A → Option B)
    → ((a : A) → AllOf P (f a))
    → AllOf P (o >>= f)
>>=-AllOf P none f h = tt
>>=-AllOf P (some a) f h = h a

-- Whether the value is there and is the given number.
abbrev pub holds : Option ℕ → ℕ → Bool
holds none q = false
holds (some n) q = q == n
