-- ===== src/Base/IdSets.antt =====
-- std::unordered_set of unsigned integers, as a list without repetition.
use Prim.Native.Nat.{ℕ}
use mathlib.Core.Path.{◌≡◌, refl}
use mathlib.Core.Bool.{Bool, true, false, ◌||◌, ◌&&◌, not}
use mathlib.Core.List.{List, [], ◌∷◌, ◌++◌}
use native.Mathlib.Omega.{arith}
use d_app_libe.Base.Tests.{◌==◌, if◌then◌else◌}
use d_app_libe.Base.Lists.{contains, contains-append}

abbrev pub is_empty : List ℕ → Bool
is_empty [] = true
is_empty (x ∷ xs) = false

-- `s.insert(a)`.
unfoldable pub add_id : ℕ → List ℕ → List ℕ
add_id a xs = if contains a xs then xs else xs ++ (a ∷ [])

-- `s.erase(a)`.
unfoldable pub remove_id : ℕ → List ℕ → List ℕ
remove_id a [] = []
remove_id a (x ∷ xs) = let rest = remove_id a xs in if x == a then rest else x ∷ rest

pub contains-add_id : (b a : ℕ) (xs : List ℕ) → contains b (add_id a xs) ≡ (a == b || contains b xs)
unfolding add_id
contains-add_id b a xs = ground (arith, contains-append b xs (a ∷ []))

pub contains-remove_id :
    (b a : ℕ) (xs : List ℕ) → contains b (remove_id a xs) ≡ (not (a == b) && contains b xs)
unfolding remove_id
contains-remove_id b a [] = ground arith
contains-remove_id b a (x ∷ xs) = ground (arith, contains-remove_id b a xs)

-- A set is empty if nothing is in it.
pub is_empty_of_contains : (xs : List ℕ) → ((a : ℕ) → contains a xs ≡ false) → is_empty xs ≡ true
is_empty_of_contains [] h = refl
is_empty_of_contains (x ∷ xs) h = ground (arith, h x)

pub not-is_empty_of_contains : (a : ℕ) (xs : List ℕ) → contains a xs ≡ true → is_empty xs ≡ false
not-is_empty_of_contains a [] h = ground arith
not-is_empty_of_contains a (x ∷ xs) h = refl

pub ruleset id_sets = (contains-add_id, contains-remove_id)
