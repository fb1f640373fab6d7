-- ===== src/Registry/Available.antt =====
-- The RAN functions that the registry offers, and how models come into it.
use d_app_libe.Base.{
  ℕ, suc, ◌+◌, ◌≤◌, true, false, if◌then◌else◌, ◌==◌, leb, ◌||◌, ◌≡◌, refl, ◌∙◌, some, List, [],
  ◌∷◌, ◌++◌, find, find-insert_or_assign, insert_or_assign, keys, contains, contains-append,
  contains-keys, arith, Bool-cases, inl, inr, Option-is_some, Map, eq_refl,
}
use d_app_libe.Types.{ErrorCode}
use d_app_libe.Registry.Defs.{
  ServiceModel, SmRegistry, insert_sorted, sort, get_available_ran_functions, register_sm,
  is_success, has_sm, has_factory,
}

-- Each identifier is at most the next.
abbrev pub IsSorted : List ℕ → Type 0
IsSorted [] = Unit
IsSorted (x ∷ []) = Unit
IsSorted (x ∷ y ∷ xs) = (x ≤ y) × IsSorted (y ∷ xs)

-- How often an identifier is listed.
abbrev pub count : ℕ → List ℕ → ℕ
count k [] = 0
count k (x ∷ xs) = if x == k then suc (count k xs) else count k xs

contains-insert_sorted :
    (k a : ℕ) (xs : List ℕ) → contains k (insert_sorted a xs) ≡ (a == k || contains k xs)
unfolding insert_sorted
contains-insert_sorted k a [] = refl
contains-insert_sorted k a (x ∷ xs) = ground (arith, contains-insert_sorted k a xs)

contains-sort : (k : ℕ) (xs : List ℕ) → contains k (sort xs) ≡ contains k xs
unfolding sort
contains-sort k [] = refl
contains-sort k (x ∷ xs) = ground (arith, contains-sort k xs, contains-insert_sorted k x (sort xs))

count-insert_sorted : (k a : ℕ) (xs : List ℕ) → count k (insert_sorted a xs) ≡ count k (a ∷ xs)
unfolding insert_sorted
count-insert_sorted k a [] = refl
count-insert_sorted k a (x ∷ xs) = ground (arith, count-insert_sorted k a xs)

count-sort : (k : ℕ) (xs : List ℕ) → count k (sort xs) ≡ count k xs
unfolding sort
count-sort k [] = refl
count-sort k (x ∷ xs) = ground (arith, count-sort k xs, count-insert_sorted k x (sort xs))

count-append : (k : ℕ) (xs ys : List ℕ) → count k (xs ++ ys) ≡ count k xs + count k ys
count-append k [] ys = omega arith
count-append k (x ∷ xs) ys = ground (arith, count-append k xs ys)

insert_sorted-IsSorted : (a : ℕ) (xs : List ℕ) → IsSorted xs → IsSorted (insert_sorted a xs)
unfolding insert_sorted
insert_sorted-IsSorted a [] s = tt
insert_sorted-IsSorted a (x ∷ []) s = elim (Bool-cases (leb a x)) [
  | inl below ↦ rw (insert_sorted, below) (ground arith, tt)
  | inr above ↦ rw (insert_sorted, above) (ground arith, tt)
]
insert_sorted-IsSorted a (x ∷ y ∷ xs) s =
    let rest = insert_sorted-IsSorted a (y ∷ xs) s.1 in
    elim (Bool-cases (leb a x)) [
      | inl below ↦ rw (insert_sorted, below) (ground arith, s)
      | inr above ↦ elim (Bool-cases (leb a y)) [
        | inl between ↦ rw (insert_sorted, above, between) (ground arith, (ground arith, s.1))
        | inr later ↦ rw (insert_sorted, above, later) (s.0, rw (insert_sorted, later) at rest)
      ]
    ]

sort-IsSorted : (xs : List ℕ) → IsSorted (sort xs)
unfolding sort
sort-IsSorted [] = tt
sort-IsSorted (x ∷ xs) = insert_sorted-IsSorted x (sort xs) (sort-IsSorted xs)

module _ {ℓ} {V : Type ℓ} where
  count-keys : (k : ℕ) (m : Map V) → Option-is_some (find k m) ≡ true → 1 ≤ count k (keys m)
  unfolding find keys
  count-keys k [] h = ground arith
  count-keys k ((j, v) ∷ m) h = elim (Bool-cases (j == k)) [
    | inl same ↦ ground arith
    | inr other ↦ ground (arith, count-keys k m)
  ]

module _ {ℓ} {Model Factory : Type ℓ} where
  -- The available RAN functions are in ascending order, and are those with a model or a factory.
  pub get_available_ran_functions-Exact :
      (r : SmRegistry Model Factory)
      → IsSorted (get_available_ran_functions r)
        × ((k : ℕ) → contains k (get_available_ran_functions r) ≡ (has_sm k r || has_factory k r))
  unfolding get_available_ran_functions
  get_available_ran_functions-Exact r = (
    sort-IsSorted (keys r.sms ++ keys r.factories),
    λ k.
        contains-sort k (keys r.sms ++ keys r.factories)
        ∙ contains-append k (keys r.sms) (keys r.factories)
        ∙ rw (contains-keys k r.sms, contains-keys k r.factories),
  )

  -- A RAN function with a model and with a factory is listed twice.
  listed_twice :
      (k : ℕ) (r : SmRegistry Model Factory)
      → has_sm k r ≡ true
      → has_factory k r ≡ true
      → 2 ≤ count k (get_available_ran_functions r)
  unfolding get_available_ran_functions
  listed_twice k r sm factory =
      let sorted = count-sort k (keys r.sms ++ keys r.factories) in
      let parts = count-append k (keys r.sms) (keys r.factories) in
      let first = count-keys k r.sms sm in
      let second = count-keys k r.factories factory in omega arith

  module _ (sm : ServiceModel Model) where
    register_sm_new :
        (s : Model) (r : SmRegistry Model Factory)
        → has_sm (sm.ran_function_id s) r ≡ false
        → is_success (sm.init s).0 ≡ true
        → register_sm sm (some s) r ≡ (
          record r { sms = insert_or_assign (sm.ran_function_id s) (sm.init s).1 r.sms },
          ErrorCode.success,
        )
    unfolding register_sm
    register_sm_new s r new good = rw (register_sm, new, good)

    -- register_sm does not look at the factories: where one stands for the new model's RAN
    -- function, and no model, and the model initializes, the registration succeeds, and the RAN
    -- function is listed twice.
    pub register_sm-lists_twice :
        (s : Model) (r : SmRegistry Model Factory)
        → has_sm (sm.ran_function_id s) r ≡ false
        → has_factory (sm.ran_function_id s) r ≡ true
        → is_success (sm.init s).0 ≡ true
        → let (r', code) = register_sm sm (some s) r in
          (code ≡ ErrorCode.success)
          × (2 ≤ count (sm.ran_function_id s) (get_available_ran_functions r'))
    register_sm-lists_twice s r new factory good =
        let id = sm.ran_function_id s in
        rw (register_sm_new s r new good) (
          refl,
          listed_twice id (record r { sms = insert_or_assign id (sm.init s).1 r.sms })
              (rw (find-insert_or_assign, eq_refl id)) factory,
        )
