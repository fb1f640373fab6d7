-- ===== src/Registry/Fetch.antt =====
-- Models made by factories on their first use.
use d_app_libe.Base.{
  ℕ, ◌==◌, ◌||◌, ◌≡◌, sym, ◌∙◌, Option, none, some, find, find-insert_or_assign, find-erase,
  insert_or_assign, contains, arith, Option-cases, Bool-cases, inl, inr, Option-is_some, eq_refl,
  erase, ap, ◌⊎◌,
}
use d_app_libe.Registry.Defs.{
  ServiceModel, SmRegistry, get_available_ran_functions, get_by_ran_function, is_success, has_sm,
  has_factory,
}
use d_app_libe.Registry.Available.{get_available_ran_functions-Exact}

module _ {ℓ} {V : Type ℓ} where
  some_injective : {a b : V} → some a ≡ some b → a ≡ b
  some_injective {a = a} e = ap (λ o. elim o [ none ↦ a | some c ↦ c ]) e

module _ {ℓ} {Model Factory : Type ℓ} where
  -- What is available depends on the two maps' keys alone.
  available_of :
      (r r' : SmRegistry Model Factory)
      → ((k : ℕ) → (has_sm k r' || has_factory k r') ≡ (has_sm k r || has_factory k r))
      → (k : ℕ)
      → contains k (get_available_ran_functions r') ≡ contains k (get_available_ran_functions r)
  available_of r r' same k =
      (get_available_ran_functions-Exact r').1 k
      ∙ same k
      ∙ sym ((get_available_ran_functions-Exact r).1 k)

  -- A factory that was called and kept, and one whose model takes its place.
  same_kept :
      (id : ℕ) (f f' : Factory) (r : SmRegistry Model Factory)
      → find id r.factories ≡ some f
      → (k : ℕ)
      → (has_sm k r || has_factory k (record r { factories = insert_or_assign id f' r.factories }))
        ≡ (has_sm k r || has_factory k r)
  same_kept id f f' r there k = elim (Bool-cases (id == k)) [
    | inl same ↦
        let here : k ≡ id = ground arith in rw (find-insert_or_assign, here, eq_refl id, there)
    | inr other ↦ rw (find-insert_or_assign, other)
  ]

  same_built :
      (id : ℕ) (f : Factory) (s : Model) (r : SmRegistry Model Factory)
      → find id r.factories ≡ some f
      → (k : ℕ)
      → (Option-is_some (find k (insert_or_assign id s r.sms))
          || Option-is_some (find k (erase id r.factories)))
        ≡ (has_sm k r || has_factory k r)
  same_built id f s r there k = elim (Bool-cases (id == k)) [
    | inl same ↦
        let here : k ≡ id = ground arith in
        rw (find-insert_or_assign, find-erase, here, eq_refl id, there) (ground arith)
    | inr other ↦ rw (find-insert_or_assign, find-erase, other)
  ]

  module _ (sm : ServiceModel Model) where
    module _ (create : Factory → Option Model × Factory) where
      get_found :
          (id : ℕ) (s : Model) (r : SmRegistry Model Factory)
          → find id r.sms ≡ some s
          → get_by_ran_function sm create id r ≡ (r, some s)
      unfolding get_by_ran_function
      get_found id s r found = rw (get_by_ran_function, found)

      get_absent :
          (id : ℕ) (r : SmRegistry Model Factory)
          → find id r.sms ≡ none
          → find id r.factories ≡ none
          → get_by_ran_function sm create id r ≡ (r, none)
      unfolding get_by_ran_function
      get_absent id r missing none_there = rw (get_by_ran_function, missing, none_there)

      -- With a factory, the call either builds a model or gives none and keeps the factory.
      get_made :
          (id : ℕ) (f : Factory) (r : SmRegistry Model Factory)
          → find id r.sms ≡ none
          → find id r.factories ≡ some f
          → (get_by_ran_function sm create id r
              ≡ (record r { factories = insert_or_assign id (create f).1 r.factories }, none))
            ⊎ ((s : Model) × (get_by_ran_function sm create id r ≡ (
              record { sms = insert_or_assign id s r.sms; factories = erase id r.factories },
              some s,
            )))
      unfolding get_by_ran_function
      get_made id f r missing there = elim (Option-cases (create f).0) [
        | inl failed ↦ inl (rw (get_by_ran_function, missing, there, failed))
        | inr (s, made) ↦ elim (Bool-cases (is_success (sm.init s).0)) [
          | inl good ↦ inr ((sm.init s).1, rw (get_by_ran_function, missing, there, made, good))
          | inr bad ↦ inl (rw (get_by_ran_function, missing, there, made, bad))
        ]
      ]

      -- A model that get_by_ran_function gives is kept: the next call gives the same one and
      -- changes nothing.
      pub get_by_ran_function-keeps :
          (id : ℕ) (s : Model) (r : SmRegistry Model Factory)
          → (get_by_ran_function sm create id r).1 ≡ some s
          → let (r', found) = get_by_ran_function sm create id r in
            get_by_ran_function sm create id r' ≡ (r', some s)
      get_by_ran_function-keeps id s r given = elim (Option-cases (find id r.sms)) [
        | inr (s', found) ↦
            let call = get_found id s' r found in
            let same : s' ≡ s = some_injective (rw call at given) in
            rw call (call ∙ ap (λ x. (r, some x)) same)
        | inl missing ↦ elim (Option-cases (find id r.factories)) [
          | inl absent ↦
              let call = get_absent id r missing absent in
              let clash : none ≡ some s = rw call at given in absurd (ground arith)
          | inr (f, there) ↦ elim (get_made id f r missing there) [
            | inl kept ↦ let clash : none ≡ some s = rw kept at given in absurd (ground arith)
            | inr (s', built) ↦
                let same : s' ≡ s = some_injective (rw built at given) in
                let r' : SmRegistry Model Factory = record {
                  sms = insert_or_assign id s' r.sms;
                  factories = erase id r.factories;
                } in
                rw built (
                  get_found id s' r' (rw (find-insert_or_assign, eq_refl id))
                  ∙ ap (λ x. (r', some x)) same)
          ]
        ]
      ]

      -- No call of get_by_ran_function changes which RAN functions are available.
      pub get_by_ran_function-available :
          (id : ℕ) (r : SmRegistry Model Factory) (k : ℕ)
          → contains k (get_available_ran_functions (get_by_ran_function sm create id r).0)
            ≡ contains k (get_available_ran_functions r)
      get_by_ran_function-available id r k = elim (Option-cases (find id r.sms)) [
        | inr (s, found) ↦ rw (get_found id s r found)
        | inl missing ↦ elim (Option-cases (find id r.factories)) [
          | inl absent ↦ rw (get_absent id r missing absent)
          | inr (f, there) ↦ elim (get_made id f r missing there) [
            | inl kept ↦ rw kept (available_of r _ (same_kept id f (create f).1 r there) k)
            | inr (s, built) ↦ rw built (available_of r _ (same_built id f s r there) k)
          ]
        ]
      ]

      -- A model that is registered stays through any call of get_by_ran_function.
      pub find-get_by_ran_function :
          (k id : ℕ) (s : Model) (r : SmRegistry Model Factory)
          → find k r.sms ≡ some s
          → find k (get_by_ran_function sm create id r).0.sms ≡ some s
      find-get_by_ran_function k id s r there = elim (Option-cases (find id r.sms)) [
        | inr (s', found) ↦ rw (get_found id s' r found) there
        | inl missing ↦ elim (Option-cases (find id r.factories)) [
          | inl absent ↦ rw (get_absent id r missing absent) there
          | inr (f, made) ↦ elim (get_made id f r missing made) [
            | inl kept ↦ rw kept there
            | inr (s', built) ↦ elim (Bool-cases (id == k)) [
              | inl same ↦
                  let here : id ≡ k = ground arith in
                  let clash : none ≡ some s = rw (sym here, missing) at there in
                  absurd (ground arith)
              | inr other ↦ rw (built, find-insert_or_assign, other) there
            ]
          ]
        ]
      ]

      -- What get_by_ran_function gives is registered.
      pub get_by_ran_function-found :
          (id : ℕ) (s : Model) (r : SmRegistry Model Factory)
          → (get_by_ran_function sm create id r).1 ≡ some s
          → find id (get_by_ran_function sm create id r).0.sms ≡ some s
      get_by_ran_function-found id s r given = elim (Option-cases (find id r.sms)) [
        | inr (s', found) ↦
            rw (get_found id s' r found) (found ∙ (rw (get_found id s' r found) at given))
        | inl missing ↦ elim (Option-cases (find id r.factories)) [
          | inl absent ↦
              let clash : none ≡ some s = rw (get_absent id r missing absent) at given in
              absurd (ground arith)
          | inr (f, there) ↦ elim (get_made id f r missing there) [
            | inl kept ↦ let clash : none ≡ some s = rw kept at given in absurd (ground arith)
            | inr (s', built) ↦ rw (built, find-insert_or_assign, eq_refl id) (rw built at given)
          ]
        ]
      ]
