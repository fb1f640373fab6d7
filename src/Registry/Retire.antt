-- ===== src/Registry/Retire.antt =====
-- Service models that leave the registry.
use d_app_libe.Base.{
  ℕ, true, false, ◌≡◌, ◌⊎◌, refl, sym, ap, ◌∙◌, none, some, Option, List, [], ◌∷◌, ◌++◌, append_nil,
  append_assoc, eq_refl, find, erase, keys, contains, Map, Bool-cases, inl, inr, arith,
}
use d_app_libe.Types.{ErrorCode}
use d_app_libe.Registry.Defs.{
  ServiceModel, RunningLaws, SmRegistry, retire, retire_each, clear, unregister_sm,
}

-- A key stands in a map at most once.
abbrev pub IsKeyed {ℓ} : {V : Type ℓ} → Map V → Type 0
IsKeyed [] = Unit
IsKeyed ((k, v) ∷ m) = (contains k (keys m) ≡ false) × IsKeyed m

-- The models of a map, in the order of a range-for loop.
abbrev pub values {ℓ} : {V : Type ℓ} → Map V → List V
values [] = []
values ((k, v) ∷ m) = v ∷ values m

abbrev pub listed {ℓ} : {V : Type ℓ} → Option V → List V
listed none = []
listed (some v) = v ∷ []

erase_missing {ℓ} : {V : Type ℓ} (k : ℕ) (m : Map V) → contains k (keys m) ≡ false → erase k m ≡ m
unfolding erase keys
erase_missing k [] h = refl
erase_missing k ((j, w) ∷ m) h = ground (arith, erase_missing k m)

module _ {ℓ} {Model : Type ℓ} (sm : ServiceModel Model) where
  -- `d` is what destroying `s` left: `s` as it was, or as stop left it if it ran, and in either case
  -- it did not run when it was destroyed.
  abbrev pub Ended : Model → Model → Type ℓ
  Ended s d =
      (s' : Model) × ((s' ≡ s) ⊎ ((sm.is_running s ≡ true) × (s' ≡ sm.stop s)))
      × (d ≡ sm.destroy s')
      × (sm.is_running s' ≡ false)

  -- Of these models, in order, these are what destroying them left, and of no other.
  abbrev pub Retired : List Model → List Model → Type ℓ
  Retired [] ds = ds ≡ []
  Retired (s ∷ ss) ds =
      (d : Model) × (rest : List Model) × (ds ≡ d ∷ rest) × Ended s d × Retired ss rest

  retire-Ended : RunningLaws sm → (s : Model) → Ended s (retire sm s)
  unfolding retire
  retire-Ended laws s = elim (Bool-cases (sm.is_running s)) [
    | inl running ↦ (sm.stop s, inr (running, refl), rw (retire, running), laws.stop_stops s)
    | inr idle ↦ (s, inl refl, rw (retire, idle), idle)
  ]

  retire_each-Retired : RunningLaws sm → (m : Map Model) → Retired (values m) (retire_each sm m)
  unfolding retire_each
  retire_each-Retired laws [] = refl
  retire_each-Retired laws ((id, s) ∷ m) =
      (retire sm s, retire_each sm m, refl, retire-Ended laws s, retire_each-Retired laws m)

  module _ {Factory : Type ℓ} where
    -- unregister_sm of one RAN function after another; beside the registry, what was destroyed.
    unfoldable pub unregister_all :
        List ℕ → SmRegistry Model Factory → SmRegistry Model Factory × List Model
    unfolding unregister_sm
    unregister_all [] r = (r, [])
    unregister_all (id ∷ ids) r =
        let (r', code, gone) = unregister_sm sm id r in
        let (r'', more) = unregister_all ids r' in (r'', gone ++ more)

    unregister_all-step :
        (id : ℕ) (ids : List ℕ) (r r' : SmRegistry Model Factory) (code : ErrorCode)
        (gone : List Model)
        → unregister_sm sm id r ≡ (r', code, gone)
        → unregister_all (id ∷ ids) r
          ≡ ((unregister_all ids r').0, gone ++ (unregister_all ids r').1)
    unfolding unregister_all
    unregister_all-step id ids r r' code gone e =
        ap (λ t. ((unregister_all ids t.0).0, t.2 ++ (unregister_all ids t.0).1)) e

    unregister_all-append :
        (ids ids' : List ℕ) (r : SmRegistry Model Factory)
        → let (r', gone) = unregister_all ids r in
          unregister_all (ids ++ ids') r
          ≡ ((unregister_all ids' r').0, gone ++ (unregister_all ids' r').1)
    unfolding unregister_all
    unregister_all-append [] ids' r = refl
    unregister_all-append (id ∷ ids) ids' r =
        let (r', code, gone) = unregister_sm sm id r in
        let (r'', more) = unregister_all ids r' in
        ap (λ t. (t.0, gone ++ t.1)) (unregister_all-append ids ids' r')
        ∙ ap (λ t. ((unregister_all ids' r'').0, t))
            (sym (append_assoc gone more (unregister_all ids' r'').1))

    unregister_sm_first :
        (id : ℕ) (s : Model) (m : Map Model) (f : Map Factory)
        → contains id (keys m) ≡ false
        → unregister_sm sm id (record { sms = (id, s) ∷ m; factories = f })
          ≡ (record { sms = m; factories = f }, ErrorCode.success, retire sm s ∷ [])
    unfolding unregister_sm find erase
    unregister_sm_first id s m f new =
        rw (unregister_sm, eq_refl id, erase_missing id m new, eq_refl id)

    unregister_sm_factory :
        (id : ℕ) (g : Factory) (f : Map Factory)
        → contains id (keys f) ≡ false
        → unregister_sm sm id (record { sms = []; factories = (id, g) ∷ f })
          ≡ (record { sms = []; factories = f }, ErrorCode.success, [])
    unfolding unregister_sm find erase
    unregister_sm_factory id g f new =
        rw (unregister_sm, eq_refl id, erase_missing id f new, eq_refl id)

    unregister_all-models :
        (m : Map Model) (f : Map Factory)
        → IsKeyed m
        → unregister_all (keys m) (record { sms = m; factories = f })
          ≡ (record { sms = []; factories = f }, retire_each sm m)
    unfolding unregister_all keys retire_each
    unregister_all-models [] f h = refl
    unregister_all-models ((id, s) ∷ m) f (new, h) =
        unregister_all-step id (keys m) _ _ _ _ (unregister_sm_first id s m f new)
        ∙ ap (λ t. (t.0, retire sm s ∷ t.1)) (unregister_all-models m f h)

    unregister_all-factories :
        (f : Map Factory)
        → IsKeyed f
        → unregister_all (keys f) (record { sms = []; factories = f })
          ≡ (record { sms = []; factories = [] }, [])
    unfolding unregister_all keys
    unregister_all-factories [] h = refl
    unregister_all-factories ((id, g) ∷ f) (new, h) =
        unregister_all-step id (keys f) _ _ _ _ (unregister_sm_factory id g f new)
        ∙ unregister_all-factories f h

    -- If each RAN function stands once at most among the models, and once at most among the
    -- factories: clear destroys each model of the registry once and no other, in the order of the
    -- map, as it is or, if it runs, as stop leaves it, so never while it runs; and it ends with the
    -- registry, and with the destroyed models, with which unregister_sm ends when it is called for
    -- each key of the models and then of the factories. A model that is stopped does not run.
    pub clear-Retired :
        RunningLaws sm
        → (r : SmRegistry Model Factory) → IsKeyed r.sms
        → IsKeyed r.factories
        → Retired (values r.sms) (clear sm r).1
          × (unregister_all (keys r.sms ++ keys r.factories) r ≡ clear sm r)
    unfolding clear
    clear-Retired laws r h h' = (
      retire_each-Retired laws r.sms,
      unregister_all-append (keys r.sms) (keys r.factories) r
          ∙ ap
              (λ t. (
                (unregister_all (keys r.factories) t.0).0,
                t.1 ++ (unregister_all (keys r.factories) t.0).1,
              ))
              (unregister_all-models r.sms r.factories h)
          ∙ ap (λ t. (t.0, retire_each sm r.sms ++ t.1)) (unregister_all-factories r.factories h')
          ∙ ap (λ t. (record { sms = []; factories = [] }, t)) (append_nil (retire_each sm r.sms)),
    )
