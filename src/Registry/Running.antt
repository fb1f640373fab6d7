-- ===== src/Registry/Running.antt =====
-- Which service models run.
use d_app_libe.Base.{
  ℕ, Bool, true, false, if◌then◌else◌, ◌==◌, ◌≡◌, refl, sym, ◌∙◌, none, some, find, find-erase,
  erase, find-insert_or_assign, eq_refl, arith, Option-cases, Bool-cases, inl, inr,
}
use d_app_libe.Types.{ErrorCode}
use d_app_libe.Registry.Defs.{
  ServiceModel, RunningLaws, SmRegistry, put_sm, start_sm, stop_sm, is_sm_running, is_success,
  has_sm,
}

success_of : (e : ErrorCode) → is_success e ≡ true → e ≡ ErrorCode.success
unfolding is_success
success_of ErrorCode.success h = refl
success_of e h = ground arith

module _ {ℓ} {Model : Type ℓ} (sm : ServiceModel Model) (laws : RunningLaws sm) where
  start_outcome :
      ((s : Model) → is_success (sm.start s).0 ≡ false → sm.is_running (sm.start s).1 ≡ false)
      → (s : Model) → sm.is_running (sm.start s).1 ≡ is_success (sm.start s).0
  start_outcome idle_on_error s = elim (Bool-cases (is_success (sm.start s).0)) [
    | inl good ↦ laws.start_runs s (success_of (sm.start s).0 good) ∙ sym good
    | inr bad ↦ idle_on_error s bad ∙ sym bad
  ]

module _ {ℓ} {Model Factory : Type ℓ} (sm : ServiceModel Model) where
  is_sm_running_missing :
      (id : ℕ) (r : SmRegistry Model Factory) → find id r.sms ≡ none → is_sm_running sm id r ≡ false
  unfolding is_sm_running
  is_sm_running_missing id r missing = rw (is_sm_running, missing)

  pub is_sm_running_found :
      (id : ℕ) (s : Model) (r : SmRegistry Model Factory)
      → find id r.sms ≡ some s
      → is_sm_running sm id r ≡ sm.is_running s
  unfolding is_sm_running
  is_sm_running_found id s r found = rw (is_sm_running, found)

  -- Of the RAN functions only `id` needs a look, if nothing is changed.
  pub only_at :
      (k id : ℕ) (b : Bool) (r : SmRegistry Model Factory)
      → is_sm_running sm id r ≡ b
      → is_sm_running sm k r ≡ (if id == k then b else is_sm_running sm k r)
  only_at k id b r e = elim (Bool-cases (id == k)) [
    | inl same ↦ let here : k ≡ id = ground arith in rw (same, here) e
    | inr other ↦ rw other
  ]

  pub is_sm_running-put_sm :
      (k id : ℕ) (s : Model) (r : SmRegistry Model Factory)
      → is_sm_running sm k (put_sm id s r)
        ≡ (if id == k then sm.is_running s else is_sm_running sm k r)
  unfolding put_sm is_sm_running
  is_sm_running-put_sm k id s r = elim (Bool-cases (id == k)) [
    | inl same ↦ rw (is_sm_running, find-insert_or_assign, same)
    | inr other ↦ rw (is_sm_running, find-insert_or_assign, other)
  ]

  pub is_sm_running-erase :
      (k id : ℕ) (r : SmRegistry Model Factory)
      → is_sm_running sm k (record r { sms = erase id r.sms })
        ≡ (if id == k then false else is_sm_running sm k r)
  unfolding is_sm_running
  is_sm_running-erase k id r = elim (Bool-cases (id == k)) [
    | inl same ↦ rw (is_sm_running, find-erase, same)
    | inr other ↦ rw (is_sm_running, find-erase, other)
  ]

  stop_sm_missing :
      (id : ℕ) (r : SmRegistry Model Factory)
      → find id r.sms ≡ none
      → stop_sm sm id r ≡ (r, ErrorCode.sm_not_found)
  unfolding stop_sm
  stop_sm_missing id r missing = rw (stop_sm, missing)

  stop_sm_found :
      (id : ℕ) (s : Model) (r : SmRegistry Model Factory)
      → find id r.sms ≡ some s
      → stop_sm sm id r ≡ (
          if sm.is_running s
          then (put_sm id (sm.stop s) r, ErrorCode.success)
          else (r, ErrorCode.success))
  unfolding stop_sm
  stop_sm_found id s r found = rw (stop_sm, found)

  start_sm_missing :
      (id : ℕ) (r : SmRegistry Model Factory)
      → find id r.sms ≡ none
      → start_sm sm id r ≡ (r, ErrorCode.sm_not_found)
  unfolding start_sm
  start_sm_missing id r missing = rw (start_sm, missing)

  start_sm_found :
      (id : ℕ) (s : Model) (r : SmRegistry Model Factory)
      → find id r.sms ≡ some s
      → start_sm sm id r ≡ (
          if sm.is_running s
          then (r, ErrorCode.success)
          else (put_sm id (sm.start s).1 r, (sm.start s).0))
  unfolding start_sm
  start_sm_found id s r found = rw (start_sm, found)

  pub has_sm-put_sm :
      (k id : ℕ) (s s' : Model) (r : SmRegistry Model Factory)
      → find id r.sms ≡ some s
      → has_sm k (put_sm id s' r) ≡ has_sm k r
  unfolding put_sm
  has_sm-put_sm k id s s' r found = elim (Bool-cases (id == k)) [
    | inl same ↦
        let here : k ≡ id = ground arith in
        rw (put_sm, find-insert_or_assign, here, eq_refl id, found)
    | inr other ↦ rw (put_sm, find-insert_or_assign, other)
  ]

  -- Starting and stopping neither adds nor removes a model.
  pub has_sm-start_sm :
      (k id : ℕ) (r : SmRegistry Model Factory) → has_sm k (start_sm sm id r).0 ≡ has_sm k r
  has_sm-start_sm k id r = elim (Option-cases (find id r.sms)) [
    | inl missing ↦ rw (start_sm_missing id r missing)
    | inr (s, found) ↦ elim (Bool-cases (sm.is_running s)) [
      | inl running ↦ rw (start_sm_found id s r found, running)
      | inr idle ↦
          rw (start_sm_found id s r found, idle) (has_sm-put_sm k id s (sm.start s).1 r found)
    ]
  ]

  pub has_sm-stop_sm :
      (k id : ℕ) (r : SmRegistry Model Factory) → has_sm k (stop_sm sm id r).0 ≡ has_sm k r
  has_sm-stop_sm k id r = elim (Option-cases (find id r.sms)) [
    | inl missing ↦ rw (stop_sm_missing id r missing)
    | inr (s, found) ↦ elim (Bool-cases (sm.is_running s)) [
      | inl running ↦
          rw (stop_sm_found id s r found, running) (has_sm-put_sm k id s (sm.stop s) r found)
      | inr idle ↦ rw (stop_sm_found id s r found, idle)
    ]
  ]

  -- Where a model is registered that always starts, `start_sm` answers SUCCESS.
  pub start_sm_succeeds :
      (starts : (s : Model) → (sm.start s).0 ≡ ErrorCode.success) (id : ℕ)
      (r : SmRegistry Model Factory)
      → has_sm id r ≡ true
      → is_success (start_sm sm id r).1 ≡ true
  unfolding is_success
  start_sm_succeeds starts id r present = elim (Option-cases (find id r.sms)) [
    | inl missing ↦ let clash : false ≡ true = rw missing at present in absurd (ground arith)
    | inr (s, found) ↦ elim (Bool-cases (sm.is_running s)) [
      | inl running ↦ rw (start_sm_found id s r found, running)
      | inr idle ↦ rw (start_sm_found id s r found, idle, starts s)
    ]
  ]

  module _ (laws : RunningLaws sm) where
    pub is_sm_running-stop_sm :
        (k id : ℕ) (r : SmRegistry Model Factory)
        → is_sm_running sm k (stop_sm sm id r).0 ≡ (if id == k then false else is_sm_running sm k r)
    is_sm_running-stop_sm k id r = elim (Option-cases (find id r.sms)) [
      | inl missing ↦
          rw (stop_sm_missing id r missing)
            (only_at k id false r (is_sm_running_missing id r missing))
      | inr (s, found) ↦ elim (Bool-cases (sm.is_running s)) [
        | inl running ↦
            rw (stop_sm_found id s r found, running, is_sm_running-put_sm, laws.stop_stops s)
        | inr idle ↦
            rw (stop_sm_found id s r found, idle)
              (only_at k id false r (is_sm_running_found id s r found ∙ idle))
      ]
    ]

    -- start_sm answers SUCCESS exactly if the RAN function's model runs after it, provided that a
    -- model whose start succeeds runs and one whose start fails is left idle; the others are as
    -- they were.
    pub is_sm_running-start_sm :
        ((s : Model) → is_success (sm.start s).0 ≡ false → sm.is_running (sm.start s).1 ≡ false)
        → (k id : ℕ) (r : SmRegistry Model Factory)
        → is_sm_running sm k (start_sm sm id r).0
          ≡ (if id == k then is_success (start_sm sm id r).1 else is_sm_running sm k r)
    unfolding is_success
    is_sm_running-start_sm idle_on_error k id r = elim (Option-cases (find id r.sms)) [
      | inl missing ↦
          rw (start_sm_missing id r missing)
            (only_at k id false r (is_sm_running_missing id r missing))
      | inr (s, found) ↦ elim (Bool-cases (sm.is_running s)) [
        | inl running ↦
            rw (start_sm_found id s r found, running)
              (only_at k id true r (is_sm_running_found id s r found ∙ running))
        | inr idle ↦ rw (
          start_sm_found id s r found,
          idle,
          is_sm_running-put_sm,
          start_outcome sm laws idle_on_error s,
        )
      ]
    ]
