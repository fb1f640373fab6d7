-- ===== src/Registry/Defs.antt =====
-- The interface of a service model, and the registry's operations.
use d_app_libe.Base.{
  ℕ, Bool, true, false, if◌then◌else◌, leb, Option, none, some, List, [], ◌∷◌, ◌++◌, ◌||◌, ◌≡◌, Map,
  find, insert_or_assign, erase, keys, Option-is_some,
}
use d_app_libe.Types.{ErrorCode}

-- The virtual methods that the library calls; `Model` is the state of a model of any class.
pub record ServiceModel {ℓ} (Model : Type ℓ) : Type ℓ where
  pub ran_function_id : Model → ℕ
  pub telemetry_ids : Model → List ℕ
  pub control_ids : Model → List ℕ
  pub ran_function_data : Model → List ℕ
  pub init : Model → ErrorCode × Model
  pub destroy : Model → Model
  pub start : Model → ErrorCode × Model
  pub stop : Model → Model
  pub is_running : Model → Bool

-- What the comments on `start`, `stop` and `is_running` say of them.
pub record RunningLaws {ℓ} {Model : Type ℓ} (sm : ServiceModel Model) : Type ℓ where
  pub start_runs :
      (s : Model) → (sm.start s).0 ≡ ErrorCode.success → sm.is_running (sm.start s).1 ≡ true
  pub stop_stops : (s : Model) → sm.is_running (sm.stop s) ≡ false

-- `==` of an error code with SUCCESS.
unfoldable pub is_success : ErrorCode → Bool
is_success ErrorCode.success = true
is_success e = false

-- `create` of a factory is a call of it; the factory may change by the call, and give no model.
pub record SmRegistry {ℓ} (Model Factory : Type ℓ) : Type ℓ where
  pub sms : Map Model
  pub factories : Map Factory

-- std::sort, of which only the sorted result is seen.
unfoldable pub insert_sorted : ℕ → List ℕ → List ℕ
insert_sorted a [] = a ∷ []
insert_sorted a (x ∷ xs) = let rest = insert_sorted a xs in if leb a x then a ∷ x ∷ xs else x ∷ rest

unfoldable pub sort : List ℕ → List ℕ
unfolding insert_sorted
sort [] = []
sort (x ∷ xs) = insert_sorted x (sort xs)

module _ {ℓ} {Model : Type ℓ} (sm : ServiceModel Model) where
  -- A model is stopped before it is destroyed.
  unfoldable pub retire : Model → Model
  retire s = sm.destroy (if sm.is_running s then sm.stop s else s)

  unfoldable pub retire_each : Map Model → List Model
  unfolding retire
  retire_each [] = []
  retire_each ((id, s) ∷ m) = retire s ∷ retire_each m

module _ {ℓ} {Model Factory : Type ℓ} where
  abbrev pub has_sm : ℕ → SmRegistry Model Factory → Bool
  has_sm id r = Option-is_some (find id r.sms)

  abbrev pub has_factory : ℕ → SmRegistry Model Factory → Bool
  has_factory id r = Option-is_some (find id r.factories)

  -- A factory that is null is `none`.
  unfoldable pub register_sm_factory :
      ℕ → Option Factory → SmRegistry Model Factory → SmRegistry Model Factory × ErrorCode
  register_sm_factory id none r = (r, ErrorCode.invalid_param)
  register_sm_factory id (some f) r =
      if has_sm id r || has_factory id r
      then (r, ErrorCode.sm_already_registered)
      else (record r { factories = insert_or_assign id f r.factories }, ErrorCode.success)

  unfoldable pub get_available_ran_functions : SmRegistry Model Factory → List ℕ
  unfolding sort
  get_available_ran_functions r = sort (keys r.sms ++ keys r.factories)

  -- A call through the pointer to the model of a RAN function leaves this model.
  unfoldable pub put_sm : ℕ → Model → SmRegistry Model Factory → SmRegistry Model Factory
  put_sm id s r = record r { sms = insert_or_assign id s r.sms }

  module _ (sm : ServiceModel Model) where
    unfoldable pub register_sm :
        Option Model → SmRegistry Model Factory → SmRegistry Model Factory × ErrorCode
    register_sm none r = (r, ErrorCode.invalid_param)
    register_sm (some s) r =
        let id = sm.ran_function_id s in
        if has_sm id r
        then (r, ErrorCode.sm_already_registered)
        else let (code, s') = sm.init s in
          if is_success code
          then (record r { sms = insert_or_assign id s' r.sms }, ErrorCode.success)
          else (r, code)

    -- Beside the registry and the code, the models that were destroyed.
    unfoldable pub unregister_sm :
        ℕ → SmRegistry Model Factory → SmRegistry Model Factory × ErrorCode × List Model
    unfolding retire
    unregister_sm id r = elim (find id r.sms) [
      | some s ↦ (record r { sms = erase id r.sms }, ErrorCode.success, retire sm s ∷ [])
      | none ↦ elim (find id r.factories) [
        | some f ↦ (record r { factories = erase id r.factories }, ErrorCode.success, [])
        | none ↦ (r, ErrorCode.sm_not_found, [])
      ]
    ]

    unfoldable pub get_by_ran_function :
        (Factory → Option Model × Factory)
        → ℕ
        → SmRegistry Model Factory
        → SmRegistry Model Factory × Option Model
    get_by_ran_function create id r = elim (find id r.sms) [
      | some s ↦ (r, some s)
      | none ↦ elim (find id r.factories) [
        | none ↦ (r, none)
        | some f ↦
            let (made, f') = create f in
            let kept = record r { factories = insert_or_assign id f' r.factories } in
            elim made [
              | none ↦ (kept, none)
              | some s ↦
                  let (code, s') = sm.init s in
                  if is_success code
                  then (
                    record { sms = insert_or_assign id s' r.sms; factories = erase id r.factories },
                    some s',
                  )
                  else (kept, none)
            ]
      ]
    ]

    unfoldable pub start_sm : ℕ → SmRegistry Model Factory → SmRegistry Model Factory × ErrorCode
    unfolding put_sm
    start_sm id r = elim (find id r.sms) [
      | none ↦ (r, ErrorCode.sm_not_found)
      | some s ↦
          if sm.is_running s
          then (r, ErrorCode.success)
          else let (code, s') = sm.start s in (put_sm id s' r, code)
    ]

    unfoldable pub stop_sm : ℕ → SmRegistry Model Factory → SmRegistry Model Factory × ErrorCode
    unfolding put_sm
    stop_sm id r = elim (find id r.sms) [
      | none ↦ (r, ErrorCode.sm_not_found)
      | some s ↦
          if sm.is_running s
          then (put_sm id (sm.stop s) r, ErrorCode.success)
          else (r, ErrorCode.success)
    ]

    unfoldable pub is_sm_running : ℕ → SmRegistry Model Factory → Bool
    is_sm_running id r = elim (find id r.sms) [ none ↦ false | some s ↦ sm.is_running s ]

    unfoldable pub clear : SmRegistry Model Factory → SmRegistry Model Factory × List Model
    unfolding retire_each
    clear r = (record { sms = []; factories = [] }, retire_each sm r.sms)
