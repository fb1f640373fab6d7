-- ===== src/Registry/Tests.antt =====
-- The registry with models that are switches, and its theorems there.
use d_app_libe.Base.{
  keys, ℕ, Bool, true, false, if◌then◌else◌, ◌||◌, ◌≡◌, refl, Option, some, [], ◌∷◌, find, contains,
  arith,
}
use d_app_libe.Types.{ErrorCode}
use d_app_libe.Registry.Defs.{
  ServiceModel, RunningLaws, SmRegistry, is_success, get_available_ran_functions,
  get_by_ran_function, has_sm, has_factory, clear,
}
use d_app_libe.Registry.Retire.{clear-Retired, Retired, values, unregister_all}
use d_app_libe.Registry.Fetch.{get_by_ran_function-keeps}
use d_app_libe.Registry.Available.{IsSorted, get_available_ran_functions-Exact}

-- A model that starts only if it is sound.
record Switch : Type 0 where
  id : ℕ
  sound : Bool
  on : Bool

abbrev switches : ServiceModel Switch
switches = record {
  ran_function_id = λ s. s.id;
  telemetry_ids = λ s. s.id ∷ [];
  control_ids = λ s. [];
  ran_function_data = λ s. [];
  init = λ s. (ErrorCode.success, s);
  destroy = λ s. record s { sound = false };
  start = λ s.
      (if s.sound then ErrorCode.success else ErrorCode.sm_start_failed, record s { on = s.sound });
  stop = λ s. record s { on = false };
  is_running = λ s. s.on;
}

abbrev make : ℕ → Option Switch × ℕ
make n = (some (record { id = n; sound = true; on = false }), n)

sound_if_success :
    (s : Switch) (b : Bool)
    → (if b then ErrorCode.success else ErrorCode.sm_start_failed) ≡ ErrorCode.success
    → b ≡ true
sound_if_success s true h = refl
sound_if_success s false h = ground (arith, h)

switches-RunningLaws : RunningLaws switches
switches-RunningLaws = record {
  start_runs = λ s h. sound_if_success s s.sound h;
  stop_stops = λ s. refl;
}

idle_if_error :
    (b : Bool)
    → is_success (if b then ErrorCode.success else ErrorCode.sm_start_failed) ≡ false
    → b ≡ false
unfolding is_success
idle_if_error true h = ground (arith, h)
idle_if_error false h = refl

-- A switch for RAN function 3, one for 1 that runs, and a factory for 5.
abbrev registry : SmRegistry Switch ℕ
registry = record {
  sms =
      (3, record { id = 3; sound = true; on = false })
      ∷ (1, record { id = 1; sound = true; on = true })
      ∷ [];
  factories = (5, 5) ∷ [];
}

clear-Retired_example :
    Retired switches (values registry.sms) (clear switches registry).1
    × (unregister_all switches (3 ∷ 1 ∷ 5 ∷ []) registry ≡ clear switches registry)
unfolding keys
clear-Retired_example =
    clear-Retired switches switches-RunningLaws registry (refl, (refl, tt)) (refl, tt)

get_available_ran_functions-Exact_example :
    IsSorted (get_available_ran_functions registry)
    × ((k : ℕ)
        → contains k (get_available_ran_functions registry)
          ≡ (has_sm k registry || has_factory k registry))
get_available_ran_functions-Exact_example = get_available_ran_functions-Exact registry

get_by_ran_function-keeps_example :
    let (r', found) = get_by_ran_function switches make 5 registry in
    get_by_ran_function switches make 5 r'
    ≡ (r', some (record { id = 5; sound = true; on = false }))
unfolding get_by_ran_function find is_success
get_by_ran_function-keeps_example =
    get_by_ran_function-keeps switches make 5 (record { id = 5; sound = true; on = false }) registry
      refl
