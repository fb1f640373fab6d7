-- ===== src/Interface/Setup.antt =====
-- A dApp that joins.
use d_app_libe.Base.{
  ℕ, Bool, true, false, if◌then◌else◌, ◌≡◌, refl, List, [], ◌∷◌, inl, inr, Bool-cases, Option,
}
use d_app_libe.Types.{Pdu, DAppControlAction, ErrorCode}
use Prim.Native.String.{String}
use d_app_libe.Subscription.State.{SubscriptionManager}
use d_app_libe.Subscription.Register.{register_dapp}
use d_app_libe.Subscription.Commands.{registers, step}
use d_app_libe.Response.Defs.{ResponseQueue}
use d_app_libe.Registry.Defs.{
  ServiceModel, RunningLaws, SmRegistry, get_by_ran_function, get_available_ran_functions,
  is_success,
}
use d_app_libe.Interface.Defs.{Session, Draw, notify_dapp_status_changed, on_each}
use d_app_libe.Interface.Dispatch.{handle_setup_request, ran_functions_of}
use d_app_libe.Interface.Wiring.{Wired, step-Wired}
use d_app_libe.Interface.Handlers.{InStep}
use d_app_libe.Interface.Received.{get-InStep}

notified-manager {ℓ} :
    {Model Factory : Type ℓ} (b : Bool) (s : Session Model Factory)
    → (if b then notify_dapp_status_changed s else s).subscription_manager ≡ s.subscription_manager
unfolding notify_dapp_status_changed
notified-manager true s = elim (Bool-cases s.has_status_handler) [
  | inl set ↦ rw (notify_dapp_status_changed, set)
  | inr unset ↦ rw (notify_dapp_status_changed, unset)
]
notified-manager false s = refl

module _ {ℓ} {Model Factory : Type ℓ} (sm : ServiceModel Model) (laws : RunningLaws sm)
    (starts : (s : Model) → (sm.start s).0 ≡ ErrorCode.success) (q : ℕ)
    (create : Factory → Option Model × Factory)
    (control : ℕ → DAppControlAction → Model → ResponseQueue → ErrorCode × Model × ResponseQueue)
    (control_keeps : (n : ℕ) (a : DAppControlAction) (model : Model) (queue : ResponseQueue)
      → sm.is_running (control n a model queue).1 ≡ sm.is_running model) where
  ran_functions_of-InStep :
      (ids : List ℕ) (m : SubscriptionManager) (r : SmRegistry Model Factory)
      → Wired sm laws starts q m r
      → Wired sm laws starts q m (ran_functions_of sm create control ids r).0
  unfolding ran_functions_of
  ran_functions_of-InStep [] m r w = w
  ran_functions_of-InStep (id ∷ ids) m r w =
      ran_functions_of-InStep ids m (get_by_ran_function sm create id r).0
        (get-InStep sm laws starts q create control control_keeps id m r w)

  -- A setup request too keeps the models in step with the subscriptions, though it makes the models
  -- of the factories. The models always start, stop when told to, and neither start nor stop by a
  -- control action.
  pub handle_setup_request-InStep :
      (e3ap_version ran_identifier : String) (encode : Pdu → Option (List ℕ)) (id : ℕ) (draw : Draw)
      (s : Session Model Factory)
      → InStep sm laws starts q s
      → InStep sm laws starts q
          (handle_setup_request sm create control e3ap_version ran_identifier encode id draw s).0
  unfolding handle_setup_request step on_each
  handle_setup_request-InStep e3ap_version ran_identifier encode id draw s w =
      let m = s.subscription_manager in
      let (m', code, dapp_id) = register_dapp draw.clock m in
      let joined = step-Wired sm laws starts q (registers draw.clock) m s.registry (λ e. cc) w in
      rw (notified-manager (is_success code) (record s { subscription_manager = m' }))
        (ran_functions_of-InStep (get_available_ran_functions s.registry) m' s.registry joined)
