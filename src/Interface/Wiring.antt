-- ===== src/Interface/Wiring.antt =====
-- Service models run while someone is subscribed.
use d_app_libe.Base.{
  ℕ, true, if◌then◌else◌, ◌==◌, ◌≡◌, ◌≢◌, refl, ap, ◌∙◌, List, [], ◌∷◌, inl, inr, arith, Bool-cases,
}
use d_app_libe.Types.{ErrorCode}
use d_app_libe.Subscription.State.{SubscriptionManager, LifecycleEvent, has_subscribers}
use d_app_libe.Subscription.Commands.{Command, clears, step, step-IsConsistent}
use d_app_libe.Subscription.Commands.Tracking.{step-Tracks, step-has_callback}
use d_app_libe.Subscription.Lifecycle.{running_after}
use d_app_libe.Subscription.Invariant.{IsConsistent}
use d_app_libe.Registry.Defs.{
  ServiceModel, RunningLaws, SmRegistry, is_success, is_sm_running, has_sm,
}
use d_app_libe.Registry.Running.{
  is_sm_running-start_sm, is_sm_running-stop_sm, start_sm_succeeds, has_sm-start_sm, has_sm-stop_sm,
}
use d_app_libe.Interface.Defs.{on_sm_lifecycle_change, on_each}

success_is : (e : ErrorCode) → e ≡ ErrorCode.success → is_success e ≡ true
unfolding is_success
success_is e h = rw h

module _ {ℓ} {Model Factory : Type ℓ} (sm : ServiceModel Model) (laws : RunningLaws sm)
    (starts : (s : Model) → (sm.start s).0 ≡ ErrorCode.success) where
  -- One call of the callback, and all calls, for a RAN function with a model.
  on_sm_lifecycle_change-runs :
      (q : ℕ) (e : LifecycleEvent) (r : SmRegistry Model Factory)
      → has_sm q r ≡ true
      → is_sm_running sm q (on_sm_lifecycle_change sm e r)
        ≡ (if e.ran_function_id == q then e.should_start else is_sm_running sm q r)
  unfolding on_sm_lifecycle_change
  on_sm_lifecycle_change-runs q e r present = elim (Bool-cases e.should_start) [
    | inl start ↦
        rw
          (
            on_sm_lifecycle_change,
            start,
            is_sm_running-start_sm sm laws
                (λ s bad. let good = success_is (sm.start s).0 (starts s) in absurd (ground arith))
                q e.ran_function_id r,
          )
          (elim (Bool-cases (e.ran_function_id == q)) [
            | inl same ↦
                let here : q ≡ e.ran_function_id = ground arith in
                rw (same, start_sm_succeeds sm starts e.ran_function_id r (rw here at present))
            | inr other ↦ rw other
          ])
    | inr stop ↦ rw (on_sm_lifecycle_change, stop, is_sm_running-stop_sm sm laws)
  ]

  has_sm-on_sm_lifecycle_change :
      (q : ℕ) (e : LifecycleEvent) (r : SmRegistry Model Factory)
      → has_sm q (on_sm_lifecycle_change sm e r) ≡ has_sm q r
  unfolding on_sm_lifecycle_change
  has_sm-on_sm_lifecycle_change q e r = elim (Bool-cases e.should_start) [
    | inl start ↦ rw (on_sm_lifecycle_change, start) (has_sm-start_sm sm q e.ran_function_id r)
    | inr stop ↦ rw (on_sm_lifecycle_change, stop) (has_sm-stop_sm sm q e.ran_function_id r)
  ]

  on_each-runs :
      (q : ℕ) (es : List LifecycleEvent) (r : SmRegistry Model Factory)
      → has_sm q r ≡ true
      → (is_sm_running sm q (on_each sm es r) ≡ running_after es (is_sm_running sm q r) q)
        × (has_sm q (on_each sm es r) ≡ true)
  unfolding on_each
  on_each-runs q [] r present = (refl, present)
  on_each-runs q (e ∷ es) r present =
      let r' = on_sm_lifecycle_change sm e r in
      let rest = on_each-runs q es r' (has_sm-on_sm_lifecycle_change q e r ∙ present) in
      (rest.0 ∙ ap (λ b. running_after es b q) (on_sm_lifecycle_change-runs q e r present), rest.1)

  -- The RAN function `q` has a model, and it runs exactly while the RAN function has subscribers.
  pub record Wired (q : ℕ) (m : SubscriptionManager) (r : SmRegistry Model Factory) : Type ℓ where
    pub consistent : IsConsistent m
    pub has_callback : m.has_callback ≡ true
    pub present : has_sm q r ≡ true
    pub tracks : is_sm_running sm q r ≡ has_subscribers q m

  -- A call of the manager, with the models started and stopped as it says.
  pub step-Wired :
      (q : ℕ) (c : Command) (m : SubscriptionManager) (r : SmRegistry Model Factory)
      → c ≢ clears
      → Wired q m r
      → Wired q (step c m).0 (on_each sm (step c m).1 r)
  step-Wired q c m r kept w =
      let models = on_each-runs q (step c m).1 r w.present in
      record {
        consistent = step-IsConsistent c m w.consistent;
        has_callback = step-has_callback c m w.consistent w.has_callback;
        present = models.1;
        tracks =
            models.0
            ∙ ap (λ b. running_after (step c m).1 b q) w.tracks
            ∙ (step-Tracks c m q kept w.consistent w.has_callback).follows;
      }
