-- ===== src/Subscription/Commands.antt =====
-- Histories of calls of a subscription manager.
pub mod Tracking
use d_app_libe.Base.{ℕ, List, [], ◌∷◌, ◌++◌}
use d_app_libe.Subscription.State.{
  SubscriptionManager, LifecycleEvent, create, clear, set_sm_lifecycle_callback,
}
use d_app_libe.Subscription.Register.{register_dapp}
use d_app_libe.Subscription.Subscribe.{add_subscription}
use d_app_libe.Subscription.Unsubscribe.{
  remove_subscription, remove_subscription_by_id, unregister_dapp,
}
use d_app_libe.Subscription.Invariant.{
  IsConsistent, create-IsConsistent, clear-IsConsistent, register_dapp-IsConsistent,
  add_subscription-IsConsistent,
}
use d_app_libe.Subscription.Invariant.Removal.{
  remove_subscription-IsConsistent, remove_subscription_by_id-IsConsistent,
  unregister_dapp-IsConsistent,
}

-- The methods that change the manager, with their arguments; a registration has the clock's time.
pub data Command : Type 0 where
  registers unregisters : ℕ → Command
  subscribes unsubscribes deletes : ℕ → ℕ → Command
  sets_callback clears : Command

unfoldable pub step : Command → SubscriptionManager → SubscriptionManager × List LifecycleEvent
step (registers now) m = ((register_dapp now m).0, [])
step (unregisters d) m = let (m', code, events) = unregister_dapp d m in (m', events)
step (subscribes d r) m = let (m', code, id, events) = add_subscription d r m in (m', events)
step (unsubscribes d r) m = let (m', code, events) = remove_subscription d r m in (m', events)
step (deletes d id) m = let (m', code, events) = remove_subscription_by_id d id m in (m', events)
step sets_callback m = (set_sm_lifecycle_callback m, [])
step clears m = (clear m, [])

unfoldable pub run : List Command → SubscriptionManager → SubscriptionManager × List LifecycleEvent
run [] m = (m, [])
run (c ∷ cs) m = let (m', events) = step c m in let (n, later) = run cs m' in (n, events ++ later)

-- Every call keeps the invariant.
pub step-IsConsistent :
    (c : Command) (m : SubscriptionManager) → IsConsistent m → IsConsistent (step c m).0
unfolding step set_sm_lifecycle_callback
step-IsConsistent (registers now) m v = register_dapp-IsConsistent now m v
step-IsConsistent (unregisters d) m v = unregister_dapp-IsConsistent d m v
step-IsConsistent (subscribes d r) m v = add_subscription-IsConsistent d r m v
step-IsConsistent (unsubscribes d r) m v = remove_subscription-IsConsistent d r m v
step-IsConsistent (deletes d id) m v = remove_subscription_by_id-IsConsistent d id m v
step-IsConsistent sets_callback m v = record {
  in_range = v.in_range;
  next_dapp = v.next_dapp;
  next_subscription = v.next_subscription;
  same_keys = v.same_keys;
  mirrored = v.mirrored;
}
step-IsConsistent clears m v = clear-IsConsistent m v

run-IsConsistent :
    (cs : List Command) (m : SubscriptionManager) → IsConsistent m → IsConsistent (run cs m).0
unfolding run
run-IsConsistent [] m v = v
run-IsConsistent (c ∷ cs) m v = run-IsConsistent cs (step c m).0 (step-IsConsistent c m v)

-- After any history of calls from a new manager, the registered identifiers and both counters lie
-- in 1 to 100, exactly the registered dApps have a set of RAN functions, and a RAN function is in
-- the set of a dApp exactly when the dApp is in the set of the RAN function.
pub run-create-IsConsistent : (cs : List Command) → IsConsistent (run cs create).0
run-create-IsConsistent cs = run-IsConsistent cs create create-IsConsistent
