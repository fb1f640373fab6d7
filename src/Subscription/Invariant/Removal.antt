-- ===== src/Subscription/Invariant/Removal.antt =====
-- The methods that remove keep the invariant of the subscription manager.
use d_app_libe.Base.{
  ℕ, ◌≡◌, refl, inl, inr, find-insert_or_assign, find-erase, remove_id, contains-remove_id, arith,
}
use d_app_libe.Subscription.State.{SubscriptionManager, functions_of, subscribers_of}
use d_app_libe.Subscription.Unsubscribe.{
  drop_subscriber, drop_function, remove_subscription, remove_subscription_by_id, unregister_dapp,
}
use d_app_libe.Subscription.Outcomes.{
  remove_locked_cases, remove_by_id_locked_cases, unregister_locked_cases, without_id, without_dapp,
}
use d_app_libe.Subscription.Views.{
  subscribers_of-drop_subscriber, functions_of-drop_function, drop_id_keeps,
  contains-subscribers_of-drop_each, drop_each_keeps,
}
use d_app_libe.Subscription.Invariant.{IsConsistent}

-- The invariant does not read the id maps.
IsConsistent-cong :
    (m n : SubscriptionManager)
    → (n.registered_dapps ≡ m.registered_dapps)
      × (n.dapp_subscriptions ≡ m.dapp_subscriptions)
      × (n.ran_function_subscribers ≡ m.ran_function_subscribers)
      × (n.has_callback ≡ m.has_callback)
      × (n.next_dapp_id ≡ m.next_dapp_id)
      × (n.next_subscription_id ≡ m.next_subscription_id)
    → IsConsistent m
    → IsConsistent n
IsConsistent-cong m n (a, b, c, _, e, f) v = record {
  in_range = λ d h. v.in_range d (ground arith);
  next_dapp = let r = v.next_dapp in ground arith;
  next_subscription = let r = v.next_subscription in ground arith;
  same_keys = λ d. ground (arith, v.same_keys d);
  mirrored = λ d r. ground (arith, v.mirrored d r);
}

-- The pair leaves both indices.
unlink-IsConsistent :
    (d r : ℕ) (m : SubscriptionManager)
    → IsConsistent m
    → IsConsistent (drop_subscriber d r (drop_function d r m))
unfolding drop_subscriber drop_function
unlink-IsConsistent d r m v = record {
  in_range = λ e h. v.in_range e (ground arith);
  next_dapp = let n = v.next_dapp in ground arith;
  next_subscription = let n = v.next_subscription in ground arith;
  same_keys = λ e. ground (
    arith,
    v.same_keys e,
    find-insert_or_assign e d (remove_id r (functions_of m d)) m.dapp_subscriptions,
  );
  mirrored = λ e q. ground (
    arith,
    v.mirrored e q,
    v.mirrored d r,
    functions_of-drop_function d r m e,
    subscribers_of-drop_subscriber d r (drop_function d r m) q,
    contains-remove_id q r (functions_of m d),
    contains-remove_id e d (subscribers_of m r),
  );
}

pub remove_subscription-IsConsistent :
    (d r : ℕ) (m : SubscriptionManager)
    → IsConsistent m
    → IsConsistent (remove_subscription d r m).0
unfolding remove_subscription
remove_subscription-IsConsistent d r m v = elim (remove_locked_cases d r m) [
  | inl (_, e) ↦ rw e v
  | inr (_, e) ↦ rw e (
      IsConsistent-cong _ _ (drop_id_keeps d r (drop_subscriber d r (drop_function d r m)))
        (unlink-IsConsistent d r m v))
]

pub remove_subscription_by_id-IsConsistent :
    (d id : ℕ) (m : SubscriptionManager)
    → IsConsistent m
    → IsConsistent (remove_subscription_by_id d id m).0
unfolding remove_subscription_by_id
remove_subscription_by_id-IsConsistent d id m v = elim (remove_by_id_locked_cases d id m) [
  | inl e ↦ rw e v
  | inr (r, _, e) ↦ rw e (
      IsConsistent-cong (drop_subscriber d r (drop_function d r m)) (without_id d id m r)
        (refl, refl, refl, refl, refl, refl) (unlink-IsConsistent d r m v))
]

without_dapp-IsConsistent :
    (d : ℕ) (m : SubscriptionManager) → IsConsistent m → IsConsistent (without_dapp d m)
without_dapp-IsConsistent d m v =
    let keeps = drop_each_keeps d (functions_of m d) m in
    record {
      in_range = λ e h. ground (arith, v.in_range e, find-erase e d m.registered_dapps);
      next_dapp = let n = v.next_dapp in ground arith;
      next_subscription = let n = v.next_subscription in ground arith;
      same_keys = λ e. ground (
        arith,
        v.same_keys e,
        find-erase e d m.registered_dapps,
        find-erase e d m.dapp_subscriptions,
      );
      mirrored = λ e q. ground (
        arith,
        v.mirrored e q,
        find-erase e d m.dapp_subscriptions,
        contains-subscribers_of-drop_each d e q (functions_of m d) m,
      );
    }

pub unregister_dapp-IsConsistent :
    (d : ℕ) (m : SubscriptionManager) → IsConsistent m → IsConsistent (unregister_dapp d m).0
unfolding unregister_dapp
unregister_dapp-IsConsistent d m v = elim (unregister_locked_cases d m (v.same_keys d)) [
  | inl (_, e) ↦ rw e v
  | inr (_, e) ↦ rw e (without_dapp-IsConsistent d m v)
]
