-- ===== src/Subscription/Invariant.antt =====
-- The invariant of `SubscriptionManager`: the counters and identifiers are in range, the sets of
-- RAN functions are kept for exactly the registered dApps, and the two indices mirror one another.
pub mod Removal
use d_app_libe.Base.{
  ℕ, ◌≡◌, refl, true, false, [], inl, inr, Bool-cases, find, find-insert_or_assign, contains,
  add_id, contains-add_id, Option-is_some, arith,
}
use d_app_libe.Subscription.State.{SubscriptionManager, create, clear, functions_of, subscribers_of}
use d_app_libe.Subscription.Register.{enter_dapp, new_entry, register_dapp}
use d_app_libe.Subscription.Register.Total.{InRange, register_dapp-enters}
use d_app_libe.Subscription.Subscribe.{enter_subscription, existing, add_locked, add_subscription}
use d_app_libe.Subscription.Views.{
  functions_of-enter_dapp, functions_of-enter_subscription, subscribers_of-enter_subscription,
  functions_of-existing,
}

pub record IsConsistent (m : SubscriptionManager) : Type 0 where
  pub in_range : (d : ℕ) → Option-is_some (find d m.registered_dapps) ≡ true → InRange d
  pub next_dapp : InRange m.next_dapp_id
  pub next_subscription : InRange m.next_subscription_id
  pub same_keys :
      (d : ℕ)
      → Option-is_some (find d m.dapp_subscriptions) ≡ Option-is_some (find d m.registered_dapps)
  pub mirrored : (d r : ℕ) → contains r (functions_of m d) ≡ contains d (subscribers_of m r)

pub create-IsConsistent : IsConsistent create
unfolding create find
create-IsConsistent = record {
  in_range = λ d h. cc;
  next_dapp = omega arith;
  next_subscription = omega arith;
  same_keys = λ d. refl;
  mirrored = λ d r. refl;
}

pub clear-IsConsistent : (m : SubscriptionManager) → IsConsistent m → IsConsistent (clear m)
unfolding clear find
clear-IsConsistent m v = record {
  in_range = λ d h. cc;
  next_dapp = v.next_dapp;
  next_subscription = v.next_subscription;
  same_keys = λ d. refl;
  mirrored = λ d r. refl;
}

-- A dApp that is not registered has no functions.
functions_of-unregistered :
    (m : SubscriptionManager) (d : ℕ)
    → IsConsistent m
    → Option-is_some (find d m.registered_dapps) ≡ false
    → functions_of m d ≡ []
functions_of-unregistered m d v free = ground (arith, v.same_keys d)

pub enter_dapp-IsConsistent :
    (now id : ℕ) (m : SubscriptionManager)
    → InRange id
    → Option-is_some (find id m.registered_dapps) ≡ false
    → IsConsistent m
    → IsConsistent (enter_dapp now id m)
unfolding enter_dapp
enter_dapp-IsConsistent now id m r free v = record {
  in_range = λ d h.
      ground
        (arith, v.in_range d, find-insert_or_assign d id (new_entry now id) m.registered_dapps);
  next_dapp = ground arith;
  next_subscription = v.next_subscription;
  same_keys = λ d. ground (
    arith,
    v.same_keys d,
    find-insert_or_assign d id (new_entry now id) m.registered_dapps,
    find-insert_or_assign d id [] m.dapp_subscriptions,
  );
  mirrored = λ d q. ground (
    arith,
    v.mirrored d q,
    functions_of-enter_dapp now id m d,
    functions_of-unregistered m id v free,
  );
}

pub enter_subscription-IsConsistent :
    (d r : ℕ) (m : SubscriptionManager)
    → Option-is_some (find d m.registered_dapps) ≡ true
    → IsConsistent m
    → IsConsistent (enter_subscription d r m)
unfolding enter_subscription
enter_subscription-IsConsistent d r m known v = record {
  in_range = v.in_range;
  next_dapp = v.next_dapp;
  next_subscription = let n = v.next_subscription in ground arith;
  same_keys = λ e. ground (
    arith,
    v.same_keys e,
    find-insert_or_assign e d (add_id r (functions_of m d)) m.dapp_subscriptions,
  );
  mirrored = λ e q. ground (
    arith,
    v.mirrored e q,
    v.mirrored e r,
    v.mirrored d q,
    functions_of-enter_subscription d r m e,
    subscribers_of-enter_subscription d r m q,
    contains-add_id q r (functions_of m d),
    contains-add_id e d (subscribers_of m r),
  );
}

existing-IsConsistent :
    (d r : ℕ) (m : SubscriptionManager)
    → Option-is_some (find d m.registered_dapps) ≡ true
    → IsConsistent m
    → IsConsistent (existing d r m).0
unfolding existing
existing-IsConsistent d r m known v = record {
  in_range = v.in_range;
  next_dapp = v.next_dapp;
  next_subscription = v.next_subscription;
  same_keys = λ e. ground (arith, v.same_keys e, find-insert_or_assign e d [] m.dapp_subscriptions);
  mirrored = λ e q. ground (arith, v.mirrored e q, functions_of-existing d r m e);
}

pub register_dapp-IsConsistent :
    (now : ℕ) (m : SubscriptionManager) → IsConsistent m → IsConsistent (register_dapp now m).0
register_dapp-IsConsistent now m v = elim (register_dapp-enters now m v.next_dapp) [
  | inl e ↦ rw e v
  | inr (id, r, free, e) ↦ rw e (enter_dapp-IsConsistent now id m r free v)
]

pub add_subscription-IsConsistent :
    (d r : ℕ) (m : SubscriptionManager) → IsConsistent m → IsConsistent (add_subscription d r m).0
unfolding add_subscription add_locked
add_subscription-IsConsistent d r m v =
    elim (Bool-cases (Option-is_some (find d m.registered_dapps))) [
      | inl known ↦ elim (Bool-cases (contains r (functions_of m d))) [
        | inl old ↦ rw (known, old, add_locked) (existing-IsConsistent d r m known v)
        | inr new ↦ rw (known, new, add_locked) (enter_subscription-IsConsistent d r m known v)
      ]
      | inr unknown ↦ rw (unknown, add_locked) v
    ]
