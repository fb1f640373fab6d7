-- ===== src/Subscription/Subscribe.antt =====
-- `add_subscription`.
use d_app_libe.Base.{
  ℕ, ◌+◌, ◌%◌, ◌^◌, Bool, false, not, if◌then◌else◌, ltb, Option, none, some, List, [], Map, find,
  insert_or_assign, Option-is_some, contains, is_empty, add_id,
}
use d_app_libe.Types.{ErrorCode}
use d_app_libe.Subscription.State.{
  SubscriptionManager, LifecycleEvent, make_sub_key, functions_of, subscribers_of,
  check_sm_lifecycle,
}

-- `m[k]` enters the default value at a key that is missing.
unfoldable pub subscript {ℓ} : {V : Type ℓ} → ℕ → V → Map V → Map V
subscript k default m = elim (find k m) [ none ↦ insert_or_assign k default m | some v ↦ m ]

abbrev pub or_zero : Option ℕ → ℕ
or_zero none = 0
or_zero (some n) = n

-- What a locked section hands to the code after it: the result, and for which RAN function to
-- check the lifecycle, if for any.
pub record Outcome : Type 0 where
  pub code : ErrorCode
  pub subscription_id : ℕ
  pub check : Option ℕ

abbrev pub next_subscription : ℕ → ℕ
next_subscription id =
    let incremented = (id + 1) % 2 ^ 32 in if ltb 100 incremented then 1 else incremented

-- The branch in which the dApp is subscribed already.
unfoldable pub existing : ℕ → ℕ → SubscriptionManager → SubscriptionManager × Outcome
unfolding subscript
existing d r m = (
  record m {
    dapp_subscriptions = subscript d [] m.dapp_subscriptions;
    subscription_id_reverse = subscript (make_sub_key d r) 0 m.subscription_id_reverse;
  },
  record {
    code = ErrorCode.subscription_exists;
    subscription_id = or_zero (find (make_sub_key d r) m.subscription_id_reverse);
    check = none;
  },
)

-- The new subscription, in the two indices and in the two maps of subscription ids.
unfoldable pub enter_subscription : ℕ → ℕ → SubscriptionManager → SubscriptionManager
enter_subscription d r m =
    let subscription_id = m.next_subscription_id in
    record m {
      dapp_subscriptions = insert_or_assign d (add_id r (functions_of m d)) m.dapp_subscriptions;
      ran_function_subscribers =
          insert_or_assign r (add_id d (subscribers_of m r)) m.ran_function_subscribers;
      subscription_ids = insert_or_assign subscription_id (d, r) m.subscription_ids;
      subscription_id_reverse =
          insert_or_assign (make_sub_key d r) subscription_id m.subscription_id_reverse;
      next_subscription_id = next_subscription subscription_id;
    }

unfoldable pub add_locked : ℕ → ℕ → SubscriptionManager → SubscriptionManager × Outcome
add_locked d r m =
    if not (Option-is_some (find d m.registered_dapps))
    then (m, record { code = ErrorCode.dapp_not_registered; subscription_id = 0; check = none })
    else if contains r (functions_of m d)
    then existing d r m
    else (
      enter_subscription d r m,
      record {
        code = ErrorCode.success;
        subscription_id = m.next_subscription_id;
        check = if is_empty (subscribers_of m r) then some r else none;
      },
    )

-- The calls of `check_sm_lifecycle` after the lock is released, on what the manager holds then.
unfoldable pub after_unlock : Option ℕ → Bool → SubscriptionManager → List LifecycleEvent
after_unlock none had_subscribers m = []
after_unlock (some r) had_subscribers m = check_sm_lifecycle r had_subscribers m

unfoldable pub add_subscription :
    ℕ → ℕ → SubscriptionManager → SubscriptionManager × ErrorCode × ℕ × List LifecycleEvent
add_subscription d r m =
    let (m', out) = add_locked d r m in
    (m', out.code, out.subscription_id, after_unlock out.check false m')
