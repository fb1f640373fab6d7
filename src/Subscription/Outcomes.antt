-- ===== src/Subscription/Outcomes.antt =====
-- The locked sections of subscription_manager.cpp that remove, case by case.
use d_app_libe.Base.{
  ℕ, ◌≡◌, ◌⊎◌, true, false, ◌==◌, if◌then◌else◌, [], inl, inr, some, none, Bool-cases, Option-cases,
  find, erase, contains, Option-is_some, arith,
}
use d_app_libe.Types.{ErrorCode}
use d_app_libe.Subscription.State.{SubscriptionManager, functions_of, make_sub_key}
use d_app_libe.Subscription.Unsubscribe.{
  drop_subscriber, drop_function, drop_id, drop_each, is_last, remove_locked, remove_by_id_locked,
  unregister_locked,
}

module _ (d r : ℕ) (m : SubscriptionManager) where
  pub remove_locked_cases :
      ((contains r (functions_of m d) ≡ false)
        × (remove_locked d r m ≡ (m, ErrorCode.subscription_not_found, none)))
      ⊎ ((contains r (functions_of m d) ≡ true)
          × (remove_locked d r m ≡ (
            drop_id d r (drop_subscriber d r (drop_function d r m)),
            ErrorCode.success,
            if is_last d r m then some r else none,
          )))
  unfolding remove_locked drop_function
  remove_locked_cases = ground arith

module _ (d id : ℕ) (m : SubscriptionManager) where
  -- What `remove_subscription_by_id` leaves, for a subscription to the RAN function `r`.
  abbrev pub without_id : ℕ → SubscriptionManager
  without_id r =
      let m' = drop_subscriber d r (drop_function d r m) in
      record m' {
        subscription_id_reverse = erase (make_sub_key d r) m'.subscription_id_reverse;
        subscription_ids = erase id m'.subscription_ids;
      }

  pub remove_by_id_locked_cases :
      (remove_by_id_locked d id m ≡ (m, ErrorCode.subscription_not_found, none))
      ⊎ ((r : ℕ) × (find id m.subscription_ids ≡ some (d, r))
          × (remove_by_id_locked d id m
              ≡ (without_id r, ErrorCode.success, if is_last d r m then some r else none)))
  unfolding remove_by_id_locked
  remove_by_id_locked_cases = elim (Option-cases (find id m.subscription_ids)) [
    | inl e ↦ inl (ground arith)
    | inr ((owner, r), e) ↦ elim (Bool-cases (owner == d)) [
      | inl own ↦ inr (r, ground arith, ground arith)
      | inr other ↦ inl (ground arith)
    ]
  ]

-- What `unregister_dapp` leaves of a registered dApp.
abbrev pub without_dapp : ℕ → SubscriptionManager → SubscriptionManager
without_dapp d m =
    let m' = (drop_each d (functions_of m d) m).0 in
    record m' {
      dapp_subscriptions = erase d m'.dapp_subscriptions;
      registered_dapps = erase d m'.registered_dapps;
    }

pub unregister_locked_cases :
    (d : ℕ) (m : SubscriptionManager)
    → (Option-is_some (find d m.dapp_subscriptions) ≡ Option-is_some (find d m.registered_dapps))
    → ((Option-is_some (find d m.registered_dapps) ≡ false)
        × (unregister_locked d m ≡ (m, ErrorCode.dapp_not_registered, [])))
      ⊎ ((Option-is_some (find d m.registered_dapps) ≡ true)
          × (unregister_locked d m
              ≡ (without_dapp d m, ErrorCode.success, (drop_each d (functions_of m d) m).1)))
unfolding unregister_locked
unregister_locked_cases d m same = ground arith
