-- ===== src/Subscription/Unsubscribe.antt =====
-- `remove_subscription`, `remove_subscription_by_id` and `unregister_dapp`.
use d_app_libe.Base.{
  ℕ, Bool, true, not, ◌&&◌, if◌then◌else◌, ◌==◌, Option, none, some, List, [], ◌∷◌, ◌++◌, find,
  insert_or_assign, erase, Option-is_some, contains, is_empty, remove_id,
}
use d_app_libe.Types.{ErrorCode}
use d_app_libe.Subscription.State.{
  SubscriptionManager, LifecycleEvent, make_sub_key, subscribers_of, check_sm_lifecycle,
}
use d_app_libe.Subscription.Subscribe.{after_unlock}

-- The dApp leaves the reverse index of the RAN function.
unfoldable pub drop_subscriber : ℕ → ℕ → SubscriptionManager → SubscriptionManager
drop_subscriber d r m = record m {
  ran_function_subscribers =
      insert_or_assign r (remove_id d (subscribers_of m r)) m.ran_function_subscribers;
}

-- `had_subscribers && !still_has_subscribers`
unfoldable pub is_last : ℕ → ℕ → SubscriptionManager → Bool
is_last d r m = not (is_empty (subscribers_of m r)) && is_empty (remove_id d (subscribers_of m r))

-- The pair's subscription id goes, with what `subscription_ids_` holds under it.
unfoldable pub drop_id : ℕ → ℕ → SubscriptionManager → SubscriptionManager
drop_id d r m = elim (find (make_sub_key d r) m.subscription_id_reverse) [
  | none ↦ m
  | some id ↦ record m {
    subscription_ids = erase id m.subscription_ids;
    subscription_id_reverse = erase (make_sub_key d r) m.subscription_id_reverse;
  }
]

unfoldable pub remove_locked :
    ℕ → ℕ → SubscriptionManager → SubscriptionManager × ErrorCode × Option ℕ
remove_locked d r m = elim (find d m.dapp_subscriptions) [
  | none ↦ (m, ErrorCode.subscription_not_found, none)
  | some functions ↦
      if not (contains r functions) then (m, ErrorCode.subscription_not_found, none) else (
        drop_id d r (
            drop_subscriber d r (record m {
              dapp_subscriptions = insert_or_assign d (remove_id r functions) m.dapp_subscriptions;
            })),
        ErrorCode.success,
        if is_last d r m then some r else none,
      )
]

unfoldable pub remove_subscription :
    ℕ → ℕ → SubscriptionManager → SubscriptionManager × ErrorCode × List LifecycleEvent
remove_subscription d r m =
    let (m', code, check) = remove_locked d r m in (m', code, after_unlock check true m')

-- `dapp_it->second.erase(ran_function_id)`, if there is a set for the dApp.
unfoldable pub drop_function : ℕ → ℕ → SubscriptionManager → SubscriptionManager
drop_function d r m = elim (find d m.dapp_subscriptions) [
  | none ↦ m
  | some functions ↦ record m {
    dapp_subscriptions = insert_or_assign d (remove_id r functions) m.dapp_subscriptions;
  }
]

unfoldable pub remove_by_id_locked :
    ℕ → ℕ → SubscriptionManager → SubscriptionManager × ErrorCode × Option ℕ
remove_by_id_locked d id m = elim (find id m.subscription_ids) [
  | none ↦ (m, ErrorCode.subscription_not_found, none)
  | some (owner, r) ↦ if not (owner == d) then (m, ErrorCode.subscription_not_found, none) else (
    let m' = drop_subscriber d r (drop_function d r m) in
        record m' {
          subscription_id_reverse = erase (make_sub_key d r) m'.subscription_id_reverse;
          subscription_ids = erase id m'.subscription_ids;
        },
    ErrorCode.success,
    if is_last d r m then some r else none,
  )
]

unfoldable pub remove_subscription_by_id :
    ℕ → ℕ → SubscriptionManager → SubscriptionManager × ErrorCode × List LifecycleEvent
remove_subscription_by_id d id m =
    let (m', code, check) = remove_by_id_locked d id m in (m', code, after_unlock check true m')

-- The loop of `unregister_dapp` over the dApp's RAN functions, with `affected_ran_functions`.
unfoldable pub drop_each : ℕ → List ℕ → SubscriptionManager → SubscriptionManager × List ℕ
drop_each d [] m = (m, [])
drop_each d (r ∷ rs) m =
    let (m', affected) = drop_each d rs (drop_id d r (drop_subscriber d r m)) in
    (m', if is_last d r m then r ∷ affected else affected)

unfoldable pub unregister_locked :
    ℕ → SubscriptionManager → SubscriptionManager × ErrorCode × List ℕ
unregister_locked d m =
    if not (Option-is_some (find d m.registered_dapps))
    then (m, ErrorCode.dapp_not_registered, [])
    else elim (find d m.dapp_subscriptions) [
      | none ↦ (record m { registered_dapps = erase d m.registered_dapps }, ErrorCode.success, [])
      | some functions ↦
          let (m', affected) = drop_each d functions m in
          (
            record m' {
              dapp_subscriptions = erase d m'.dapp_subscriptions;
              registered_dapps = erase d m'.registered_dapps;
            },
            ErrorCode.success,
            affected,
          )
    ]

-- The loop that checks the lifecycle of the affected RAN functions.
unfoldable pub check_each : List ℕ → SubscriptionManager → List LifecycleEvent
check_each [] m = []
check_each (r ∷ rs) m = check_sm_lifecycle r true m ++ check_each rs m

unfoldable pub unregister_dapp :
    ℕ → SubscriptionManager → SubscriptionManager × ErrorCode × List LifecycleEvent
unregister_dapp d m =
    let (m', code, affected) = unregister_locked d m in (m', code, check_each affected m')
