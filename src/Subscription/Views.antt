-- ===== src/Subscription/Views.antt =====
-- What the steps of subscription_manager.cpp do to the two indices, one law for each step and
-- index: `functions_of` is the set of a dApp, `subscribers_of` the set of a RAN function.
use d_app_libe.Base.{
  ℕ, ◌≡◌, refl, not, ◌&&◌, ◌==◌, if◌then◌else◌, [], ◌∷◌, List, find-insert_or_assign, contains,
  add_id, remove_id, contains-remove_id, arith,
}
use d_app_libe.Subscription.State.{SubscriptionManager, functions_of, subscribers_of}
use d_app_libe.Subscription.Register.{enter_dapp}
use d_app_libe.Subscription.Subscribe.{enter_subscription, existing}
use d_app_libe.Subscription.Unsubscribe.{drop_subscriber, drop_function, drop_id, drop_each}

module _ (now id : ℕ) (m : SubscriptionManager) where
  pub functions_of-enter_dapp :
      (d : ℕ) → functions_of (enter_dapp now id m) d ≡ (if id == d then [] else functions_of m d)
  unfolding enter_dapp
  functions_of-enter_dapp d = ground (arith, find-insert_or_assign d id [] m.dapp_subscriptions)

  pub subscribers_of-enter_dapp :
      (r : ℕ) → subscribers_of (enter_dapp now id m) r ≡ subscribers_of m r
  unfolding enter_dapp
  subscribers_of-enter_dapp r = refl

module _ (d r : ℕ) (m : SubscriptionManager) where
  pub functions_of-enter_subscription :
      (e : ℕ)
      → functions_of (enter_subscription d r m) e
        ≡ (if d == e then add_id r (functions_of m d) else functions_of m e)
  unfolding enter_subscription
  functions_of-enter_subscription e =
      ground (arith, find-insert_or_assign e d (add_id r (functions_of m d)) m.dapp_subscriptions)

  pub subscribers_of-enter_subscription :
      (q : ℕ)
      → subscribers_of (enter_subscription d r m) q
        ≡ (if r == q then add_id d (subscribers_of m r) else subscribers_of m q)
  unfolding enter_subscription
  subscribers_of-enter_subscription q =
      ground (
        arith,
        find-insert_or_assign q r (add_id d (subscribers_of m r)) m.ran_function_subscribers,
      )

  pub functions_of-existing : (e : ℕ) → functions_of (existing d r m).0 e ≡ functions_of m e
  unfolding existing
  functions_of-existing e = ground (arith, find-insert_or_assign e d [] m.dapp_subscriptions)

  pub subscribers_of-existing : (q : ℕ) → subscribers_of (existing d r m).0 q ≡ subscribers_of m q
  unfolding existing
  subscribers_of-existing q = refl

  pub subscribers_of-drop_subscriber :
      (q : ℕ)
      → subscribers_of (drop_subscriber d r m) q
        ≡ (if r == q then remove_id d (subscribers_of m r) else subscribers_of m q)
  unfolding drop_subscriber
  subscribers_of-drop_subscriber q = ground (
    arith,
    find-insert_or_assign q r (remove_id d (subscribers_of m r)) m.ran_function_subscribers,
  )

  pub functions_of-drop_function :
      (e : ℕ)
      → functions_of (drop_function d r m) e
        ≡ (if d == e then remove_id r (functions_of m d) else functions_of m e)
  unfolding drop_function remove_id
  functions_of-drop_function e =
      ground
        (arith, find-insert_or_assign e d (remove_id r (functions_of m d)) m.dapp_subscriptions)

  -- `drop_id` leaves all but the id maps alone.
  pub drop_id_keeps :
      ((drop_id d r m).registered_dapps ≡ m.registered_dapps)
      × ((drop_id d r m).dapp_subscriptions ≡ m.dapp_subscriptions)
      × ((drop_id d r m).ran_function_subscribers ≡ m.ran_function_subscribers)
      × ((drop_id d r m).has_callback ≡ m.has_callback)
      × ((drop_id d r m).next_dapp_id ≡ m.next_dapp_id)
      × ((drop_id d r m).next_subscription_id ≡ m.next_subscription_id)
  unfolding drop_id
  drop_id_keeps = ground arith

-- The loop of `unregister_dapp` takes the dApp out of the sets of the listed RAN functions.
pub contains-subscribers_of-drop_each :
    (d e q : ℕ) (rs : List ℕ) (m : SubscriptionManager)
    → contains e (subscribers_of (drop_each d rs m).0 q)
      ≡ (not (d == e && contains q rs) && contains e (subscribers_of m q))
unfolding drop_each
contains-subscribers_of-drop_each d e q [] m = ground arith
contains-subscribers_of-drop_each d e q (r ∷ rs) m = ground (
  arith,
  contains-subscribers_of-drop_each d e q rs (drop_id d r (drop_subscriber d r m)),
  drop_id_keeps d r (drop_subscriber d r m),
  subscribers_of-drop_subscriber d r m q,
  contains-remove_id e d (subscribers_of m r),
)

-- It leaves the rest alone but for the id maps.
pub drop_each_keeps :
    (d : ℕ) (rs : List ℕ) (m : SubscriptionManager)
    → let m' = (drop_each d rs m).0 in
      (m'.registered_dapps ≡ m.registered_dapps)
      × (m'.dapp_subscriptions ≡ m.dapp_subscriptions)
      × (m'.has_callback ≡ m.has_callback)
      × (m'.next_dapp_id ≡ m.next_dapp_id)
      × (m'.next_subscription_id ≡ m.next_subscription_id)
unfolding drop_each drop_subscriber
drop_each_keeps d [] m = ground arith
drop_each_keeps d (r ∷ rs) m = ground (
  arith,
  drop_each_keeps d rs (drop_id d r (drop_subscriber d r m)),
  drop_id_keeps d r (drop_subscriber d r m),
)
