-- ===== src/Subscription/Ids.antt =====
-- The subscription ids: what a client may rely on when it deletes a subscription by the id that it
-- was given.
pub mod Key
use d_app_libe.Base.{
  ℕ, ◌≡◌, ◌≢◌, refl, ◌∙◌, sym, true, false, ◌==◌, ◌&&◌, ◌||◌, not, if◌then◌else◌, inl, inr, some,
  none, find, find-insert_or_assign, contains, add_id, remove_id, contains-add_id,
  contains-remove_id, Option-is_some, Bool-cases, arith,
}
use d_app_libe.Types.{ErrorCode}
use d_app_libe.Subscription.State.{
  SubscriptionManager, functions_of, is_subscribed, is_dapp_registered, clear, make_sub_key,
}
use d_app_libe.Subscription.Subscribe.{add_subscription, add_locked, enter_subscription, existing}
use d_app_libe.Subscription.Unsubscribe.{
  remove_subscription_by_id, remove_by_id_locked, drop_subscriber, drop_function,
}
use d_app_libe.Subscription.Views.{functions_of-enter_subscription, functions_of-drop_function}
use d_app_libe.Subscription.Outcomes.{remove_by_id_locked_cases, without_id}

pub is_subscribed_lem :
    (d r : ℕ) (m : SubscriptionManager) → is_subscribed d r m ≡ contains r (functions_of m d)
unfolding is_subscribed
is_subscribed_lem d r m = ground arith

-- A registered dApp that is not yet subscribed is entered under the next id.
pub add_subscription-new :
    (d r : ℕ) (m : SubscriptionManager)
    → is_dapp_registered d m ≡ true
    → is_subscribed d r m ≡ false
    → let (n, code, id, es) = add_subscription d r m in
      (n ≡ enter_subscription d r m) × (code ≡ ErrorCode.success) × (id ≡ m.next_subscription_id)
unfolding add_subscription add_locked is_dapp_registered
add_subscription-new d r m known new = ground (arith, is_subscribed_lem d r m)

find-entered :
    (d r : ℕ) (m : SubscriptionManager)
    → find m.next_subscription_id (enter_subscription d r m).subscription_ids ≡ some (d, r)
unfolding enter_subscription
find-entered d r m = ground (
  arith,
  find-insert_or_assign m.next_subscription_id m.next_subscription_id (d, r) m.subscription_ids,
)

remove_by_id_held :
    (d r id : ℕ) (m : SubscriptionManager)
    → find id m.subscription_ids ≡ some (d, r)
    → ((remove_subscription_by_id d id m).0 ≡ without_id d id m r)
      × ((remove_subscription_by_id d id m).1 ≡ ErrorCode.success)
unfolding remove_subscription_by_id remove_by_id_locked
remove_by_id_held d r id m held = ground arith

is_subscribed-without_id :
    (d r id : ℕ) (m : SubscriptionManager) (e q : ℕ)
    → is_subscribed e q (without_id d id m r) ≡ (not (d == e && r == q) && is_subscribed e q m)
unfolding drop_subscriber
is_subscribed-without_id d r id m e q = ground (
  arith,
  is_subscribed_lem e q m,
  is_subscribed_lem e q (without_id d id m r),
  functions_of-drop_function d r m e,
  contains-remove_id q r (functions_of m d),
)

pub is_subscribed-enter_subscription :
    (d r : ℕ) (m : SubscriptionManager) (e q : ℕ)
    → is_subscribed e q (enter_subscription d r m) ≡ ((d == e && r == q) || is_subscribed e q m)
is_subscribed-enter_subscription d r m e q = ground (
  arith,
  is_subscribed_lem e q m,
  is_subscribed_lem e q (enter_subscription d r m),
  functions_of-enter_subscription d r m e,
  contains-add_id q r (functions_of m d),
)

-- For a registered dApp that is not yet subscribed: the new subscription can be deleted by the id
-- that add_subscription returned, whatever ids were given before; the deletion succeeds, and every
-- dApp is subscribed to what it was before.
pub add_subscription-remove_by_id :
    (d r : ℕ) (m : SubscriptionManager)
    → is_dapp_registered d m ≡ true
    → is_subscribed d r m ≡ false
    → let (added, code, id, es) = add_subscription d r m in
      let (n, deleted, fs) = remove_subscription_by_id d id added in
      (code ≡ ErrorCode.success)
      × (deleted ≡ ErrorCode.success)
      × ((e q : ℕ) → is_subscribed e q n ≡ is_subscribed e q m)
add_subscription-remove_by_id d r m known new =
    let id = m.next_subscription_id in
    let entered = enter_subscription d r m in
    let (added, fine, given) = add_subscription-new d r m known new in
    let (left, deleted) = remove_by_id_held d r id entered (find-entered d r m) in
    (
      fine,
      ground arith,
      λ e q. ground (
        arith,
        is_subscribed-without_id d r id entered e q,
        is_subscribed-enter_subscription d r m e q,
      ),
    )

-- If the next id is that of a live subscription of another dApp, add_subscription gives it again:
-- the older subscription then stays, and its owner can no longer delete it by its id.
pub add_subscription-reuses_id :
    (d r owner q : ℕ) (m : SubscriptionManager)
    → is_dapp_registered d m ≡ true
    → is_subscribed d r m ≡ false
    → is_subscribed owner q m ≡ true
    → find m.next_subscription_id m.subscription_ids ≡ some (owner, q)
    → owner ≢ d
    → let (n, code, id, es) = add_subscription d r m in
      (code ≡ ErrorCode.success)
      × (id ≡ m.next_subscription_id)
      × (is_subscribed owner q n ≡ true)
      × ((remove_subscription_by_id owner id n).1 ≡ ErrorCode.subscription_not_found)
unfolding remove_subscription_by_id remove_by_id_locked
add_subscription-reuses_id d r owner q m known new live held ne = ground (
  arith,
  add_subscription-new d r m known new,
  find-entered d r m,
  is_subscribed-enter_subscription d r m owner q,
)

-- After clear an old id still counts: deleting by it succeeds though its owner is not subscribed.
pub clear-remove_by_id :
    (d r id : ℕ) (m : SubscriptionManager)
    → find id m.subscription_ids ≡ some (d, r)
    → (is_subscribed d r (clear m) ≡ false)
      × ((remove_subscription_by_id d id (clear m)).1 ≡ ErrorCode.success)
unfolding remove_subscription_by_id remove_by_id_locked clear is_subscribed find
clear-remove_by_id d r id m held = ground arith
