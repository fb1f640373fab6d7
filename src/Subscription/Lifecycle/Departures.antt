-- ===== src/Subscription/Lifecycle/Departures.antt =====
-- The lifecycle calls of `remove_subscription`, `remove_subscription_by_id` and `unregister_dapp`.
use d_app_libe.Base.{
  ℕ, true, false, if◌then◌else◌, ◌≡◌, refl, inl, inr, some, none, List, [], ◌∷◌, Bool-cases, arith,
}
use d_app_libe.Subscription.State.{
  SubscriptionManager, functions_of, has_subscribers, check_sm_lifecycle,
}
use d_app_libe.Subscription.Subscribe.{after_unlock}
use d_app_libe.Subscription.Unsubscribe.{
  drop_subscriber, drop_function, drop_id, drop_each, is_last, check_each, remove_subscription,
  remove_subscription_by_id, unregister_dapp,
}
use d_app_libe.Subscription.Outcomes.{
  remove_locked_cases, remove_by_id_locked_cases, unregister_locked_cases, without_id, without_dapp,
}
use d_app_libe.Subscription.Views.{drop_id_keeps, drop_each_keeps}
use d_app_libe.Subscription.Invariant.{IsConsistent}
use d_app_libe.Subscription.Lifecycle.{
  Tracks, unchanged_Tracks, drop_subscriber-Tracks, has_subscribers-drop_subscriber, last_had,
}

-- What leads from the subscriptions of `m` also leads from those of a manager with the same ones.
from_same_Tracks :
    (k m n : SubscriptionManager) (q : ℕ)
    → k.ran_function_subscribers ≡ m.ran_function_subscribers
    → (es : List _) → Tracks k n es q
    → Tracks m n es q
unfolding has_subscribers
from_same_Tracks k m n q e es t = record { follows = ground arith; needed = ground arith }

subscribers-drop_function :
    (d r : ℕ) (m : SubscriptionManager)
    → (drop_function d r m).ran_function_subscribers ≡ m.ran_function_subscribers
unfolding drop_function
subscribers-drop_function d r m = ground arith

pub same_has :
    (m n : SubscriptionManager) (q : ℕ)
    → n.ran_function_subscribers ≡ m.ran_function_subscribers
    → has_subscribers q n ≡ has_subscribers q m
unfolding has_subscribers
same_has m n q e = ground arith

is_last-drop_function :
    (d r : ℕ) (m : SubscriptionManager) → is_last d r (drop_function d r m) ≡ is_last d r m
unfolding is_last drop_function
is_last-drop_function d r m = ground arith

pub callback-unlinked :
    (d r : ℕ) (m : SubscriptionManager)
    → (drop_subscriber d r (drop_function d r m)).has_callback ≡ m.has_callback
unfolding drop_subscriber drop_function
callback-unlinked d r m = ground arith

on_unlinked :
    (d r : ℕ) (m n : SubscriptionManager)
    → n.has_callback ≡ (drop_subscriber d r (drop_function d r m)).has_callback
    → m.has_callback ≡ true
    → n.has_callback ≡ true
on_unlinked d r m n e on = ground (arith, callback-unlinked d r m)

unlinked_Tracks :
    (d r : ℕ) (m n : SubscriptionManager) (q : ℕ)
    → n.has_callback ≡ true
    → n.ran_function_subscribers
      ≡ (drop_subscriber d r (drop_function d r m)).ran_function_subscribers
    → Tracks m n (after_unlock (if is_last d r m then some r else none) true n) q
unlinked_Tracks d r m n q on e =
    from_same_Tracks (drop_function d r m) m n q (subscribers-drop_function d r m) _ (
      rw (is_last-drop_function d r m) at
        (drop_subscriber-Tracks d r (drop_function d r m) n q on e))

pub remove_subscription-Tracks :
    (d r : ℕ) (m : SubscriptionManager) (q : ℕ)
    → m.has_callback ≡ true
    → let (n, code, es) = remove_subscription d r m in Tracks m n es q
unfolding remove_subscription after_unlock
remove_subscription-Tracks d r m q on = elim (remove_locked_cases d r m) [
  | inl (_, e) ↦ rw e (unchanged_Tracks m m q refl)
  | inr (_, e) ↦
      let unlinked = drop_subscriber d r (drop_function d r m) in
      let n = drop_id d r unlinked in
      let keeps = drop_id_keeps d r unlinked in
      rw e (unlinked_Tracks d r m n q (on_unlinked d r m n keeps.3 on) keeps.2)
]

pub remove_subscription_by_id-Tracks :
    (d id : ℕ) (m : SubscriptionManager) (q : ℕ)
    → m.has_callback ≡ true
    → let (n, code, es) = remove_subscription_by_id d id m in Tracks m n es q
unfolding remove_subscription_by_id after_unlock
remove_subscription_by_id-Tracks d id m q on = elim (remove_by_id_locked_cases d id m) [
  | inl e ↦ rw e (unchanged_Tracks m m q refl)
  | inr (r, _, e) ↦
      let n = without_id d id m r in
      rw e (unlinked_Tracks d r m n q (on_unlinked d r m n refl on) refl)
]

-- Who has nobody keeps having nobody.
drop_each_lost :
    (d : ℕ) (rs : List ℕ) (m : SubscriptionManager) (q : ℕ)
    → has_subscribers q m ≡ false
    → has_subscribers q (drop_each d rs m).0 ≡ false
unfolding drop_each
drop_each_lost d [] m q h = h
drop_each_lost d (r ∷ rs) m q h = drop_each_lost d rs _ q (
    ground (
      arith,
      has_subscribers-drop_subscriber d r m (drop_id d r (drop_subscriber d r m)) q,
      drop_id_keeps d r (drop_subscriber d r m),
    ))

lost_for_good :
    (d r : ℕ) (rs : List ℕ) (m n : SubscriptionManager)
    → is_last d r m ≡ true
    → n.ran_function_subscribers ≡ (drop_each d (r ∷ rs) m).0.ran_function_subscribers
    → has_subscribers r n ≡ false
unfolding drop_each
lost_for_good d r rs m n last e =
    let m' = drop_id d r (drop_subscriber d r m) in
    let now =
      has_subscribers-drop_subscriber d r m m' r (drop_id_keeps d r (drop_subscriber d r m)).2 in
    ground (arith, drop_each_lost d rs m' r (ground arith), same_has (drop_each d rs m').0 n r e)

check_stops :
    (r : ℕ) (n : SubscriptionManager)
    → n.has_callback ≡ true
    → has_subscribers r n ≡ false
    → check_sm_lifecycle r true n ≡ record { ran_function_id = r; should_start = false } ∷ []
unfolding check_sm_lifecycle
check_stops r n on lost = ground arith

-- The affected RAN functions are those that lose their last subscriber, each once.
drop_each-Tracks :
    (d : ℕ) (rs : List ℕ) (m n : SubscriptionManager) (q : ℕ)
    → n.has_callback ≡ true
    → n.ran_function_subscribers ≡ (drop_each d rs m).0.ran_function_subscribers
    → Tracks m n (check_each (drop_each d rs m).1 n) q
unfolding drop_each check_each
drop_each-Tracks d [] m n q on e = unchanged_Tracks m n q (same_has m n q e)
drop_each-Tracks d (r ∷ rs) m n q on e =
    let m' = drop_id d r (drop_subscriber d r m) in
    let rest : Tracks m' n (check_each (drop_each d rs m').1 n) q =
      drop_each-Tracks d rs m' n q on e in
    let now =
      has_subscribers-drop_subscriber d r m m' q (drop_id_keeps d r (drop_subscriber d r m)).2 in
    elim (Bool-cases (is_last d r m)) [
      | inl last ↦
          let lost : has_subscribers r n ≡ false = lost_for_good d r rs m n last e in
          rw (last, check_stops r n on lost)
            (record {
              follows = ground (arith, rest.follows);
              needed = ground (arith, rest.needed, last_had d r m last);
            })
      | inr stays ↦
          rw stays (record {
            follows = ground (arith, rest.follows);
            needed = ground (arith, rest.needed);
          })
    ]

pub unregister_dapp-Tracks :
    (d : ℕ) (m : SubscriptionManager) (q : ℕ)
    → IsConsistent m
    → m.has_callback ≡ true
    → let (n, code, es) = unregister_dapp d m in Tracks m n es q
unfolding unregister_dapp check_each
unregister_dapp-Tracks d m q v on = elim (unregister_locked_cases d m (v.same_keys d)) [
  | inl (_, e) ↦ rw e (unchanged_Tracks m m q refl)
  | inr (_, e) ↦ rw e (
      drop_each-Tracks d (functions_of m d) m (without_dapp d m) q
        (ground (arith, drop_each_keeps d (functions_of m d) m)) refl)
]
