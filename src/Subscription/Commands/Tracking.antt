-- ===== src/Subscription/Commands/Tracking.antt =====
-- The lifecycle calls over a whole history.
use d_app_libe.Base.{ℕ, Bool, true, ◌&&◌, ◌≡◌, ◌≢◌, refl, ◌∙◌, inl, inr, List, [], ◌∷◌, ◌++◌, arith}
use d_app_libe.Subscription.State.{
  SubscriptionManager, LifecycleEvent, functions_of, has_subscribers, set_sm_lifecycle_callback,
  clear,
}
use d_app_libe.Subscription.Register.{register_dapp, enter_dapp}
use d_app_libe.Subscription.Register.Total.{register_dapp-enters}
use d_app_libe.Subscription.Subscribe.{add_subscription, add_locked, enter_subscription, existing}
use d_app_libe.Subscription.Unsubscribe.{
  drop_subscriber, drop_function, remove_subscription, remove_subscription_by_id, unregister_dapp,
}
use d_app_libe.Subscription.Outcomes.{
  remove_locked_cases, remove_by_id_locked_cases, unregister_locked_cases,
}
use d_app_libe.Subscription.Views.{drop_id_keeps, drop_each_keeps}
use d_app_libe.Subscription.Invariant.{IsConsistent}
use d_app_libe.Subscription.Lifecycle.{
  Tracks, running_after, flips, unchanged_Tracks, add_subscription-Tracks,
}
use d_app_libe.Subscription.Lifecycle.Departures.{
  same_has, callback-unlinked, remove_subscription-Tracks, remove_subscription_by_id-Tracks,
  unregister_dapp-Tracks,
}
use d_app_libe.Subscription.Commands.{
  Command, registers, unregisters, subscribes, unsubscribes, deletes, sets_callback, clears, step,
  run, step-IsConsistent,
}

register_dapp_keeps :
    (now : ℕ) (m : SubscriptionManager)
    → IsConsistent m
    → ((register_dapp now m).0.ran_function_subscribers ≡ m.ran_function_subscribers)
      × ((register_dapp now m).0.has_callback ≡ m.has_callback)
unfolding enter_dapp
register_dapp_keeps now m v = ground (arith, register_dapp-enters now m v.next_dapp)

pub step-Tracks :
    (c : Command) (m : SubscriptionManager) (q : ℕ)
    → c ≢ clears
    → IsConsistent m
    → m.has_callback ≡ true
    → Tracks m (step c m).0 (step c m).1 q
unfolding step set_sm_lifecycle_callback
step-Tracks (registers now) m q ne v on =
    let n = (register_dapp now m).0 in
    unchanged_Tracks m n q (same_has m n q (register_dapp_keeps now m v).0)
step-Tracks (unregisters d) m q ne v on = unregister_dapp-Tracks d m q v on
step-Tracks (subscribes d r) m q ne v on = add_subscription-Tracks d r m q on
step-Tracks (unsubscribes d r) m q ne v on = remove_subscription-Tracks d r m q on
step-Tracks (deletes d id) m q ne v on = remove_subscription_by_id-Tracks d id m q on
step-Tracks sets_callback m q ne v on =
    unchanged_Tracks m _ q (same_has m (set_sm_lifecycle_callback m) q refl)
step-Tracks clears m q ne v on = absurd (ne refl)

remove_subscription-has_callback :
    (d r : ℕ) (m : SubscriptionManager)
    → m.has_callback ≡ true
    → (remove_subscription d r m).0.has_callback ≡ true
unfolding remove_subscription
remove_subscription-has_callback d r m on = ground (
  arith,
  remove_locked_cases d r m,
  drop_id_keeps d r (drop_subscriber d r (drop_function d r m)),
  callback-unlinked d r m,
)

remove_subscription_by_id-has_callback :
    (d id : ℕ) (m : SubscriptionManager)
    → m.has_callback ≡ true
    → (remove_subscription_by_id d id m).0.has_callback ≡ true
unfolding remove_subscription_by_id
remove_subscription_by_id-has_callback d id m on = elim (remove_by_id_locked_cases d id m) [
  | inl e ↦ rw e on
  | inr (r, _, e) ↦ rw e (callback-unlinked d r m ∙ on)
]

unregister_dapp-has_callback :
    (d : ℕ) (m : SubscriptionManager)
    → IsConsistent m
    → m.has_callback ≡ true
    → (unregister_dapp d m).0.has_callback ≡ true
unfolding unregister_dapp
unregister_dapp-has_callback d m v on =
    ground
      (arith, unregister_locked_cases d m (v.same_keys d), drop_each_keeps d (functions_of m d) m)

running_after-append :
    (es fs : List LifecycleEvent) (on : Bool) (q : ℕ)
    → running_after (es ++ fs) on q ≡ running_after fs (running_after es on q) q
running_after-append [] fs on q = refl
running_after-append (e ∷ es) fs on q = running_after-append es fs _ q

flips-append :
    (es fs : List LifecycleEvent) (on : Bool) (q : ℕ)
    → flips (es ++ fs) on q ≡ (flips es on q && flips fs (running_after es on q) q)
flips-append [] fs on q = refl
flips-append (e ∷ es) fs on q =
    ground (arith, flips-append es fs on q, flips-append es fs e.should_start q)

pub step-has_callback :
    (c : Command) (m : SubscriptionManager)
    → IsConsistent m
    → m.has_callback ≡ true
    → (step c m).0.has_callback ≡ true
unfolding step set_sm_lifecycle_callback clear add_subscription add_locked enter_subscription
    existing
step-has_callback (registers now) m v on = ground (arith, register_dapp_keeps now m v)
step-has_callback (unregisters d) m v on = unregister_dapp-has_callback d m v on
step-has_callback (subscribes d r) m v on = ground arith
step-has_callback (unsubscribes d r) m v on = remove_subscription-has_callback d r m on
step-has_callback (deletes d id) m v on = remove_subscription_by_id-has_callback d id m on
step-has_callback sets_callback m v on = refl
step-has_callback clears m v on = on

-- No call of the history empties the manager by `clear`.
abbrev pub KeepsAll : List Command → Type 0
KeepsAll [] = Unit {0}
KeepsAll (c ∷ cs) = (c ≢ clears) × KeepsAll cs

-- Over any history without clear, from a consistent manager with a callback set, the callback is
-- told of every change and of nothing else: for each RAN function, the calls read in order lead
-- from whether it had subscribers to whether it has, and each of them changes that.
pub run-Tracks :
    (cs : List Command) (m : SubscriptionManager) (q : ℕ)
    → KeepsAll cs
    → IsConsistent m
    → m.has_callback ≡ true
    → (running_after (run cs m).1 (has_subscribers q m) q ≡ has_subscribers q (run cs m).0)
      × (flips (run cs m).1 (has_subscribers q m) q ≡ true)
unfolding run
run-Tracks [] m q k v on = (refl, refl)
run-Tracks (c ∷ cs) m q k v on =
    let m' = (step c m).0 in
    let first = step-Tracks c m q k.0 v on in
    let rest = run-Tracks cs m' q k.1 (step-IsConsistent c m v) (step-has_callback c m v on) in
    let es = (step c m).1 in
    let on' = has_subscribers q m in
    ground (
      arith,
      first.follows,
      first.needed,
      running_after-append es (run cs m').1 on' q,
      flips-append es (run cs m').1 on' q,
    )
