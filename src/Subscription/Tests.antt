-- ===== src/Subscription/Tests.antt =====
-- Runs of the subscription manager on small inputs, and its theorems at such inputs.
use d_app_libe.Base.{
  ℕ, ◌+◌, ◌≡◌, refl, true, false, not, ◌&&◌, ◌||◌, ◌==◌, List, [], ◌∷◌, find, insert_or_assign,
  erase, add_id, remove_id, zero, suc, ◌≤◌, Map, Option-is_some, arith,
}
use d_app_libe.Types.{ErrorCode}
use d_app_libe.Subscription.State.{
  SubscriptionManager, create, set_sm_lifecycle_callback, is_subscribed, is_dapp_registered,
  has_subscribers, DAppEntry, make_sub_key, check_sm_lifecycle,
}
use d_app_libe.Subscription.Register.{register_dapp, search_free}
use d_app_libe.Subscription.Register.Total.{InRange, register_dapp-free, register_dapp-full}
use d_app_libe.Subscription.Subscribe.{
  add_subscription, add_locked, enter_subscription, after_unlock,
}
use d_app_libe.Subscription.Unsubscribe.{
  remove_subscription_by_id, unregister_dapp, unregister_locked, drop_each, check_each,
  drop_subscriber, drop_id, is_last, drop_function, remove_by_id_locked,
}
use d_app_libe.Subscription.Invariant.{IsConsistent, create-IsConsistent}
use d_app_libe.Subscription.Commands.{
  Command, registers, unregisters, subscribes, deletes, sets_callback, run, step, step-IsConsistent,
  run-create-IsConsistent,
}
use d_app_libe.Subscription.Commands.Tracking.{run-Tracks}
use d_app_libe.Subscription.Lifecycle.{running_after, flips}
use d_app_libe.Subscription.Ids.{add_subscription-remove_by_id, add_subscription-reuses_id}
use d_app_libe.Subscription.Ids.Key.{make_sub_key-injective}

-- Two dApps; the first is subscribed to RAN function 7 under the id 1, and 100 comes next.
abbrev two_dapps : SubscriptionManager
two_dapps = record {
  registered_dapps =
      (1, record { dapp_identifier = 1; registered_time = 0 })
      ∷ (2, record { dapp_identifier = 2; registered_time = 5 })
      ∷ [];
  dapp_subscriptions = (1, 7 ∷ []) ∷ (2, []) ∷ [];
  ran_function_subscribers = (7, 1 ∷ []) ∷ [];
  subscription_ids = (1, (1, 7)) ∷ [];
  subscription_id_reverse = (4294967303, 1) ∷ [];
  has_callback = true;
  next_dapp_id = 3;
  next_subscription_id = 1;
}

register_dapp-free_example :
    let (m', code, id) = register_dapp 9 create in
    (code ≡ ErrorCode.success)
    × InRange id
    × (is_dapp_registered id create ≡ false)
    × ((j : ℕ) → is_dapp_registered j m' ≡ (id == j || is_dapp_registered j create))
    × ((j r : ℕ) → is_subscribed j r m' ≡ (not (id == j) && is_subscribed j r create))
unfolding create is_dapp_registered find
register_dapp-free_example = register_dapp-free 9 create (omega arith) 1 (omega arith) refl

abbrev script : List Command
script =
    registers 0 ∷ registers 1 ∷ subscribes 1 7 ∷ subscribes 2 7 ∷ unregisters 1 ∷ deletes 2 2 ∷ []

run-create-IsConsistent_example : IsConsistent (run script create).0
run-create-IsConsistent_example = run-create-IsConsistent script

abbrev watched : SubscriptionManager
watched = record {
  registered_dapps = [];
  dapp_subscriptions = [];
  ran_function_subscribers = [];
  subscription_ids = [];
  subscription_id_reverse = [];
  has_callback = true;
  next_dapp_id = 1;
  next_subscription_id = 1;
}

watched-IsConsistent : IsConsistent watched
unfolding step create set_sm_lifecycle_callback
watched-IsConsistent = step-IsConsistent sets_callback create create-IsConsistent

run-Tracks_example :
    (running_after (run script watched).1 (has_subscribers 7 watched) 7
      ≡ has_subscribers 7 (run script watched).0)
    × (flips (run script watched).1 (has_subscribers 7 watched) 7 ≡ true)
run-Tracks_example =
    run-Tracks script watched 7
      ((λ e. cc), ((λ e. cc), ((λ e. cc), ((λ e. cc), ((λ e. cc), ((λ e. cc), tt))))))
      watched-IsConsistent refl

-- The script starts RAN function 7 and stops it again.
script_events :
    (run script watched).1
    ≡ record { ran_function_id = 7; should_start = true }
      ∷ record { ran_function_id = 7; should_start = false }
      ∷ []
unfolding run step register_dapp search_free find insert_or_assign erase add_subscription add_locked
    enter_subscription after_unlock check_sm_lifecycle unregister_dapp unregister_locked drop_each
    drop_subscriber drop_id is_last add_id remove_id check_each remove_subscription_by_id
    remove_by_id_locked drop_function make_sub_key
script_events = refl

-- The identifiers 1 to `n`, all taken.
abbrev taken : ℕ → Map DAppEntry
taken zero = []
taken (suc n) = (suc n, record { dapp_identifier = suc n; registered_time = 0 }) ∷ taken n

find-taken : (n i : ℕ) → 1 ≤ i → i ≤ n → Option-is_some (find i (taken n)) ≡ true
unfolding find
find-taken zero i h l = absurd (omega arith)
find-taken (suc n) i h l = ground (arith, find-taken n i h)

abbrev full : SubscriptionManager
full = record watched { registered_dapps = taken 100; next_dapp_id = 42 }

register_dapp-full_example : register_dapp 9 full ≡ (full, ErrorCode.internal_error, 0)
unfolding is_dapp_registered
register_dapp-full_example =
    register_dapp-full 9 full (omega arith) (λ i r. find-taken 100 i r.0 r.1)

add_subscription-remove_by_id_example :
    let (added, code, id, es) = add_subscription 2 8 two_dapps in
    let (n, deleted, fs) = remove_subscription_by_id 2 id added in
    (code ≡ ErrorCode.success)
    × (deleted ≡ ErrorCode.success)
    × ((e q : ℕ) → is_subscribed e q n ≡ is_subscribed e q two_dapps)
unfolding is_dapp_registered is_subscribed find
add_subscription-remove_by_id_example = add_subscription-remove_by_id 2 8 two_dapps refl refl

add_subscription-reuses_id_example :
    let (n, code, id, es) = add_subscription 2 8 two_dapps in
    (code ≡ ErrorCode.success)
    × (id ≡ 1)
    × (is_subscribed 1 7 n ≡ true)
    × ((remove_subscription_by_id 1 id n).1 ≡ ErrorCode.subscription_not_found)
unfolding is_dapp_registered is_subscribed find
add_subscription-reuses_id_example =
    add_subscription-reuses_id 2 8 1 7 two_dapps refl refl refl refl (λ e. omega arith)

make_sub_key-injective_example : (3 ≡ 2 + 1) × (9 ≡ 8 + 1)
make_sub_key-injective_example =
    make_sub_key-injective 3 9 (2 + 1) (8 + 1) (omega arith) (omega arith) (omega arith)
      (omega arith) refl
