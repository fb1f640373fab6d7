-- ===== src/Subscription/Lifecycle.antt =====
-- The lifecycle callback follows the subscriptions: read in order, its calls start a RAN
-- function's service model when the first dApp subscribes and stop it when the last one leaves.
pub mod Departures
use d_app_libe.Base.{
  ℕ, Bool, true, false, not, ◌&&◌, ◌||◌, if◌then◌else◌, ◌==◌, ◌≡◌, refl, sym, inl, inr, some, none,
  List, [], ◌∷◌, find, contains, add_id, remove_id, is_empty, Option-is_some, Bool-cases,
  not-is_empty_of_contains, contains-add_id, arith,
}
use d_app_libe.Subscription.State.{
  SubscriptionManager, LifecycleEvent, functions_of, subscribers_of, has_subscribers,
  check_sm_lifecycle,
}
use d_app_libe.Subscription.Subscribe.{
  add_subscription, add_locked, after_unlock, enter_subscription, existing,
}
use d_app_libe.Subscription.Unsubscribe.{drop_subscriber, is_last}
use d_app_libe.Subscription.Views.{
  subscribers_of-enter_subscription, subscribers_of-drop_subscriber,
}

-- Whether the service model of `q` runs after the calls, if it ran before them as `on` says.
abbrev pub running_after : List LifecycleEvent → Bool → ℕ → Bool
running_after [] on q = on
running_after (e ∷ es) on q =
    running_after es (if e.ran_function_id == q then e.should_start else on) q

-- Each call for `q` changes whether it runs.
abbrev pub flips : List LifecycleEvent → Bool → ℕ → Bool
flips [] on q = true
flips (e ∷ es) on q =
    (if e.ran_function_id == q then (if e.should_start then not on else on) else true)
    && flips es (if e.ran_function_id == q then e.should_start else on) q

-- The calls `es` lead from the subscriptions of `m` to those of `n`.
pub record Tracks (m n : SubscriptionManager) (es : List LifecycleEvent) (q : ℕ) : Type 0 where
  pub follows : running_after es (has_subscribers q m) q ≡ has_subscribers q n
  pub needed : flips es (has_subscribers q m) q ≡ true

pub has_subscribers_lem :
    (q : ℕ) (m : SubscriptionManager) → has_subscribers q m ≡ not (is_empty (subscribers_of m q))
unfolding has_subscribers
has_subscribers_lem q m = ground arith

-- A change of one RAN function, with the check after it.
checked_Tracks :
    (r : ℕ) (had : Bool) (m n : SubscriptionManager) (q : ℕ)
    → n.has_callback ≡ true
    → has_subscribers r m ≡ had
    → ((r == q) ≡ false → has_subscribers q n ≡ has_subscribers q m)
    → Tracks m n (check_sm_lifecycle r had n) q
unfolding check_sm_lifecycle
checked_Tracks r had m n q on h same = record { follows = ground arith; needed = ground arith }

pub unchanged_Tracks :
    (m n : SubscriptionManager) (q : ℕ)
    → has_subscribers q n ≡ has_subscribers q m
    → Tracks m n [] q
unchanged_Tracks m n q e = record { follows = sym e; needed = refl }

has_subscribers-enter_subscription :
    (d r : ℕ) (m : SubscriptionManager) (q : ℕ)
    → has_subscribers q (enter_subscription d r m) ≡ (r == q || has_subscribers q m)
has_subscribers-enter_subscription d r m q = ground (
  arith,
  has_subscribers_lem q m,
  has_subscribers_lem q (enter_subscription d r m),
  subscribers_of-enter_subscription d r m q,
  contains-add_id d d (subscribers_of m r),
  not-is_empty_of_contains d (add_id d (subscribers_of m r)),
)

pub has_subscribers-drop_subscriber :
    (d r : ℕ) (m n : SubscriptionManager) (q : ℕ)
    → n.ran_function_subscribers ≡ (drop_subscriber d r m).ran_function_subscribers
    → has_subscribers q n
      ≡ (if r == q then has_subscribers r m && not (is_last d r m) else has_subscribers q m)
unfolding is_last remove_id
has_subscribers-drop_subscriber d r m n q e = ground (
  arith,
  has_subscribers_lem q m,
  has_subscribers_lem r m,
  has_subscribers_lem q n,
  subscribers_of-drop_subscriber d r m q,
)

existing_keeps :
    (d r : ℕ) (m : SubscriptionManager) (q : ℕ)
    → has_subscribers q (existing d r m).0 ≡ has_subscribers q m
unfolding existing has_subscribers
existing_keeps d r m q = refl

callback-enter_subscription :
    (d r : ℕ) (m : SubscriptionManager)
    → m.has_callback ≡ true
    → (enter_subscription d r m).has_callback ≡ true
unfolding enter_subscription
callback-enter_subscription d r m on = on

-- `add_subscription` with a callback set.
pub add_subscription-Tracks :
    (d r : ℕ) (m : SubscriptionManager) (q : ℕ)
    → m.has_callback ≡ true
    → let (n, code, id, es) = add_subscription d r m in Tracks m n es q
unfolding add_subscription add_locked after_unlock existing
add_subscription-Tracks d r m q on =
    elim (Bool-cases (Option-is_some (find d m.registered_dapps))) [
      | inl known ↦ elim (Bool-cases (contains r (functions_of m d))) [
        | inl old ↦ rw (known, old, add_locked) (unchanged_Tracks m _ q (existing_keeps d r m q))
        | inr new ↦ elim (Bool-cases (is_empty (subscribers_of m r))) [
          | inl first ↦
              rw (known, new, first, add_locked)
                (checked_Tracks r false m (enter_subscription d r m) q
                  (callback-enter_subscription d r m on) (ground (arith, has_subscribers_lem r m))
                  (λ ne. ground (arith, has_subscribers-enter_subscription d r m q)))
          | inr later ↦
              rw (known, new, later, add_locked)
                (unchanged_Tracks m (enter_subscription d r m) q (
                  ground
                    (arith, has_subscribers_lem r m, has_subscribers-enter_subscription d r m q)))
        ]
      ]
      | inr unknown ↦ rw (unknown, add_locked) (unchanged_Tracks m m q refl)
    ]

pub last_had :
    (d r : ℕ) (m : SubscriptionManager) → is_last d r m ≡ true → has_subscribers r m ≡ true
unfolding is_last
last_had d r m h = ground (arith, has_subscribers_lem r m)

-- A dApp leaves one RAN function.
pub drop_subscriber-Tracks :
    (d r : ℕ) (m n : SubscriptionManager) (q : ℕ)
    → n.has_callback ≡ true
    → n.ran_function_subscribers ≡ (drop_subscriber d r m).ran_function_subscribers
    → Tracks m n (after_unlock (if is_last d r m then some r else none) true n) q
unfolding after_unlock
drop_subscriber-Tracks d r m n q on e = elim (Bool-cases (is_last d r m)) [
  | inl last ↦ rw last (
      checked_Tracks r true m n q on (last_had d r m last)
        (λ ne. ground (arith, has_subscribers-drop_subscriber d r m n q e)))
  | inr stays ↦
      rw stays
        (unchanged_Tracks m n q (ground (arith, has_subscribers-drop_subscriber d r m n q e)))
]
