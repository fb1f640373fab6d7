-- ===== src/Subscription/State.antt =====
-- The members of `SubscriptionManager`, its queries, and `check_sm_lifecycle`.
use Prim.Native.Nat.{bit_or}
use d_app_libe.Base.{
  ℕ, ◌+◌, ◌*◌, ◌%◌, ◌^◌, Bool, true, false, not, ◌&&◌, if◌then◌else◌, Option, none, some, List, [],
  ◌∷◌, Map, find, keys, contains, is_empty, length, Option-is_some,
}

abbrev pub max_dapp_id : ℕ
max_dapp_id = 100

abbrev pub min_dapp_id : ℕ
min_dapp_id = 1

-- Times of the monotonic clock are numbers.
pub record DAppEntry : Type 0 where
  pub dapp_identifier : ℕ
  pub registered_time : ℕ

pub record SubscriptionManager : Type 0 where
  pub registered_dapps : Map DAppEntry
  pub dapp_subscriptions : Map (List ℕ)
  pub ran_function_subscribers : Map (List ℕ)
  pub subscription_ids : Map (ℕ × ℕ)
  pub subscription_id_reverse : Map ℕ
  -- Whether `sm_lifecycle_callback_` holds a function.
  pub has_callback : Bool
  pub next_dapp_id : ℕ
  pub next_subscription_id : ℕ

unfoldable pub create : SubscriptionManager
create = record {
  registered_dapps = [];
  dapp_subscriptions = [];
  ran_function_subscribers = [];
  subscription_ids = [];
  subscription_id_reverse = [];
  has_callback = false;
  next_dapp_id = 1;
  next_subscription_id = 1;
}

unfoldable pub set_sm_lifecycle_callback : SubscriptionManager → SubscriptionManager
set_sm_lifecycle_callback m = record m { has_callback = true }

-- (static_cast<uint64_t>(dapp_id) << 32) | ran_func_id
unfoldable pub make_sub_key : ℕ → ℕ → ℕ
make_sub_key dapp_id ran_func_id = bit_or (dapp_id * 2 ^ 32 % 2 ^ 64) ran_func_id

abbrev pub or_empty : Option (List ℕ) → List ℕ
or_empty none = []
or_empty (some s) = s

-- The sets that the two indices hold for a dApp and for a RAN function; empty if there is none.
abbrev pub functions_of : SubscriptionManager → ℕ → List ℕ
functions_of m d = or_empty (find d m.dapp_subscriptions)

abbrev pub subscribers_of : SubscriptionManager → ℕ → List ℕ
subscribers_of m r = or_empty (find r m.ran_function_subscribers)

unfoldable pub is_dapp_registered : ℕ → SubscriptionManager → Bool
is_dapp_registered d m = Option-is_some (find d m.registered_dapps)

unfoldable pub get_registered_dapps : SubscriptionManager → List ℕ
get_registered_dapps m = keys m.registered_dapps

unfoldable pub is_subscribed : ℕ → ℕ → SubscriptionManager → Bool
is_subscribed d r m = elim (find d m.dapp_subscriptions) [ none ↦ false | some s ↦ contains r s ]

unfoldable pub get_dapp_subscriptions : ℕ → SubscriptionManager → List ℕ
get_dapp_subscriptions d m = or_empty (find d m.dapp_subscriptions)

unfoldable pub get_subscribed_dapps : ℕ → SubscriptionManager → List ℕ
get_subscribed_dapps r m = or_empty (find r m.ran_function_subscribers)

unfoldable pub get_subscriber_count : ℕ → SubscriptionManager → ℕ
get_subscriber_count r m = elim (find r m.ran_function_subscribers) [ none ↦ 0 | some s ↦ length s ]

active_of : Map (List ℕ) → List ℕ
active_of [] = []
active_of ((r, s) ∷ rest) = if is_empty s then active_of rest else r ∷ active_of rest

unfoldable pub get_active_ran_functions : SubscriptionManager → List ℕ
unfolding active_of
get_active_ran_functions m = active_of m.ran_function_subscribers

unfoldable pub has_subscribers : ℕ → SubscriptionManager → Bool
has_subscribers r m = elim (find r m.ran_function_subscribers) [
  | none ↦ false
  | some s ↦ not (is_empty s)
]

unfoldable pub dapp_count : SubscriptionManager → ℕ
dapp_count m = length m.registered_dapps

sizes : Map (List ℕ) → ℕ
sizes [] = 0
sizes ((d, s) ∷ rest) = length s + sizes rest

unfoldable pub subscription_count : SubscriptionManager → ℕ
unfolding sizes
subscription_count m = sizes m.dapp_subscriptions

-- The two subscription-id maps are left as they are.
unfoldable pub clear : SubscriptionManager → SubscriptionManager
clear m = record m { registered_dapps = []; dapp_subscriptions = []; ran_function_subscribers = [] }

-- A call `sm_lifecycle_callback_(ran_function_id, should_start)`.
pub record LifecycleEvent : Type 0 where
  pub ran_function_id : ℕ
  pub should_start : Bool

unfoldable pub check_sm_lifecycle : ℕ → Bool → SubscriptionManager → List LifecycleEvent
unfolding has_subscribers
check_sm_lifecycle r had_subscribers m =
    let has_subscribers_now = has_subscribers r m in
    if not m.has_callback
    then []
    else if not had_subscribers && has_subscribers_now
    then record { ran_function_id = r; should_start = true } ∷ []
    else if had_subscribers && not has_subscribers_now
    then record { ran_function_id = r; should_start = false } ∷ []
    else []
