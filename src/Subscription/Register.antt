-- ===== src/Subscription/Register.antt =====
-- `register_dapp`: the search for a free identifier, and the new entries.
pub mod Total
use d_app_libe.Base.{
  ℕ, zero, suc, ◌+◌, ◌%◌, ◌^◌, ◌&&◌, if◌then◌else◌, ltb, leb, [], Map, find, insert_or_assign,
  Option-is_some,
}
use d_app_libe.Types.{ErrorCode}
use d_app_libe.Subscription.State.{SubscriptionManager, DAppEntry, max_dapp_id, min_dapp_id}

-- The increment of an identifier, with its wrap-around.
abbrev pub next_id : ℕ → ℕ
next_id id =
    let incremented = (id + 1) % 2 ^ 32 in
    if ltb max_dapp_id incremented then min_dapp_id else incremented

-- The `while` loop, on its two variables. The test on `attempts` stops it after 101 rounds.
unfoldable pub search_free : ℕ → Map DAppEntry → ℕ → ℕ → ℕ × ℕ
search_free zero dapps assigned_id attempts = (assigned_id, attempts)
search_free (suc fuel) dapps assigned_id attempts =
    let rest = search_free fuel dapps (next_id assigned_id) (attempts + 1) in
    if Option-is_some (find assigned_id dapps) && leb attempts max_dapp_id
    then rest
    else (assigned_id, attempts)

abbrev pub search_fuel : ℕ
search_fuel = max_dapp_id + 1

abbrev pub new_entry : ℕ → ℕ → DAppEntry
new_entry now assigned_id = record { dapp_identifier = assigned_id; registered_time = now }

-- The entries of a dApp that is given `assigned_id`.
unfoldable pub enter_dapp : ℕ → ℕ → SubscriptionManager → SubscriptionManager
enter_dapp now assigned_id m = record m {
  registered_dapps = insert_or_assign assigned_id (new_entry now assigned_id) m.registered_dapps;
  dapp_subscriptions = insert_or_assign assigned_id [] m.dapp_subscriptions;
  next_dapp_id = next_id assigned_id;
}

-- The clock's time `now` is an argument. The third part is 0 if the first is an error.
unfoldable pub register_dapp : ℕ → SubscriptionManager → SubscriptionManager × ErrorCode × ℕ
unfolding enter_dapp
register_dapp now m =
    let (assigned_id, attempts) = search_free search_fuel m.registered_dapps m.next_dapp_id 0 in
    if ltb max_dapp_id attempts
    then (m, ErrorCode.internal_error, 0)
    else (enter_dapp now assigned_id m, ErrorCode.success, assigned_id)
