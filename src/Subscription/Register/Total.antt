-- ===== src/Subscription/Register/Total.antt =====
-- `register_dapp` finds a free identifier whenever there is one.
use d_app_libe.Base.{
  ℕ, zero, suc, ◌+◌, ◌-◌, ◌%◌, ◌≤◌, ◌<◌, ◌≡◌, refl, ◌⊎◌, inr, true, false, not, ◌&&◌, ◌||◌, ◌==◌,
  [], ltb, Bool-cases, inl, Map, find, find-insert_or_assign, Option-is_some, arith,
}
use d_app_libe.Types.{ErrorCode}
use d_app_libe.Subscription.State.{
  SubscriptionManager, DAppEntry, is_dapp_registered, is_subscribed,
}
use d_app_libe.Subscription.Register.{search_free, next_id, new_entry, register_dapp, enter_dapp}

-- An identifier that may be given to a dApp.
abbrev pub InRange : ℕ → Type 0
InRange id = (1 ≤ id) × (id ≤ 100)

-- The loop's state after `attempts` rounds from `start`: all that it has passed is taken.
record Searched (dapps : Map DAppEntry) (start id attempts : ℕ) : Type 0 where
  in_range : InRange id
  aligned : (id + 100 - start) % 100 ≡ attempts % 100
  passed :
      (i : ℕ)
      → InRange i
      → (i + 100 - start) % 100 < attempts
      → Option-is_some (find i dapps) ≡ true

module _ (dapps : Map DAppEntry) (start : ℕ) (from : InRange start) where
  Searched-next :
      (id attempts : ℕ)
      → Searched dapps start id attempts
      → Option-is_some (find id dapps) ≡ true
      → Searched dapps start (next_id id) (attempts + 1)
  Searched-next id attempts s taken = record {
    in_range = let r = s.in_range in ground arith;
    aligned = let r = s.in_range in let a = s.aligned in ground arith;
    passed = λ i r h. let a = s.aligned in let b = s.in_range in ground (arith, s.passed i r);
  }

  search_free-Searched :
      (fuel id attempts : ℕ)
      → Searched dapps start id attempts
      → let (id', attempts') = search_free fuel dapps id attempts in
        Searched dapps start id' attempts'
  unfolding search_free
  search_free-Searched zero id attempts s = s
  search_free-Searched (suc fuel) id attempts s =
      ground
        (arith, Searched-next id attempts s, search_free-Searched fuel (next_id id) (attempts + 1))

  -- 101 rounds in all suffice: the loop ends by its test.
  search_free_stops :
      (fuel id attempts : ℕ)
      → attempts + fuel ≡ 101
      → let (id', attempts') = search_free fuel dapps id attempts in
        (Option-is_some (find id' dapps) ≡ false) ⊎ (100 < attempts')
  unfolding search_free
  search_free_stops zero id attempts e = inr (omega arith)
  search_free_stops (suc fuel) id attempts e =
      ground (arith, search_free_stops fuel (next_id id) (attempts + 1))

module _ (now : ℕ) (m : SubscriptionManager) (ready : InRange m.next_dapp_id) where
  abbrev found : ℕ × ℕ
  found = search_free 101 m.registered_dapps m.next_dapp_id 0

  found-Searched : Searched m.registered_dapps m.next_dapp_id found.0 found.1
  found-Searched =
      search_free-Searched m.registered_dapps m.next_dapp_id ready 101 m.next_dapp_id 0
        (record { in_range = ready; aligned = omega arith; passed = λ i r h. absurd (omega arith) })

  found_stops : (Option-is_some (find found.0 m.registered_dapps) ≡ false) ⊎ (100 < found.1)
  found_stops = search_free_stops m.registered_dapps m.next_dapp_id ready 101 m.next_dapp_id 0 refl

  found-free :
      (i : ℕ)
      → InRange i
      → is_dapp_registered i m ≡ false
      → (Option-is_some (find found.0 m.registered_dapps) ≡ false) × (found.1 ≤ 100)
  unfolding is_dapp_registered
  found-free i r free = let s = found-Searched in ground (arith, found_stops, s.passed i r)

  -- Registration changes nothing, or enters a dApp under a free identifier.
  pub register_dapp-enters :
      (register_dapp now m ≡ (m, ErrorCode.internal_error, 0))
      ⊎ ((id : ℕ) × InRange id
          × (Option-is_some (find id m.registered_dapps) ≡ false)
          × (register_dapp now m ≡ (enter_dapp now id m, ErrorCode.success, id)))
  unfolding register_dapp
  register_dapp-enters = elim (Bool-cases (ltb 100 found.1)) [
    | inl full ↦ inl (ground arith)
    | inr free ↦ inr (found.0, found-Searched.in_range, ground (arith, found_stops), ground arith)
  ]

  -- From a next identifier in 1 to 100, and while an identifier of 1 to 100 is free, registration
  -- succeeds with such an identifier, one that no dApp holds; afterwards exactly that dApp is
  -- registered besides the earlier ones, it has no subscription, and the subscriptions of the
  -- others are as they were.
  pub register_dapp-free :
      (i : ℕ)
      → InRange i
      → is_dapp_registered i m ≡ false
      → let (m', code, id) = register_dapp now m in
        (code ≡ ErrorCode.success)
        × InRange id
        × (is_dapp_registered id m ≡ false)
        × ((j : ℕ) → is_dapp_registered j m' ≡ (id == j || is_dapp_registered j m))
        × ((j r : ℕ) → is_subscribed j r m' ≡ (not (id == j) && is_subscribed j r m))
  unfolding register_dapp is_dapp_registered is_subscribed
  register_dapp-free i r free =
      let f = found-free i r free in
      let in_range : InRange found.0 = found-Searched.in_range in
      (
        ground arith,
        ground arith,
        ground arith,
        λ j.
            ground
              (arith, find-insert_or_assign j found.0 (new_entry now found.0) m.registered_dapps),
        λ j q. ground (arith, find-insert_or_assign j found.0 [] m.dapp_subscriptions),
      )

  -- From a next identifier in 1 to 100, and with all identifiers of 1 to 100 taken, registration
  -- fails with the internal error and changes nothing.
  pub register_dapp-full :
      ((i : ℕ) → InRange i → is_dapp_registered i m ≡ true)
      → register_dapp now m ≡ (m, ErrorCode.internal_error, 0)
  unfolding register_dapp is_dapp_registered
  register_dapp-full taken = ground (arith, found_stops, taken found.0 found-Searched.in_range)
