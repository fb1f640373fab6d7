-- ===== src/Interface/Answers.antt =====
-- What the dApp is told.
use d_app_libe.Base.{
  ℕ, suc, true, false, ◌≡◌, refl, sym, some, List, inl, inr, arith, Bool-cases, Option-is_some,
}
use d_app_libe.Types.{ErrorCode, Pdu, SubscriptionRequest}
use d_app_libe.Subscription.State.{SubscriptionManager, is_dapp_registered, is_subscribed}
use d_app_libe.Subscription.Subscribe.{add_subscription, add_locked, existing}
use d_app_libe.Subscription.Ids.{
  is_subscribed_lem, add_subscription-new, is_subscribed-enter_subscription,
}
use d_app_libe.Subscription.Invariant.{IsConsistent}
use d_app_libe.Response.Contents.{Holds, push_contents}
use d_app_libe.Registry.Defs.{ServiceModel}
use d_app_libe.Interface.Defs.{
  Session, Draw, notify_dapp_status_changed, managed, subscribe, after_add,
  handle_subscription_request, subscription_response_of,
}
use d_app_libe.Interface.Handlers.{queue_outbound-Holds, subscribe-response_queue}

unregistered_unsubscribed :
    (d r : ℕ) (m : SubscriptionManager)
    → IsConsistent m
    → is_dapp_registered d m ≡ false
    → is_subscribed d r m ≡ false
unfolding is_dapp_registered is_subscribed
unregistered_unsubscribed d r m v unknown = ground (arith, v.same_keys d)

-- A second request for a subscription finds it.
add_subscription-old :
    (d r : ℕ) (m : SubscriptionManager)
    → is_dapp_registered d m ≡ true
    → is_subscribed d r m ≡ true
    → ((add_subscription d r m).1 ≡ ErrorCode.subscription_exists)
      × (is_subscribed d r (add_subscription d r m).0 ≡ true)
unfolding add_subscription add_locked is_dapp_registered is_subscribed existing
add_subscription-old d r m known old =
    (ground (arith, is_subscribed_lem d r m), ground (arith, is_subscribed_lem d r m))

module _ {ℓ} {Model Factory : Type ℓ} (sm : ServiceModel Model) where
  -- A handled subscription request returns, with its response behind the PDUs that waited in the
  -- queue, as far as the queue is open and has space; the queue's positions are below 2^63.
  pub handle_subscription_request-Holds :
      (request : SubscriptionRequest) (id : ℕ) (draw : Draw) (s : Session Model Factory)
      (xs : List Pdu) (room : ℕ)
      → Holds s.response_queue xs (suc room)
      → (s' : Session Model Factory) × (handle_subscription_request sm request id draw s ≡ some s')
        × Holds s'.response_queue
            (push_contents
              (subscription_response_of request id (subscribe sm request s).1 draw)
              s.response_queue
              xs)
            room
  unfolding handle_subscription_request
  handle_subscription_request-Holds request id draw s xs room h =
      let s1 = (subscribe sm request s).0 in
      let reply = subscription_response_of request id (subscribe sm request s).1 draw in
      let same = subscribe-response_queue sm request s in
      let (queue, e, held) = queue_outbound-Holds reply s1 xs room (rw same h) in
      (record s1 { response_queue = queue }, e, rw same at held)

  after_add-manager :
      (code : ErrorCode) (id : ℕ) (s : Session Model Factory)
      → (after_add code id s).0.subscription_manager ≡ s.subscription_manager
  unfolding after_add notify_dapp_status_changed
  after_add-manager ErrorCode.success id s = elim (Bool-cases s.has_status_handler) [
    | inl set ↦ rw (after_add, notify_dapp_status_changed, set)
    | inr unset ↦ rw (after_add, notify_dapp_status_changed, unset)
  ]
  after_add-manager ErrorCode.subscription_exists id s = refl
  after_add-manager code id s = refl

  -- The answer to a subscription request is positive, and then holds an id, exactly if the dApp is
  -- subscribed to the RAN function afterwards; the manager is consistent before.
  pub subscribe-positive :
      (request : SubscriptionRequest) (s : Session Model Factory)
      → IsConsistent s.subscription_manager
      → Option-is_some (subscribe sm request s).1
        ≡ is_subscribed request.dapp_identifier request.ran_function_identifier
            (subscribe sm request s).0.subscription_manager
  unfolding subscribe managed
  subscribe-positive request s v =
      let d = request.dapp_identifier in
      let r = request.ran_function_identifier in
      let m = s.subscription_manager in
      elim (Bool-cases (is_dapp_registered d m)) [
        | inr unknown ↦ rw (subscribe, unknown) (sym (unregistered_unsubscribed d r m v unknown))
        | inl known ↦ elim (Bool-cases (is_subscribed d r m)) [
          | inl old ↦
              let (code, there) = add_subscription-old d r m known old in
              rw (subscribe, known, after_add-manager, code) (sym there)
          | inr new ↦
              let (e, code, id) = add_subscription-new d r m known new in
              rw (subscribe, known, after_add-manager, e, code)
                (ground (arith, is_subscribed-enter_subscription d r m d r))
        ]
      ]
