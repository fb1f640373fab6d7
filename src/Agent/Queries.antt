-- ===== src/Agent/Queries.antt =====
-- The queries of E3Agent.
use d_app_libe.Base.{ℕ, Option, none, some, List, []}
use d_app_libe.Subscription.State.{SubscriptionManager}
use d_app_libe.Subscription.State as Subscriptions
use d_app_libe.Agent.Defs.{E3Agent}

module _ {ℓ} {Model Factory Connector Handler : Type ℓ} where
  -- The queries, which ask the interface's subscription manager. An interface has one after init;
  -- `none` is a call through a null pointer.
  unfoldable pub query :
      {A : Type 0}
      → A
      → (SubscriptionManager → A)
      → E3Agent Model Factory Connector Handler
      → Option A
  query without ask a = elim a.interface [
    | none ↦ some without
    | some h ↦ elim h.core.subscription_manager [ none ↦ none | some m ↦ some (ask m) ]
  ]

  unfoldable pub get_registered_dapps : E3Agent Model Factory Connector Handler → Option (List ℕ)
  unfolding query
  get_registered_dapps = query [] Subscriptions.get_registered_dapps

  unfoldable pub get_dapp_subscriptions :
      ℕ → E3Agent Model Factory Connector Handler → Option (List ℕ)
  unfolding query
  get_dapp_subscriptions dapp_id = query [] (Subscriptions.get_dapp_subscriptions dapp_id)

  unfoldable pub get_ran_function_subscribers :
      ℕ → E3Agent Model Factory Connector Handler → Option (List ℕ)
  unfolding query
  get_ran_function_subscribers id = query [] (Subscriptions.get_subscribed_dapps id)

  unfoldable pub dapp_count : E3Agent Model Factory Connector Handler → Option ℕ
  unfolding query
  dapp_count = query 0 Subscriptions.dapp_count

  unfoldable pub subscription_count : E3Agent Model Factory Connector Handler → Option ℕ
  unfolding query
  subscription_count = query 0 Subscriptions.subscription_count
