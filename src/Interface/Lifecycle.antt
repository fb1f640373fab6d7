-- ===== src/Interface/Lifecycle.antt =====
-- init, start and stop. The threads that start makes are not part of the state: stop returns after
-- they have ended.
use d_app_libe.Base.{
  ℕ, Bool, true, false, if◌then◌else◌, Option, none, some, ◌≡◌, refl, ap, ◌∙◌, [], ◌^◌, ◌-◌, arith,
}
use d_app_libe.Types.{ErrorCode, AgentState, Pdu}
use d_app_libe.Subscription.State.{SubscriptionManager, create, set_sm_lifecycle_callback}
use d_app_libe.Response.Defs.{ResponseQueue, push, shutdown}
use d_app_libe.Response.Defs as Queue
use d_app_libe.Response.Contents.{Holds, create-Holds}
use d_app_libe.Subscription.Invariant.{IsConsistent, create-IsConsistent}
use d_app_libe.Subscription.Commands.{sets_callback, step, step-IsConsistent}
use d_app_libe.Registry.Defs.{ServiceModel, SmRegistry, is_success}
use d_app_libe.Registry.Defs as Models

-- What the interface uses of a connector.
pub record E3Connector {ℓ} (Connector : Type ℓ) : Type ℓ where
  pub setup_initial_connection : Connector → ErrorCode × Connector
  pub shutdown : Connector → Connector
  pub dispose : Connector → Connector

pub record E3Interface {ℓ} (Model Factory Connector : Type ℓ) : Type ℓ where
  pub state : AgentState
  pub should_stop : Bool
  pub has_encoder : Bool
  pub subscription_manager : Option SubscriptionManager
  pub response_queue : Option ResponseQueue
  pub connector : Option Connector
  pub registry : SmRegistry Model Factory

abbrev pub default_capacity : ℕ
default_capacity = 128

closed_push :
    (pdu : Pdu) (queue : ResponseQueue)
    → push pdu (shutdown queue) ≡ some (shutdown queue, ErrorCode.not_initialized)
unfolding push shutdown
closed_push pdu queue = refl

module _ {ℓ} {Model Factory Connector : Type ℓ} where
  -- What `create_encoder` and `create_connector` give for the configuration are arguments. `none`
  -- is a queue whose constructor does not end.
  unfoldable pub init :
      Bool
      → Option Connector
      → ℕ
      → E3Interface Model Factory Connector
      → Option (E3Interface Model Factory Connector × ErrorCode)
  init encoder connector clock i = elim i.state [
    | AgentState.uninitialized ↦
        if encoder
        then elim (Queue.create clock default_capacity) [
          | none ↦ none
          | some queue ↦
              let made = record i {
                has_encoder = true;
                subscription_manager = some (set_sm_lifecycle_callback create);
                response_queue = some queue;
                connector = connector;
              } in
              elim connector [
                | none ↦ some (made, ErrorCode.internal_error)
                | some c ↦ some (record made { state = AgentState.initialized }, ErrorCode.success)
              ]
        ]
        else some (record i { has_encoder = false }, ErrorCode.internal_error)
    | _ ↦ some (i, ErrorCode.already_initialized)
  ]

  -- `none` is a queue that does not answer.
  unfoldable pub queue_outbound :
      Pdu
      → E3Interface Model Factory Connector
      → Option (E3Interface Model Factory Connector × ErrorCode)
  queue_outbound pdu i = elim i.response_queue [
    | none ↦ some (i, ErrorCode.not_initialized)
    | some queue ↦ elim (push pdu queue) [
      | none ↦ none
      | some (queue', code) ↦ some (record i { response_queue = some queue' }, code)
    ]
  ]

  module _ (conn : E3Connector Connector) where
    -- `none` is a call through a null connector.
    unfoldable pub start :
        E3Interface Model Factory Connector
        → Option (E3Interface Model Factory Connector × ErrorCode)
    start i = elim i.state [
      | AgentState.initialized ↦ elim i.connector [
        | none ↦ none
        | some c ↦
            let (code, c') = conn.setup_initial_connection c in
            let tried = record i { should_stop = false; connector = some c' } in
            if is_success code
            then some (record tried { state = AgentState.running }, ErrorCode.success)
            else some (record tried { state = AgentState.error }, code)
      ]
      | _ ↦ some (i, ErrorCode.state_error)
    ]

    module _ (sm : ServiceModel Model) where
      -- The body of stop behind its test of the state.
      unfoldable pub stop_all :
          E3Interface Model Factory Connector → E3Interface Model Factory Connector
      stop_all i = record i {
        state = AgentState.initialized;
        should_stop = true;
        response_queue = elim i.response_queue [ none ↦ none | some queue ↦ some (shutdown queue) ];
        connector = elim i.connector [
          | none ↦ none
          | some c ↦ some (conn.dispose (conn.shutdown c))
        ];
        registry = (Models.clear sm i.registry).0;
      }

      unfoldable pub stop :
          E3Interface Model Factory Connector → E3Interface Model Factory Connector
      unfolding stop_all
      stop i = elim i.state [
        | AgentState.uninitialized ↦ i
        | AgentState.stopping ↦ i
        | _ ↦ stop_all i
      ]

  -- What stop leaves of a running interface.
  abbrev stopped_with :
      (conn : E3Connector Connector) (sm : ServiceModel Model)
      → E3Interface Model Factory Connector
      → ResponseQueue
      → Connector
      → E3Interface Model Factory Connector
  stopped_with conn sm i queue c = record {
    state = AgentState.initialized;
    should_stop = true;
    has_encoder = i.has_encoder;
    subscription_manager = i.subscription_manager;
    response_queue = some (shutdown queue);
    connector = some (conn.dispose (conn.shutdown c));
    registry = (Models.clear sm i.registry).0;
  }

  stop_running :
      (conn : E3Connector Connector) (sm : ServiceModel Model)
      (i : E3Interface Model Factory Connector) (queue : ResponseQueue) (c : Connector)
      → i.state ≡ AgentState.running
      → i.response_queue ≡ some queue
      → i.connector ≡ some c
      → stop conn sm i ≡ stopped_with conn sm i queue c
  unfolding stop stop_all
  stop_running conn sm i queue c running made connected =
      rw (stop, running, stop_all, made, connected)

  -- A running interface that is stopped starts again if the connection can be set up again, and is
  -- then RUNNING; but nothing opens the queue that stop shut down, and every PDU that is queued
  -- from then on is refused with NOT_INITIALIZED.
  pub start-stop-queue_outbound :
      (conn : E3Connector Connector) (sm : ServiceModel Model)
      (i : E3Interface Model Factory Connector) (queue : ResponseQueue) (c : Connector)
      → i.state ≡ AgentState.running
      → i.response_queue ≡ some queue
      → i.connector ≡ some c
      → is_success (conn.setup_initial_connection (conn.dispose (conn.shutdown c))).0 ≡ true
      → (j : E3Interface Model Factory Connector) × (start conn (stop conn sm i)
          ≡ some (j, ErrorCode.success))
        × (j.state ≡ AgentState.running)
        × ((pdu : Pdu) → queue_outbound pdu j ≡ some (j, ErrorCode.not_initialized))
  unfolding start queue_outbound
  start-stop-queue_outbound conn sm i queue c running made connected good =
      let i' = stopped_with conn sm i queue c in
      let c' = (conn.setup_initial_connection (conn.dispose (conn.shutdown c))).1 in
      (
        record i' { state = AgentState.running; should_stop = false; connector = some c' },
        ap (start conn) (stop_running conn sm i queue c running made connected) ∙ rw (start, good),
        refl,
        λ pdu. rw (queue_outbound, closed_push),
      )

  -- A new interface whose encoder and connector can be made is initialized, with an empty and open
  -- queue, and with a consistent manager whose callback is set.
  pub init-Holds :
      (c : Connector) (clock : ℕ) (i : E3Interface Model Factory Connector)
      → i.state ≡ AgentState.uninitialized
      → (j : E3Interface Model Factory Connector) × (q : ResponseQueue) × (m : SubscriptionManager)
        × (init true (some c) clock i ≡ some (j, ErrorCode.success))
        × (j.state ≡ AgentState.initialized)
        × (j.response_queue ≡ some q)
        × Holds q [] (2 ^ 62 - 1)
        × (q.shut_down ≡ false)
        × (j.subscription_manager ≡ some m)
        × IsConsistent m
        × (m.has_callback ≡ true)
  unfolding init set_sm_lifecycle_callback step
  init-Holds c clock i fresh =
      let (q, made, held, opened, enough) = create-Holds clock default_capacity (omega arith) in
      let m = set_sm_lifecycle_callback create in
      (
        record i {
          state = AgentState.initialized;
          has_encoder = true;
          subscription_manager = some m;
          response_queue = some q;
          connector = some c;
        },
        q,
        m,
        rw (init, fresh, made),
        refl,
        refl,
        held,
        opened,
        refl,
        step-IsConsistent sets_callback create create-IsConsistent,
        refl,
      )
