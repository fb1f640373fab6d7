-- ===== src/Interface/Tests.antt =====
-- A session with models that are switches, and the handlers' theorems there.
use d_app_libe.Base.{◌^◌, ◌-◌, ℕ, ◌≡◌, refl, Bool, true, false, some, none, [], Option-is_some}
use d_app_libe.Types.{ErrorCode, AgentState, Pdu}
use d_app_libe.Subscription.State.{SubscriptionManager, is_subscribed}
use d_app_libe.Subscription.Invariant.{IsConsistent}
use d_app_libe.Response.Defs.{ResponseQueue}
use d_app_libe.Response.Contents.{Holds, push_contents}
use d_app_libe.Registry.Defs.{is_success}
use d_app_libe.Interface.Defs.{
  Session, handle_subscription_request, subscription_response_of, subscribe,
}
use d_app_libe.Interface.Lifecycle.{
  E3Connector, E3Interface, init, start, stop, queue_outbound, start-stop-queue_outbound,
  init-Holds,
}
use d_app_libe.Interface.Answers.{handle_subscription_request-Holds, subscribe-positive}
use d_app_libe.Interface.Samples.{
  session-Holds, lamps, manager, session, draw, manager-IsConsistent, request,
}

handle_subscription_request-Holds_example :
    (s' : Session Bool ℕ) × (handle_subscription_request lamps request 21 draw session ≡ some s')
    × Holds s'.response_queue
        (push_contents
          (subscription_response_of request 21 (subscribe lamps request session).1 draw)
          session.response_queue
          [])
        4
handle_subscription_request-Holds_example =
    handle_subscription_request-Holds lamps request 21 draw session [] 4 session-Holds

subscribe-positive_example :
    Option-is_some (subscribe lamps request session).1
    ≡ is_subscribed 1 7 (subscribe lamps request session).0.subscription_manager
subscribe-positive_example = subscribe-positive lamps request session manager-IsConsistent

-- A connection is open or not, and can always be set up.
abbrev link : E3Connector Bool
link = record {
  setup_initial_connection = λ c. (ErrorCode.success, true);
  shutdown = λ c. false;
  dispose = λ c. false;
}

abbrev running_interface : E3Interface Bool ℕ Bool
running_interface = record {
  state = AgentState.running;
  should_stop = false;
  has_encoder = true;
  subscription_manager = some manager;
  response_queue = some session.response_queue;
  connector = some true;
  registry = session.registry;
}

start-stop-queue_outbound_example :
    (j : E3Interface Bool ℕ Bool) × (start link (stop link lamps running_interface)
      ≡ some (j, ErrorCode.success))
    × (j.state ≡ AgentState.running)
    × ((pdu : Pdu) → queue_outbound pdu j ≡ some (j, ErrorCode.not_initialized))
unfolding is_success
start-stop-queue_outbound_example =
    start-stop-queue_outbound link lamps running_interface session.response_queue true refl refl
      refl refl

abbrev new_interface : E3Interface Bool ℕ Bool
new_interface = record running_interface {
  state = AgentState.uninitialized;
  has_encoder = false;
  subscription_manager = none;
  response_queue = none;
  connector = none;
}

init-Holds_example :
    (j : E3Interface Bool ℕ Bool) × (q : ResponseQueue) × (m : SubscriptionManager) × (init true
        (some true)
        5
        new_interface
      ≡ some (j, ErrorCode.success))
    × (j.state ≡ AgentState.initialized)
    × (j.response_queue ≡ some q)
    × Holds q [] (2 ^ 62 - 1)
    × (q.shut_down ≡ false)
    × (j.subscription_manager ≡ some m)
    × IsConsistent m
    × (m.has_callback ≡ true)
init-Holds_example = init-Holds true 5 new_interface refl
