-- ===== src/Agent/Tests.antt =====
-- An agent from its creation to an indication.
use d_app_libe.Base.{ℕ, suc, ◌≡◌, refl, Bool, true, false, none, some, [], ◌∷◌}
use d_app_libe.Types.{ErrorCode, AgentState}
use d_app_libe.Response.Defs.{ResponseQueue}
use d_app_libe.Response.Contents.{Holds, push_answer, push_contents}
use d_app_libe.Registry.Defs.{is_success}
use d_app_libe.Interface.Lifecycle.{E3Connector}
use d_app_libe.Interface.Samples.{lamps, session, draw, session-Holds}
use d_app_libe.Agent.Defs.{Hosted, E3Agent, is_running}
use d_app_libe.Agent.Phases.{Phase, Call, Meets}
use d_app_libe.Agent.Calls.{call, call-Meets}
use d_app_libe.Agent.Sends.{Manual, send, pdu_of, QueueIs, send-queues}

-- A connector that counts, and can always be set up.
abbrev counting : E3Connector ℕ
counting = record {
  setup_initial_connection = λ c. (ErrorCode.success, suc c);
  shutdown = λ c. c;
  dispose = λ c. c;
}

abbrev created : E3Agent Bool ℕ ℕ ℕ
created = record {
  interface = none;
  dapp_report_handler = some 1;
  dapp_status_changed_handler = none;
  registry = session.registry;
}

call-Meets_example :
    Meets (Phase.live, ErrorCode.success) (call counting lamps true (some 0) 4 Call.starts created)
unfolding is_success
call-Meets_example =
    call-Meets counting lamps true (some 0) 4 ErrorCode.success Call.starts Phase.bare created
      (λ k. refl) refl

abbrev hosted : Hosted Bool ℕ ℕ ℕ
hosted = record {
  core = record {
    state = AgentState.running;
    should_stop = false;
    has_encoder = true;
    subscription_manager = some session.subscription_manager;
    response_queue = some session.response_queue;
    connector = some 1;
    registry = session.registry;
  };
  dapp_report_handler = some 1;
  dapp_status_changed_handler = none;
}

abbrev running : E3Agent Bool ℕ ℕ ℕ
running = record created { interface = some hosted }

send-queues_example :
    (a' : E3Agent Bool ℕ ℕ ℕ) × (queue' : ResponseQueue) × (send
        (Manual.indication 1 7 (8 ∷ []))
        draw
        running
      ≡ some (a', push_answer session.response_queue []))
    × QueueIs a' queue'
    × Holds queue'
        (push_contents (pdu_of (Manual.indication 1 7 (8 ∷ [])) draw) session.response_queue [])
        4
    × (is_running a' ≡ true)
unfolding is_running
send-queues_example =
    send-queues (Manual.indication 1 7 (8 ∷ [])) draw running session.response_queue [] 4 refl
      (hosted, refl, refl) session-Holds
