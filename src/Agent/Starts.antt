-- ===== src/Agent/Starts.antt =====
-- init and start against the phases.
use d_app_libe.Base.{
  ℕ, Bool, true, false, ◌&&◌, Option, none, some, ◌≡◌, refl, Option-is_some, inl, inr, Bool-cases,
  arith,
}
use d_app_libe.Types.{ErrorCode, AgentState}
use d_app_libe.Subscription.State.{create, set_sm_lifecycle_callback}
use d_app_libe.Response.Defs.{ResponseQueue}
use d_app_libe.Response.Contents.{create-Holds}
use d_app_libe.Registry.Defs.{is_success}
use d_app_libe.Interface.Lifecycle.{E3Connector, E3Interface, default_capacity}
use d_app_libe.Interface.Lifecycle as Core
use d_app_libe.Agent.Defs.{
  Hosted, E3Agent, new_interface, init, start_hosted, with_interface, start,
}
use d_app_libe.Agent.Phases.{Phase, Call, started, next, Hosts, Meets}

module _ {ℓ} {Model Factory Connector Handler : Type ℓ} where
  made_by :
      (c : Connector) (clock : ℕ)
      → E3Agent Model Factory Connector Handler
      → ResponseQueue
      → Hosted Model Factory Connector Handler
  made_by c clock a queue = record {
    core = record {
      state = AgentState.initialized;
      should_stop = false;
      has_encoder = true;
      subscription_manager = some (set_sm_lifecycle_callback create);
      response_queue = some queue;
      connector = some c;
      registry = a.registry;
    };
    dapp_report_handler = a.dapp_report_handler;
    dapp_status_changed_handler = a.dapp_status_changed_handler;
  }

  pub init-Meets :
      (encoder : Bool) (made : Option Connector) (clock : ℕ)
      (a : E3Agent Model Factory Connector Handler)
      → a.interface ≡ none
      → Meets
          (next (encoder && Option-is_some made) ErrorCode.success Call.inits Phase.bare)
          (init encoder made clock a)
  unfolding init new_interface Core.init made_by is_success
  init-Meets false made clock a e = (a, simp (init, e), e)
  init-Meets true none clock a e =
      let (q, queue, held, opened, enough) = create-Holds clock default_capacity (omega arith) in
      (a, simp (init, e, queue), e)
  init-Meets true (some c) clock a e =
      let (q, queue, held, opened, enough) = create-Holds clock default_capacity (omega arith) in
      (
        record a { interface = some (made_by c clock a q) },
        rw (init, e, queue),
        record {
          hosted = made_by c clock a q;
          connector = c;
          there = refl;
          in_state = refl;
          connected = refl;
        },
      )

  pub start_hosted-Meets :
      (conn : E3Connector Connector) (answer : ErrorCode)
      (a : E3Agent Model Factory Connector Handler) (h : Hosts AgentState.initialized a)
      → ((k : Connector) → (conn.setup_initial_connection k).0 ≡ answer)
      → Meets (started answer) (start_hosted conn h.hosted a)
  unfolding start_hosted Core.start
  start_hosted-Meets conn answer a h answers =
      let (code, c) = conn.setup_initial_connection h.connector in
      let same : code ≡ answer = answers h.connector in
      elim (Bool-cases (is_success answer)) [
        | inl good ↦
            let h' = record h.hosted {
              core = record h.hosted.core {
                state = AgentState.running;
                should_stop = false;
                connector = some c;
              };
            } in
            let good' : is_success code ≡ true = rw same good in
            rw good (
              record a { interface = some h' },
              rw (start_hosted, Core.start, h.in_state, h.connected, good'),
              record {
                hosted = h';
                connector = c;
                there = refl;
                in_state = refl;
                connected = refl;
              },
            )
        | inr bad ↦
            let h' = record h.hosted {
              core = record h.hosted.core {
                state = AgentState.error;
                should_stop = false;
                connector = some c;
              };
            } in
            let bad' : is_success code ≡ false = rw same bad in
            rw bad (
              record a { interface = some h' },
              rw (start_hosted, Core.start, h.in_state, h.connected, bad', same),
              record {
                hosted = h';
                connector = c;
                there = refl;
                in_state = refl;
                connected = refl;
              },
            )
      ]

  pub start-bare :
      (conn : E3Connector Connector) (answer : ErrorCode) (encoder : Bool) (made : Option Connector)
      (clock : ℕ) (a : E3Agent Model Factory Connector Handler)
      → ((k : Connector) → (conn.setup_initial_connection k).0 ≡ answer)
      → a.interface ≡ none
      → Meets
          (next (encoder && Option-is_some made) answer Call.starts Phase.bare)
          (start conn encoder made clock a)
  unfolding start with_interface is_success
  start-bare conn answer false made clock a answers e =
      let (a', ie, h) = init-Meets false made clock a e in
      (a', simp (start, with_interface, e, ie), h)
  start-bare conn answer true none clock a answers e =
      let (a', ie, h) = init-Meets true none clock a e in
      (a', simp (start, with_interface, e, ie), h)
  start-bare conn answer true (some c) clock a answers e =
      let (a', ie, h) = init-Meets true (some c) clock a e in
      let there = h.there in
      let (a'', se, h') = start_hosted-Meets conn answer a' h answers in
      (a'', simp (start, with_interface, e, ie, there) se, h')

  -- A call of start where there is an interface.
  pub start-start_hosted :
      (conn : E3Connector Connector) (encoder : Bool) (made : Option Connector) (clock : ℕ)
      {s : AgentState} (a : E3Agent Model Factory Connector Handler) (h : Hosts s a)
      → start conn encoder made clock a ≡ start_hosted conn h.hosted a
  unfolding start with_interface
  start-start_hosted conn encoder made clock a h =
      let there = h.there in simp (start, with_interface, there)

  pub refuses_start :
      (conn : E3Connector Connector) {s : AgentState} (a : E3Agent Model Factory Connector Handler)
      (h : Hosts s a)
      → Core.start conn h.hosted.core ≡ some (h.hosted.core, ErrorCode.state_error)
      → (a' : E3Agent Model Factory Connector Handler) × (start_hosted conn h.hosted a
          ≡ some (a', ErrorCode.state_error))
        × Hosts s a'
  unfolding start_hosted
  refuses_start conn a h e = (
    record a { interface = some h.hosted },
    simp (start_hosted, e),
    record {
      hosted = h.hosted;
      connector = h.connector;
      there = refl;
      in_state = h.in_state;
      connected = h.connected;
    },
  )
