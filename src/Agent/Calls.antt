-- ===== src/Agent/Calls.antt =====
-- init, start and stop against the phases.
use d_app_libe.Base.{ℕ, Bool, ◌&&◌, Option, some, ◌≡◌, refl, ap, ◌∙◌, Option-is_some}
use d_app_libe.Types.{ErrorCode, AgentState}
use d_app_libe.Registry.Defs.{ServiceModel}
use d_app_libe.Interface.Lifecycle.{E3Connector, E3Interface, default_capacity}
use d_app_libe.Interface.Lifecycle as Core
use d_app_libe.Agent.Defs.{E3Agent, init, start, stop}
use d_app_libe.Agent.Phases.{Phase, Call, next, Hosts, InPhase, Meets}
use d_app_libe.Agent.Starts.{
  init-Meets, start_hosted-Meets, start-bare, start-start_hosted, refuses_start,
}

module _ {ℓ} {Model Factory Connector Handler : Type ℓ} where
  -- What stop leaves, if the interface's stop goes past its test.
  stop-Hosts :
      (conn : E3Connector Connector) (sm : ServiceModel Model) {s : AgentState}
      (a : E3Agent Model Factory Connector Handler) (h : Hosts s a)
      → Core.stop conn sm h.hosted.core ≡ Core.stop_all conn sm h.hosted.core
      → Hosts AgentState.initialized (stop conn sm a)
  unfolding stop Core.stop_all
  stop-Hosts conn sm a h e =
      let there = h.there in
      let connected = h.connected in
      record {
        hosted = record h.hosted { core = Core.stop_all conn sm h.hosted.core };
        connector = conn.dispose (conn.shutdown h.connector);
        there = simp (stop, there, e);
        in_state = refl;
        connected = simp (Core.stop_all, connected);
      }

  module _ (conn : E3Connector Connector) (sm : ServiceModel Model) (encoder : Bool)
      (made : Option Connector) (clock : ℕ) where
    -- A call of a method; stop has no result, and counts as successful.
    unfoldable pub call :
        Call
        → E3Agent Model Factory Connector Handler
        → Option (E3Agent Model Factory Connector Handler × ErrorCode)
    unfolding init start stop
    call Call.inits a = init encoder made clock a
    call Call.starts a = start conn encoder made clock a
    call Call.stops a = some (stop conn sm a, ErrorCode.success)

    -- From each of four phases (no interface, initialized, running, and after a connection that
    -- could not be set up), init, start and stop of E3Agent return and lead to the phase that the
    -- specification says, with its code, for every connector whose setup gives one answer: init
    -- makes the interface if the encoder and the connector can be made and else leaves none; start
    -- makes it first if there is none, runs if the connection can be set up, and is refused with
    -- STATE_ERROR while the agent runs or after a failed setup; stop leads back to initialized.
    pub call-Meets :
        (answer : ErrorCode) (c : Call) (p : Phase) (a : E3Agent Model Factory Connector Handler)
        → ((k : Connector) → (conn.setup_initial_connection k).0 ≡ answer)
        → InPhase p a
        → Meets (next (encoder && Option-is_some made) answer c p) (call c a)
    unfolding call init stop Core.start Core.stop
    call-Meets answer Call.inits Phase.bare a answers h = init-Meets encoder made clock a h
    call-Meets answer Call.inits Phase.ready a answers h =
        let there = h.there in (a, simp (init, there), h)
    call-Meets answer Call.inits Phase.live a answers h =
        let there = h.there in (a, simp (init, there), h)
    call-Meets answer Call.inits Phase.broken a answers h =
        let there = h.there in (a, simp (init, there), h)
    call-Meets answer Call.starts Phase.bare a answers h =
        start-bare conn answer encoder made clock a answers h
    call-Meets answer Call.starts Phase.ready a answers h =
        let (a', e, h') = start_hosted-Meets conn answer a h answers in
        (a', start-start_hosted conn encoder made clock a h ∙ e, h')
    call-Meets answer Call.starts Phase.live a answers h =
        let in_state = h.in_state in
        let (a', e, h') = refuses_start conn a h (simp (Core.start, in_state)) in
        (a', start-start_hosted conn encoder made clock a h ∙ e, h')
    call-Meets answer Call.starts Phase.broken a answers h =
        let in_state = h.in_state in
        let (a', e, h') = refuses_start conn a h (simp (Core.start, in_state)) in
        (a', start-start_hosted conn encoder made clock a h ∙ e, h')
    call-Meets answer Call.stops Phase.bare a answers h =
        let same : stop conn sm a ≡ a = simp (stop, h) in
        (stop conn sm a, refl, ap (λ b. b.interface) same ∙ h)
    call-Meets answer Call.stops Phase.ready a answers h =
        let in_state = h.in_state in
        (stop conn sm a, refl, stop-Hosts conn sm a h (simp (Core.stop, in_state)))
    call-Meets answer Call.stops Phase.live a answers h =
        let in_state = h.in_state in
        (stop conn sm a, refl, stop-Hosts conn sm a h (simp (Core.stop, in_state)))
    call-Meets answer Call.stops Phase.broken a answers h =
        let in_state = h.in_state in
        (stop conn sm a, refl, stop-Hosts conn sm a h (simp (Core.stop, in_state)))
