-- ===== src/Agent/Phases.antt =====
-- The life of an agent in four phases, and what init, start and stop are to do in each.
use d_app_libe.Base.{Bool, if◌then◌else◌, Option, none, some, ◌≡◌}
use d_app_libe.Types.{ErrorCode, AgentState}
use d_app_libe.Registry.Defs.{is_success}
use d_app_libe.Agent.Defs.{Hosted, E3Agent}

-- Without an interface, initialized, running, and after a connection that could not be set up.
pub data Phase : Type 0 where
  bare ready live broken : Phase

pub data Call : Type 0 where
  inits starts stops : Call

-- The specification. `makes` says whether the encoder and the connector can be made, and `answer` is
-- the connector's answer when it sets up.
abbrev pub started : ErrorCode → Phase × ErrorCode
started answer =
    if is_success answer then (Phase.live, ErrorCode.success) else (Phase.broken, answer)

abbrev pub next : Bool → ErrorCode → Call → Phase → Phase × ErrorCode
next makes answer Call.inits Phase.bare =
    if makes then (Phase.ready, ErrorCode.success) else (Phase.bare, ErrorCode.internal_error)
next makes answer Call.inits p = (p, ErrorCode.already_initialized)
next makes answer Call.starts Phase.bare =
    if makes then started answer else (Phase.bare, ErrorCode.internal_error)
next makes answer Call.starts Phase.ready = started answer
next makes answer Call.starts p = (p, ErrorCode.state_error)
next makes answer Call.stops Phase.bare = (Phase.bare, ErrorCode.success)
next makes answer Call.stops p = (Phase.ready, ErrorCode.success)

abbrev pub state_of : Phase → AgentState
state_of Phase.bare = AgentState.uninitialized
state_of Phase.ready = AgentState.initialized
state_of Phase.live = AgentState.running
state_of Phase.broken = AgentState.error

module _ {ℓ} {Model Factory Connector Handler : Type ℓ} where
  -- An interface in this state, with a connector.
  pub record Hosts (s : AgentState) (a : E3Agent Model Factory Connector Handler) : Type ℓ where
    pub hosted : Hosted Model Factory Connector Handler
    pub connector : Connector
    pub there : a.interface ≡ some hosted
    pub in_state : hosted.core.state ≡ s
    pub connected : hosted.core.connector ≡ some connector

  abbrev pub InPhase : Phase → E3Agent Model Factory Connector Handler → Type ℓ
  InPhase Phase.bare a = a.interface ≡ none
  InPhase Phase.ready a = Hosts AgentState.initialized a
  InPhase Phase.live a = Hosts AgentState.running a
  InPhase Phase.broken a = Hosts AgentState.error a

  -- A call that returns, in the phase and with the code of the specification.
  abbrev pub Meets :
      Phase × ErrorCode → Option (E3Agent Model Factory Connector Handler × ErrorCode) → Type ℓ
  Meets (p, code) r =
      (a' : E3Agent Model Factory Connector Handler) × (r ≡ some (a', code)) × InPhase p a'
