-- ===== src/Agent/Defs.antt =====
-- The members of E3Agent, and its methods but those that send or ask the subscription manager. The logger's calls are left out.
use d_app_libe.Base.{ℕ, Bool, true, false, if◌then◌else◌, Option, none, some, List, []}
use d_app_libe.Types.{ErrorCode, AgentState}
use d_app_libe.Registry.Defs.{ServiceModel, SmRegistry, is_success}
use d_app_libe.Registry.Defs as Models
use d_app_libe.Interface.Lifecycle.{E3Connector, E3Interface}
use d_app_libe.Interface.Lifecycle as Core

-- The interface with the handlers that were passed on to it.
pub record Hosted {ℓ} (Model Factory Connector Handler : Type ℓ) : Type ℓ where
  pub core : E3Interface Model Factory Connector
  pub dapp_report_handler : Option Handler
  pub dapp_status_changed_handler : Option Handler

-- `E3Agent::Impl`. While there is no interface, `registry` is the registry of service models, which
-- is one for the process; an interface has it in its own field.
pub record E3Agent {ℓ} (Model Factory Connector Handler : Type ℓ) : Type ℓ where
  pub interface : Option (Hosted Model Factory Connector Handler)
  pub dapp_report_handler : Option Handler
  pub dapp_status_changed_handler : Option Handler
  pub registry : SmRegistry Model Factory

abbrev pub is_running_state : AgentState → Bool
is_running_state AgentState.running = true
is_running_state s = false

-- `E3Interface(config)`.
unfoldable pub new_interface {ℓ} :
    {Model Factory Connector : Type ℓ}
    → SmRegistry Model Factory
    → E3Interface Model Factory Connector
new_interface registry = record {
  state = AgentState.uninitialized;
  should_stop = false;
  has_encoder = false;
  subscription_manager = none;
  response_queue = none;
  connector = none;
  registry = registry;
}

-- A null handler is kept by the agent, but not passed on.
abbrev pub passed_on {ℓ} : {Handler : Type ℓ} → Option Handler → Option Handler → Option Handler
passed_on none old = old
passed_on (some f) old = some f

module _ {ℓ} {Model Factory Connector Handler : Type ℓ} where
  -- As for E3Interface, the results of the factories and the clock are arguments, and `none` is a call
  -- that does not return.
  unfoldable pub init :
      Bool
      → Option Connector
      → ℕ
      → E3Agent Model Factory Connector Handler
      → Option (E3Agent Model Factory Connector Handler × ErrorCode)
  unfolding new_interface
  init encoder connector clock a = elim a.interface [
    | some h ↦ some (a, ErrorCode.already_initialized)
    | none ↦ elim (Core.init encoder connector clock (new_interface a.registry)) [
      | none ↦ none
      | some (i, code) ↦
          if is_success code
          then some (
            record a {
              interface = some (record {
                core = i;
                dapp_report_handler = a.dapp_report_handler;
                dapp_status_changed_handler = a.dapp_status_changed_handler;
              });
            },
            ErrorCode.success,
          )
          else some (a, code)
    ]
  ]

  unfoldable pub start_hosted :
      E3Connector Connector
      → Hosted Model Factory Connector Handler
      → E3Agent Model Factory Connector Handler
      → Option (E3Agent Model Factory Connector Handler × ErrorCode)
  start_hosted conn h a = elim (Core.start conn h.core) [
    | none ↦ none
    | some (i, code) ↦ some (record a { interface = some (record h { core = i }) }, code)
  ]

  -- `init()`, if there is no interface, and then a call on the interface.
  unfoldable pub with_interface :
      (Hosted Model Factory Connector Handler
        → E3Agent Model Factory Connector Handler
        → Option (E3Agent Model Factory Connector Handler × ErrorCode))
      → Bool
      → Option Connector
      → ℕ
      → E3Agent Model Factory Connector Handler
      → Option (E3Agent Model Factory Connector Handler × ErrorCode)
  with_interface call encoder connector clock a = elim a.interface [
    | some h ↦ call h a
    | none ↦ elim (init encoder connector clock a) [
      | none ↦ none
      | some (a', code) ↦
          if is_success code
          then elim a'.interface [ some h ↦ call h a' | none ↦ none ]
          else some (a', code)
    ]
  ]

  unfoldable pub start :
      E3Connector Connector
      → Bool
      → Option Connector
      → ℕ
      → E3Agent Model Factory Connector Handler
      → Option (E3Agent Model Factory Connector Handler × ErrorCode)
  unfolding with_interface start_hosted
  start conn = with_interface (start_hosted conn)

  unfoldable pub stop :
      E3Connector Connector
      → ServiceModel Model
      → E3Agent Model Factory Connector Handler
      → E3Agent Model Factory Connector Handler
  stop conn sm a = elim a.interface [
    | none ↦ a
    | some h ↦ record a { interface = some (record h { core = Core.stop conn sm h.core }) }
  ]

  unfoldable pub state : E3Agent Model Factory Connector Handler → AgentState
  state a = elim a.interface [ none ↦ AgentState.uninitialized | some h ↦ h.core.state ]

  unfoldable pub is_running : E3Agent Model Factory Connector Handler → Bool
  is_running a = elim a.interface [ none ↦ false | some h ↦ is_running_state h.core.state ]

  unfoldable pub register_hosted :
      ServiceModel Model
      → Model
      → Hosted Model Factory Connector Handler
      → E3Agent Model Factory Connector Handler
      → Option (E3Agent Model Factory Connector Handler × ErrorCode)
  register_hosted sm model h a =
      let (r, code) = Models.register_sm sm (some model) h.core.registry in
      some
        (record a { interface = some (record h { core = record h.core { registry = r } }) }, code)

  unfoldable pub register_sm :
      ServiceModel Model
      → Option Model
      → Bool
      → Option Connector
      → ℕ
      → E3Agent Model Factory Connector Handler
      → Option (E3Agent Model Factory Connector Handler × ErrorCode)
  unfolding with_interface register_hosted
  register_sm sm none encoder connector clock a = some (a, ErrorCode.invalid_param)
  register_sm sm (some model) encoder connector clock a =
      with_interface (register_hosted sm model) encoder connector clock a

  unfoldable pub get_available_ran_functions : E3Agent Model Factory Connector Handler → List ℕ
  get_available_ran_functions a = elim a.interface [
    | none ↦ []
    | some h ↦ Models.get_available_ran_functions h.core.registry
  ]

  unfoldable pub set_dapp_report_handler :
      Option Handler
      → E3Agent Model Factory Connector Handler
      → E3Agent Model Factory Connector Handler
  set_dapp_report_handler f a = record a {
    dapp_report_handler = f;
    interface = elim a.interface [
      | none ↦ none
      | some h ↦ some (record h { dapp_report_handler = passed_on f h.dapp_report_handler })
    ];
  }

  unfoldable pub set_dapp_status_changed_handler :
      Option Handler
      → E3Agent Model Factory Connector Handler
      → E3Agent Model Factory Connector Handler
  set_dapp_status_changed_handler f a = record a {
    dapp_status_changed_handler = f;
    interface = elim a.interface [
      | none ↦ none
      | some h ↦
          some
            (record h { dapp_status_changed_handler = passed_on f h.dapp_status_changed_handler })
    ];
  }
