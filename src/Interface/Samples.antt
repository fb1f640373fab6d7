-- ===== src/Interface/Samples.antt =====
-- Models that are switches, and a session with one of them.
use d_app_libe.Base.{ℕ, none, find, insert_or_assign, refl, arith, Bool, true, false, [], ◌∷◌}
use d_app_libe.Types.{
  ErrorCode, DAppControlAction, empty_pdu, Pdu, PduType, PduChoice, SubscriptionRequest,
}
use d_app_libe.Subscription.State.{
  SubscriptionManager, create, set_sm_lifecycle_callback, has_subscribers,
}
use d_app_libe.Subscription.Commands.{sets_callback, registers, step, step-IsConsistent}
use d_app_libe.Mpmc.Fifo.{of_capacity-Represents}
use d_app_libe.Response.Contents.{Holds}
use d_app_libe.Mpmc.Defs.{of_capacity}
use d_app_libe.Response.Defs.{ResponseQueue}
use d_app_libe.Registry.Defs.{ServiceModel, RunningLaws, is_sm_running}
use d_app_libe.Subscription.Register.{register_dapp, search_free, enter_dapp}
use d_app_libe.Subscription.Invariant.{IsConsistent, create-IsConsistent}
use d_app_libe.Interface.Handlers.{InStep}
use d_app_libe.Interface.Defs.{Session, Draw}

-- A model is on or off, and always starts.
abbrev pub lamps : ServiceModel Bool
lamps = record {
  ran_function_id = λ s. 7;
  telemetry_ids = λ s. [];
  control_ids = λ s. [];
  ran_function_data = λ s. [];
  init = λ s. (ErrorCode.success, s);
  destroy = λ s. s;
  start = λ s. (ErrorCode.success, true);
  stop = λ s. false;
  is_running = λ s. s;
}

pub lamps-RunningLaws : RunningLaws lamps
lamps-RunningLaws = record { start_runs = λ s h. refl; stop_stops = λ s. refl }

-- A manager with a callback and the dApp 1.
abbrev pub manager : SubscriptionManager
manager = (step (registers 0) (step sets_callback create).0).0

abbrev pub session : Session Bool ℕ
session = record {
  subscription_manager = manager;
  response_queue = record { ring = of_capacity (empty_pdu 0) 4; shut_down = false };
  registry = record { sms = (7, false) ∷ []; factories = [] };
  has_status_handler = true;
  has_report_handler = false;
  status_changes = 0;
  reports = [];
}

abbrev pub draw : Draw
draw = record { message_id = 500; clock = 4 }

abbrev pub control : ℕ → DAppControlAction → Bool → ResponseQueue → ErrorCode × Bool × ResponseQueue
control n a s queue = (ErrorCode.success, s, queue)

pub session-Holds : Holds session.response_queue [] 5
session-Holds = of_capacity-Represents (empty_pdu 0) 2 5 (omega arith) (omega arith)

pub manager-IsConsistent : IsConsistent manager
manager-IsConsistent =
    step-IsConsistent (registers 0) (step sets_callback create).0
      (step-IsConsistent sets_callback create create-IsConsistent)

pub session-InStep : InStep lamps lamps-RunningLaws (λ s. refl) 7 session
unfolding step create set_sm_lifecycle_callback register_dapp search_free enter_dapp find
    insert_or_assign is_sm_running has_subscribers
session-InStep = record {
  consistent = manager-IsConsistent;
  has_callback = refl;
  present = refl;
  tracks = refl;
}

abbrev pub request : SubscriptionRequest
request = record {
  dapp_identifier = 1;
  ran_function_identifier = 7;
  telemetry_identifier_list = [];
  control_identifier_list = [];
  subscription_time = none;
  periodicity = none;
}

abbrev pub requested : Pdu
requested = record {
  type = PduType.subscription_request;
  choice = PduChoice.subscription_request request;
  message_id = 21;
  timestamp = 3;
}
