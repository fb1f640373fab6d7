-- ===== src/Interface/Threads/Tests.antt =====
-- A dApp that joins and subscribes while the publisher sends and a model emits.
use d_app_libe.Base.{
  ℕ, ◌≡◌, refl, if◌then◌else◌, Bool, Option, none, some, List, [], ◌∷◌, take, drop, length,
}
use d_app_libe.Types.{ErrorCode, Pdu, DAppControlAction, empty_pdu}
use d_app_libe.Response.Defs.{ResponseQueue}
use d_app_libe.Response.Contents.{Holds}
use d_app_libe.Interface.Defs.{Session}
use d_app_libe.Interface.Handlers.{InStep}
use d_app_libe.Interface.Loops.{Receipt, connects, publisher_loop}
use d_app_libe.Interface.Samples.{
  session-Holds, lamps, lamps-RunningLaws, session, draw, requested, session-InStep,
}
use d_app_libe.Interface.Threads.Steps.{
  Event, arrives, publishes, polls, emits, accept, after_push, encodings, run, accepted,
}
use d_app_libe.Interface.Threads.Flow.{after_push-Holds}
use d_app_libe.Interface.Threads.Order.{Flows, publisher_loop-Sends}
use d_app_libe.Interface.Threads.Service.{run-Flows}
use d_app_libe.Interface.Threads.InStep.{run-InStep}

-- A model that answers each control action with an empty PDU.
abbrev answer : ℕ → DAppControlAction → Bool → Option Pdu
answer n a s = some (empty_pdu n)

abbrev answering : ℕ → DAppControlAction → Bool → ResponseQueue → ErrorCode × Bool × ResponseQueue
answering n a s queue = (ErrorCode.success, s, after_push (answer n a s) queue)

abbrev by_id : Pdu → Option (List ℕ)
by_id pdu = some (pdu.message_id ∷ [])

abbrev read_request : List ℕ → Option Pdu
read_request octets = some requested

abbrev receipt : Receipt
receipt = record { octets = 1 ∷ []; draw = draw }

abbrev events : List Event
events = arrives receipt ∷ publishes 2 ∷ polls ∷ emits requested 9 ∷ []

run-Flows_example :
    (s' : Session Bool ℕ) × (sent : List (List ℕ)) × (run lamps
        (λ n. (none, n))
        answering
        answer
        (λ pdu. pdu)
        by_id
        read_request
        "1.0.0"
        "ran"
        events
        session
      ≡ some (s', sent))
    × Flows by_id s' sent []
        (accepted lamps
          (λ n. (none, n))
          answering
          answer
          (λ pdu. pdu)
          by_id
          read_request
          "1.0.0"
          "ran"
          events
          session)
        1
run-Flows_example =
    run-Flows lamps (λ n. (none, n)) answering answer (λ n a s queue. refl) (λ pdu. pdu) by_id
      read_request "1.0.0" "ran" events session [] 1 session-Holds

run-InStep_example :
    (s' : Session Bool ℕ) × (sent : List (List ℕ)) × (run lamps
        (λ n. (none, n))
        answering
        answer
        (λ pdu. pdu)
        by_id
        read_request
        "1.0.0"
        "ran"
        events
        session
      ≡ some (s', sent))
    × InStep lamps lamps-RunningLaws (λ s. refl) 7 s'
run-InStep_example =
    run-InStep lamps lamps-RunningLaws (λ s. refl) 7 (λ n. (none, n)) answering
      (λ n a s queue. refl) by_id read_request "1.0.0" "ran" answer (λ n a s queue. refl)
      (λ pdu. pdu) events session [] 1 session-Holds session-InStep

abbrev attempts : List ErrorCode
attempts = ErrorCode.connection_failed ∷ ErrorCode.success ∷ []

abbrev rounds : List ℕ
rounds = 1 ∷ 2 ∷ []

-- A session whose queue holds a PDU.
abbrev waiting : Session Bool ℕ
waiting = record session { response_queue = after_push (some requested) session.response_queue }

abbrev held : List Pdu
held = accept (some requested) session.response_queue

publisher_loop-Sends_example :
    (s' : Session Bool ℕ) × (publisher_loop (λ pdu. pdu) by_id attempts rounds waiting
      ≡ some (s', encodings by_id (take (if connects attempts then length rounds else 0) held)))
    × Holds s'.response_queue (drop (if connects attempts then length rounds else 0) held) 4
publisher_loop-Sends_example =
    publisher_loop-Sends (λ pdu. pdu) by_id attempts rounds waiting held 4
      (after_push-Holds (some requested) session.response_queue [] 4 session-Holds)
