-- ===== src/Response/Tests.antt =====
-- The queue of outbound PDUs at small sizes, and its theorems there.
use d_app_libe.Base.{ℕ, ◌≡◌, false, some, [], ◌∷◌, arith}
use d_app_libe.Types.{Pdu, PduType, PduChoice, empty_pdu, make_pdu, ResponseCode}
use d_app_libe.Mpmc.Defs.{of_capacity}
use d_app_libe.Mpmc.Fifo.{of_capacity-Represents}
use d_app_libe.Response.Defs.{ResponseQueue, shutdown, clear, pop, pop_timeout}
use d_app_libe.Response.Contents.{Holds, Pushed, push-Holds, push_contents, clear-Holds}
use d_app_libe.Response.Waiting.{quiet, shutdown_at, pop-Holds, pop-shutdown_at}

abbrev ack : ℕ → Pdu
ack n =
    make_pdu PduType.message_ack
      (PduChoice.message_ack (record { request_id = n; response_code = ResponseCode.positive })) 0

abbrev two_slots : ResponseQueue
two_slots = record { ring = of_capacity (empty_pdu 0) 2; shut_down = false }

two_slots-Holds : Holds two_slots [] 5
two_slots-Holds = of_capacity-Represents (empty_pdu 0) 1 5 (omega arith) (omega arith)

one-Pushed : Pushed (ack 1) two_slots [] 4
one-Pushed = push-Holds (ack 1) two_slots [] 4 two_slots-Holds

abbrev one_held : ResponseQueue
one_held = one-Pushed.0

one_held-Holds : Holds one_held (ack 1 ∷ []) 4
unfolding push_contents of_capacity
one_held-Holds = one-Pushed.2

push-Holds_example : Pushed (ack 2) one_held (ack 1 ∷ []) 3
push-Holds_example = push-Holds (ack 2) one_held (ack 1 ∷ []) 3 one_held-Holds

clear-Holds_example :
    (q : ResponseQueue) × (clear (λ x. x) 2 one_held ≡ some q)
    × Holds q [] 4
    × (q.shut_down ≡ one_held.shut_down)
clear-Holds_example = clear-Holds (λ x. x) 2 one_held (ack 1 ∷ []) 4 (omega arith) one_held-Holds

pop-Holds_example :
    (q : ResponseQueue) × (pop (λ x. x) quiet 9 0 one_held ≡ some (ack 1, q))
    × (pop_timeout (λ x. x) quiet 3 one_held ≡ some (some (ack 1), q))
    × Holds q [] 4
    × (q.shut_down ≡ one_held.shut_down)
pop-Holds_example = pop-Holds (λ x. x) one_held (ack 1) [] 4 one_held-Holds 9 0 3

pop-shutdown_at_example :
    pop (λ x. x) (shutdown_at 283) 9 2 two_slots ≡ some (empty_pdu 9, shutdown two_slots)
unfolding shutdown
pop-shutdown_at_example =
    pop-shutdown_at (λ x. x) 283 two_slots.ring 5 two_slots-Holds 9 2 (omega arith)
