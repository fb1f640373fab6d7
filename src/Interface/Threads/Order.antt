-- ===== src/Interface/Threads/Order.antt =====
-- What the publisher sends against what the queue took.
use Prim.Native.String.{String}
use d_app_libe.Base.{
  ℕ, suc, ◌≡◌, refl, ap, if◌then◌else◌, Option, none, some, List, [], ◌∷◌, ◌++◌, is_empty, length,
  inl, inr, Bool-cases, Option-cases, append_nil, drop, take,
}
use d_app_libe.Types.{ErrorCode, Pdu, DAppControlAction}
use d_app_libe.Response.Defs.{ResponseQueue}
use d_app_libe.Response.Contents.{Holds}
use d_app_libe.Response.Waiting.{pop-Holds, pop_timeout-nil}
use d_app_libe.Mpmc.Fifo.{Represents-weaken}
use d_app_libe.Registry.Defs.{ServiceModel}
use d_app_libe.Interface.Defs.{Session}
use d_app_libe.Interface.Dispatch.{dispatch}
use d_app_libe.Interface.Loops.{
  Receipt, connects, subscriber_round, publisher_round, publisher_rounds, publisher_loop,
  outbound_emitter, with_message_id, sm_data_round, setup_round, add_sent, encoded,
}
use d_app_libe.Interface.Threads.Quiet.{sm_data_round-response_queue, setup_round-response_queue}
use d_app_libe.Interface.Threads.Flow.{
  Offers, dispatch_on-Offers, after_push-Holds, queue_outbound-after_push,
}
use d_app_libe.Interface.Threads.Steps.{
  Event, joins, arrives, publishes, polls, emits, accept, after_push, encodings, step, offered,
}

pub encodings-append :
    (encode : Pdu → Option (List ℕ)) (xs ys : List Pdu)
    → encodings encode (xs ++ ys) ≡ encodings encode xs ++ encodings encode ys
unfolding encodings
encodings-append encode [] ys = refl
encodings-append encode (x ∷ xs) ys = elim (Option-cases (encode x)) [
  | inl failed ↦ rw (encodings, failed) (encodings-append encode xs ys)
  | inr (octets, made) ↦
      rw (encodings, made) (ap (λ zs. octets ∷ zs) (encodings-append encode xs ys))
]

pub add_sent-append {ℓ} :
    {A : Type ℓ} (o : Option A) (xs : List A) → add_sent o xs ≡ add_sent o [] ++ xs
add_sent-append none xs = refl
add_sent-append (some x) xs = refl

module _ {ℓ} {Model Factory : Type ℓ} (moved_from : Pdu → Pdu)
    (encode : Pdu → Option (List ℕ)) where
  -- A round of the publisher takes the oldest PDU and sends it, or finds nothing.
  pub publisher_round-cons :
      (before : ℕ) (s : Session Model Factory) (x : Pdu) (xs : List Pdu) (room : ℕ)
      → Holds s.response_queue (x ∷ xs) room
      → (q : ResponseQueue) × (publisher_round moved_from encode before s
          ≡ some (record s { response_queue = q }, encode x))
        × Holds q xs room
  unfolding publisher_round encoded
  publisher_round-cons before s x xs room h =
      let (q, e, e', held, same) = pop-Holds moved_from s.response_queue x xs room h 0 0 before in
      (q, rw (publisher_round, e'), held)

  pub publisher_round-nil :
      (before : ℕ) (s : Session Model Factory) (room : ℕ)
      → Holds s.response_queue [] room
      → publisher_round moved_from encode before s ≡ some (s, none)
  unfolding publisher_round encoded
  publisher_round-nil before s room h =
      rw (publisher_round, pop_timeout-nil moved_from room s.response_queue before h)

  publisher_rounds_idle :
      (rounds : List ℕ) (s : Session Model Factory) (room : ℕ)
      → Holds s.response_queue [] room
      → publisher_rounds moved_from encode rounds s ≡ some (s, [])
  unfolding publisher_rounds
  publisher_rounds_idle [] s room h = refl
  publisher_rounds_idle (before ∷ rest) s room h =
      rw (publisher_rounds, publisher_round-nil before s room h)
        (rw (publisher_rounds_idle rest s room h))

  publisher_rounds-Sends :
      (rounds : List ℕ) (s : Session Model Factory) (xs : List Pdu) (room : ℕ)
      → Holds s.response_queue xs room
      → (s' : Session Model Factory) × (publisher_rounds moved_from encode rounds s
          ≡ some (s', encodings encode (take (length rounds) xs)))
        × Holds s'.response_queue (drop (length rounds) xs) room
  unfolding publisher_rounds encodings
  publisher_rounds-Sends [] s xs room h = (s, refl, h)
  publisher_rounds-Sends (before ∷ rest) s [] room h =
      (s, publisher_rounds_idle (before ∷ rest) s room h, h)
  publisher_rounds-Sends (before ∷ rest) s (x ∷ xs) room h =
      let (q, e, held) = publisher_round-cons before s x xs room h in
      let (s', e', held') =
        publisher_rounds-Sends rest (record s { response_queue = q }) xs room held in
      (s', rw (publisher_rounds, e) (rw e'), held')

  -- Once the outbound connection stands, publisher_loop takes one PDU in each round, the oldest,
  -- while there are any, and sends the encodings of those that can be encoded, in order; the others
  -- of the queue stay. Without the connection it sends nothing and leaves the queue. In either case
  -- it returns.
  pub publisher_loop-Sends :
      (attempts : List ErrorCode) (rounds : List ℕ) (s : Session Model Factory) (xs : List Pdu)
      (room : ℕ)
      → Holds s.response_queue xs room
      → (s' : Session Model Factory) × (publisher_loop moved_from encode attempts rounds s
          ≡ some (s', encodings encode (take (if connects attempts then length rounds else 0) xs)))
        × Holds s'.response_queue (drop (if connects attempts then length rounds else 0) xs) room
  unfolding publisher_loop encodings
  publisher_loop-Sends attempts rounds s xs room h = elim (Bool-cases (connects attempts)) [
    | inl connected ↦ rw (publisher_loop, connected) (publisher_rounds-Sends rounds s xs room h)
    | inr unconnected ↦ rw (publisher_loop, unconnected) (s, refl, h)
  ]

-- Of the PDUs that were there and those that are accepted, the first are taken, and sent where they
-- can be encoded; the others are still there.
pub record Flows {ℓ} {Model Factory : Type ℓ} (encode : Pdu → Option (List ℕ))
    (s' : Session Model Factory) (sent : List (List ℕ)) (xs more : List Pdu) (room : ℕ)
    : Type 0 where
  pub taken : List Pdu
  pub left : List Pdu
  pub in_order : xs ++ more ≡ taken ++ left
  pub sends : sent ≡ encodings encode taken
  pub holds : Holds s'.response_queue left room

module _ {ℓ} {Model Factory : Type ℓ} (sm : ServiceModel Model)
    (create : Factory → Option Model × Factory)
    (control : ℕ → DAppControlAction → Model → ResponseQueue → ErrorCode × Model × ResponseQueue)
    (emission : ℕ → DAppControlAction → Model → Option Pdu)
    (control_emits : (n : ℕ) (a : DAppControlAction) (model : Model) (queue : ResponseQueue)
      → (control n a model queue).2 ≡ after_push (emission n a model) queue)
    (moved_from : Pdu → Pdu) (encode : Pdu → Option (List ℕ)) (decode : List ℕ → Option Pdu)
    (e3ap_version ran_identifier : String) where
  abbrev pub one : Event → Session Model Factory → Option (Session Model Factory × Option (List ℕ))
  one = step sm create control emission moved_from encode decode e3ap_version ran_identifier

  abbrev pub offer : Event → Session Model Factory → Option Pdu
  offer = offered sm create control emission moved_from encode decode e3ap_version ran_identifier

  kept :
      (o : Option Pdu) (s s' : Session Model Factory) (xs : List Pdu) (room : ℕ)
      → Holds s.response_queue xs (suc room)
      → s'.response_queue ≡ after_push o s.response_queue
      → Flows encode s' (add_sent none []) xs (accept o s.response_queue) room
  unfolding encodings
  kept o s s' xs room h same = record {
    taken = [];
    left = xs ++ accept o s.response_queue;
    in_order = refl;
    sends = refl;
    holds = rw same (after_push-Holds o s.response_queue xs room h);
  }

  subscriber_round-Offers :
      (r : Receipt) (s : Session Model Factory) (xs : List Pdu) (room : ℕ)
      → Holds s.response_queue xs (suc room)
      → Offers
          (subscriber_round sm create control encode decode r s)
          (offer (arrives r) s)
          s.response_queue
  unfolding subscriber_round offered dispatch after_push
  subscriber_round-Offers r s xs room h = elim (Bool-cases (is_empty r.octets)) [
    | inl nothing ↦ (s, rw (subscriber_round, nothing), rw (offered, nothing))
    | inr received ↦ elim (Option-cases (decode r.octets)) [
      | inl undecoded ↦
          (s, rw (subscriber_round, received, undecoded), rw (offered, received, undecoded))
      | inr (pdu, decoded) ↦
          let (s', e, q) =
            dispatch_on-Offers sm create control emission control_emits pdu.type pdu.choice
              pdu.message_id r.draw s xs room h in
          (s', rw (subscriber_round, received, decoded) e, rw (offered, received, decoded) q)
    ]
  ]

  pub step-Flows :
      (e : Event) (s : Session Model Factory) (xs : List Pdu) (room : ℕ)
      → Holds s.response_queue xs (suc room)
      → (s' : Session Model Factory) × (out : Option (List ℕ)) × (one e s ≡ some (s', out))
        × Flows encode s' (add_sent out []) xs (accept (offer e s) s.response_queue) room
  unfolding step offered accept after_push encodings outbound_emitter
  step-Flows (joins r) s xs room h =
      let s' = (setup_round sm create control encode decode e3ap_version ran_identifier r s).0 in
      (
        s',
        none,
        refl,
        kept none s s' xs room h (
            setup_round-response_queue sm create control encode decode e3ap_version ran_identifier r
              s),
      )
  step-Flows (arrives r) s xs room h =
      let (s', e, q) = subscriber_round-Offers r s xs room h in
      (s', none, rw (step, e), kept (offer (arrives r) s) s s' xs room h q)
  step-Flows (publishes before) s [] room h = (
    s,
    none,
    publisher_round-nil moved_from encode before s (suc room) h,
    kept none s s [] room h refl,
  )
  step-Flows (publishes before) s (x ∷ xs) room h =
      let (q, e, held) = publisher_round-cons moved_from encode before s x xs (suc room) h in
      (
        record s { response_queue = q },
        encode x,
        e,
        record {
          taken = x ∷ [];
          left = xs;
          in_order = append_nil (x ∷ xs);
          sends = refl;
          holds = Represents-weaken q.ring xs room held;
        },
      )
  step-Flows polls s xs room h =
      let s' = sm_data_round sm create control s in
      (s', none, refl, kept none s s' xs room h (sm_data_round-response_queue sm create control s))
  step-Flows (emits pdu drawn) s xs room h =
      let pdu' = with_message_id pdu drawn in
      let s' : Session Model Factory = record s {
        response_queue = after_push (some pdu') s.response_queue;
      } in
      (
        s',
        none,
        rw (step, outbound_emitter, queue_outbound-after_push pdu' s xs room h),
        kept (some pdu') s s' xs room h refl,
      )
