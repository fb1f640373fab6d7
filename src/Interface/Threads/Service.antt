-- ===== src/Interface/Threads/Service.antt =====
-- Runs of all threads.
use Prim.Native.String.{String}
use d_app_libe.Base.{
  ℕ, ◌+◌, ◌≡◌, refl, sym, subst, ap, ◌∙◌, Option, some, List, [], ◌∷◌, ◌++◌, length, arith,
  append_assoc, append_nil,
}
use d_app_libe.Types.{ErrorCode, Pdu, DAppControlAction}
use d_app_libe.Response.Defs.{ResponseQueue}
use d_app_libe.Response.Contents.{Holds}
use d_app_libe.Registry.Defs.{ServiceModel}
use d_app_libe.Interface.Defs.{Session}
use d_app_libe.Interface.Loops.{add_sent}
use d_app_libe.Interface.Threads.Order.{Flows, step-Flows, encodings-append, add_sent-append}
use d_app_libe.Interface.Threads.Steps.{Event, after_push, encodings, run, run-cons, accepted}

module _ {ℓ} {Model Factory : Type ℓ} (sm : ServiceModel Model)
    (create : Factory → Option Model × Factory)
    (control : ℕ → DAppControlAction → Model → ResponseQueue → ErrorCode × Model × ResponseQueue)
    (emission : ℕ → DAppControlAction → Model → Option Pdu)
    (control_emits : (n : ℕ) (a : DAppControlAction) (model : Model) (queue : ResponseQueue)
      → (control n a model queue).2 ≡ after_push (emission n a model) queue)
    (moved_from : Pdu → Pdu) (encode : Pdu → Option (List ℕ)) (decode : List ℕ → Option Pdu)
    (e3ap_version ran_identifier : String) where
  abbrev run_of :
      List Event → Session Model Factory → Option (Session Model Factory × List (List ℕ))
  run_of = run sm create control emission moved_from encode decode e3ap_version ran_identifier

  abbrev accepted_of : List Event → Session Model Factory → List Pdu
  accepted_of =
      accepted sm create control emission moved_from encode decode e3ap_version ran_identifier

  -- The flows of a step and of the rest.
  Flows-trans :
      (s' s'' : Session Model Factory) (out : Option (List ℕ)) (sent : List (List ℕ))
      (xs more more' : List Pdu) (room room' : ℕ)
      → (f : Flows encode s' (add_sent out []) xs more room)
      → Flows encode s'' sent f.left more' room'
      → Flows encode s'' (add_sent out sent) xs (more ++ more') room'
  Flows-trans s' s'' out sent xs more more' room room' f g = record {
    taken = f.taken ++ g.taken;
    left = g.left;
    in_order =
        sym (append_assoc xs more more')
        ∙ ap (λ zs. zs ++ more') f.in_order
        ∙ append_assoc f.taken f.left more'
        ∙ ap (λ zs. f.taken ++ zs) g.in_order
        ∙ sym (append_assoc f.taken g.taken g.left);
    sends =
        add_sent-append out sent
        ∙ ap (λ zs. zs ++ sent) f.sends
        ∙ ap (λ zs. encodings encode f.taken ++ zs) g.sends
        ∙ sym (encodings-append encode f.taken g.taken);
    holds = g.holds;
  }

  -- However the rounds of the threads and the PDUs from outside follow each other, every call
  -- returns, as long as the queue's positions are below 2^63; and what the publisher sends is the
  -- encodings, in order, of the first of the PDUs that were in the queue or that push took with
  -- SUCCESS, where they can be encoded, while the queue holds the others: none is lost, doubled or
  -- overtaken. A model queues at most one PDU while it handles a control action.
  pub run-Flows :
      (es : List Event) (s : Session Model Factory) (xs : List Pdu) (room : ℕ)
      → Holds s.response_queue xs (length es + room)
      → (s' : Session Model Factory) × (sent : List (List ℕ)) × (run_of es s ≡ some (s', sent))
        × Flows encode s' sent xs (accepted_of es s) room
  unfolding run accepted encodings
  run-Flows [] s xs room h = (
    s,
    [],
    refl,
    record {
      taken = [];
      left = xs;
      in_order = append_nil xs;
      sends = refl;
      holds = subst (λ n. Holds s.response_queue xs n) (omega arith) h;
    },
  )
  run-Flows (e ∷ es) s xs room h =
      let (s', out, made, f) =
        step-Flows sm create control emission control_emits moved_from encode decode e3ap_version
          ran_identifier e s xs (length es + room)
          (subst (λ n. Holds s.response_queue xs n) (omega arith) h) in
      let (s'', sent, rest, g) = run-Flows es s' f.left room f.holds in
      (
        s'',
        add_sent out sent,
        run-cons sm create control emission moved_from encode decode e3ap_version ran_identifier e
            es s s' s'' out sent made rest,
        rw (accepted, made) (Flows-trans s' s'' out sent xs _ (accepted_of es s') _ room f g),
      )
