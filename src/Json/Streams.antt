-- ===== src/Json/Streams.antt =====
-- The subscriber loop on octets that the encoder made.
use d_app_libe.Base.{
  ℕ, ◌≡◌, refl, Option, none, some, List, [], ◌∷◌, is_empty, false, inl, inr, Option-cases,
}
use d_app_libe.Types.{ErrorCode, Pdu, DAppControlAction}
use d_app_libe.Response.Defs.{ResponseQueue}
use d_app_libe.Registry.Defs.{ServiceModel}
use d_app_libe.Interface.Defs.{Session, Draw}
use d_app_libe.Interface.Dispatch.{dispatch}
use d_app_libe.Interface.Loops.{Receipt, subscriber_round, subscriber_rounds, subscriber_loop}
use d_app_libe.Encoder.{EncodeResult, EncodedMessage}
use d_app_libe.Json.Library.{Json, JsonLaws}
use d_app_libe.Json.Codec.{encode, decode}
use d_app_libe.Json.RoundTrip.Pdus.{IsValid}
use d_app_libe.Json.Delivery.{dispatch-decode-encode}

-- What E3Interface sees of the encoder's results.
abbrev pub octets_of : EncodeResult EncodedMessage → Option (List ℕ)
octets_of (EncodeResult.expected m) = some m.buffer
octets_of (EncodeResult.unexpected code) = none

abbrev pub pdu_of : EncodeResult Pdu → Option Pdu
pdu_of (EncodeResult.expected pdu) = some pdu
pdu_of (EncodeResult.unexpected code) = none

abbrev pub or_nothing : Option (List ℕ) → List ℕ
or_nothing none = []
or_nothing (some octets) = octets

module _ {J : Type 0} (json : Json J) (laws : JsonLaws json) where
  -- A message from a dApp, as it is received.
  abbrev pub receipt_of : Pdu × Draw → Receipt
  receipt_of (pdu, draw) = record { octets = or_nothing (octets_of (encode json pdu)); draw = draw }

  abbrev pub receipts_of : List (Pdu × Draw) → List Receipt
  receipts_of [] = []
  receipts_of (m ∷ ms) = receipt_of m ∷ receipts_of ms

  abbrev pub AllValid : List (Pdu × Draw) → Type 0
  AllValid [] = Unit
  AllValid (m ∷ ms) = IsValid m.0 × AllValid ms

  decoded_not_empty :
      (octets : List ℕ) (pdu : Pdu)
      → decode json octets ≡ EncodeResult.expected pdu
      → is_empty octets ≡ false
  unfolding decode
  decoded_not_empty [] pdu e = cc
  decoded_not_empty (o ∷ os) pdu e = refl

  module _ {ℓ} {Model Factory : Type ℓ} (sm : ServiceModel Model)
      (create : Factory → Option Model × Factory)
      (control : ℕ
        → DAppControlAction
        → Model
        → ResponseQueue
        → ErrorCode × Model × ResponseQueue) where
    -- The messages given to the switch one after the other.
    unfoldable pub dispatch_each :
        List (Pdu × Draw) → Session Model Factory → Option (Session Model Factory)
    dispatch_each [] s = some s
    dispatch_each ((pdu, draw) ∷ ms) s = elim (dispatch sm create control pdu draw s) [
      | none ↦ none
      | some s' ↦ dispatch_each ms s'
    ]

    abbrev pub to_octets : Pdu → Option (List ℕ)
    to_octets pdu = octets_of (encode json pdu)

    abbrev pub of_octets : List ℕ → Option Pdu
    of_octets octets = pdu_of (decode json octets)

    round_dispatches :
        (pdu : Pdu) (draw : Draw) (s : Session Model Factory)
        → IsValid pdu
        → subscriber_round sm create control to_octets of_octets (receipt_of (pdu, draw)) s
          ≡ dispatch sm create control pdu draw s
    unfolding subscriber_round
    round_dispatches pdu draw s valid =
        let (m, received, made, decoded, same) =
          dispatch-decode-encode json laws sm create control pdu draw s valid in
        rw (subscriber_round, made, decoded_not_empty m.buffer received decoded, decoded) same

    rounds_dispatch :
        (ms : List (Pdu × Draw)) (s : Session Model Factory)
        → AllValid ms
        → subscriber_rounds sm create control to_octets of_octets (receipts_of ms) s
          ≡ dispatch_each ms s
    unfolding subscriber_rounds dispatch_each
    rounds_dispatch [] s valid = refl
    rounds_dispatch ((pdu, draw) ∷ ms) s (valid, rest) =
        let first = round_dispatches pdu draw s valid in
        elim (Option-cases (dispatch sm create control pdu draw s)) [
          | inl stuck ↦ rw (subscriber_rounds, first) (rw (dispatch_each, stuck))
          | inr (s', e) ↦
              rw (subscriber_rounds, first) (rw (dispatch_each, e) (rounds_dispatch ms s' rest))
        ]

    -- Over a connection that was set up, subscriber_loop with the JSON encoder on the octets that
    -- the encoder makes of PDUs whose type is that of their contents and whose numbers fit the C++
    -- members ends as these PDUs, given to its switch one after the other: in the same session, or
    -- not at all.
    pub subscriber_loop-encode :
        (ms : List (Pdu × Draw)) (s : Session Model Factory)
        → AllValid ms
        → subscriber_loop sm create control to_octets of_octets ErrorCode.success (receipts_of ms) s
          ≡ dispatch_each ms s
    unfolding subscriber_loop
    subscriber_loop-encode ms s valid = rounds_dispatch ms s valid
