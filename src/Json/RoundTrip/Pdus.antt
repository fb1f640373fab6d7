-- ===== src/Json/RoundTrip/Pdus.antt =====
-- Whole PDUs, from the encoder to the decoder.
use d_app_libe.Base.{ℕ, ◌<◌, ◌^◌, ◌≡◌, refl, sym, some, List, ◌∷◌}
use d_app_libe.Types.{EncodingFormat, Pdu}
use d_app_libe.Types.Names.{pdu_type_to_string}
use d_app_libe.Encoder.{EncodeResult, EncodedMessage}
use d_app_libe.Json.Library.{Json, JsonLaws}
use d_app_libe.Json.Objects.{reads_text, reads_uint32, reads_uint64, contains-object, at-object}
use d_app_libe.Json.Encode.{encode_choice, root_of}
use d_app_libe.Json.Codec.{encode, decode, decode_root}
use d_app_libe.Json.RoundTrip.Choices.{
  type_of, delivered, Fits, decode_choice-encode_choice, string_to_pdu_type-pdu_type_to_string,
}
use d_app_libe.Json.RoundTrip.Dumps.{root_of-IsDumpable}

-- The type goes with the message, and the numbers have the widths of the C++ members.
pub record IsValid (pdu : Pdu) : Type 0 where
  pub typed : type_of pdu.choice ≡ pdu.type
  pub fits : Fits pdu.choice
  pub id_fits : pdu.message_id < 2 ^ 32
  pub time_fits : pdu.timestamp < 2 ^ 64

abbrev pub delivered_pdu : Pdu → Pdu
delivered_pdu pdu = record pdu { choice = delivered pdu.choice }

module _ {J : Type 0} (json : Json J) (laws : JsonLaws json) where
  decode_root-root_of :
      (pdu : Pdu) → IsValid pdu → decode_root json (root_of json pdu) ≡ some (delivered_pdu pdu)
  unfolding decode_root root_of
  decode_root-root_of pdu valid = rw (
    reads_text json laws _ _ _ "pdu_type" (pdu_type_to_string pdu.type) "" refl,
    reads_uint32 json laws _ _ _ "message_id" pdu.message_id 0 valid.id_fits refl,
    reads_uint64 json laws _ _ _ "timestamp" pdu.timestamp 0 valid.time_fits refl,
    contains-object json laws _ _ _ "data",
    at-object json laws _ _ _ "data" (encode_choice json pdu.choice) refl,
    string_to_pdu_type-pdu_type_to_string pdu.type,
    sym valid.typed,
    decode_choice-encode_choice json laws pdu.choice valid.fits,
  )

  encode-dumps :
      (pdu : Pdu) (octets : List ℕ)
      → json.dump (root_of json pdu) ≡ some octets
      → encode json pdu
        ≡ EncodeResult.expected (record { buffer = octets; format = EncodingFormat.json })
  unfolding encode
  encode-dumps pdu octets e = rw (encode, e)

  decode-dumps :
      (pdu : Pdu) (b : ℕ) (bs : List ℕ)
      → IsValid pdu
      → json.dump (root_of json pdu) ≡ some (b ∷ bs)
      → decode json (b ∷ bs) ≡ EncodeResult.expected (delivered_pdu pdu)
  unfolding decode
  decode-dumps pdu b bs valid e =
      rw (laws.parse_dump (root_of json pdu) (b ∷ bs) e, decode_root-root_of pdu valid)

  -- For a JSON library that keeps its laws and a PDU whose type is that of its contents and whose
  -- numbers fit the C++ members, encode gives a message in the JSON format, and decode of its
  -- octets gives the PDU again, but that the periodicity of a subscription request is absent.
  pub decode-encode :
      (pdu : Pdu)
      → IsValid pdu
      → (m : EncodedMessage) × (encode json pdu ≡ EncodeResult.expected m)
        × (m.format ≡ EncodingFormat.json)
        × (decode json m.buffer ≡ EncodeResult.expected (delivered_pdu pdu))
  decode-encode pdu valid =
      let (b, bs, e) = laws.dump_dumpable (root_of json pdu) (root_of-IsDumpable json laws pdu) in
      (
        record { buffer = b ∷ bs; format = EncodingFormat.json },
        encode-dumps pdu (b ∷ bs) e,
        refl,
        decode-dumps pdu b bs valid e,
      )
