-- ===== src/Sucker/Codec.antt =====
-- internal/entity/sucker_payload_easyjson.go: the JSON of a payload and of its detections, decoded and
-- encoded. A decoder gives `none` where the fuel does not suffice.
pub mod Trees
pub mod RoundTrip
use api_poll.Prelude.{ℕ, Bool, List, [], ◌∷◌, Option, none, some, Bytes, utf8}
use api_poll.Prelude.Int.{ℤ, pos}
use api_poll.Json.{Lexer}
use api_poll.Json.Decode.{
  Case, on_read, read_object, unmarshal_json, set_int64, set_string, set_list,
}
use api_poll.Json.Encode.{output, Writer, steps, write_slice}
use api_poll.Sucker.{Detection, SuckerPayload}

abbrev pub zero_detection : Detection
zero_detection = record { ticker = [] }

abbrev pub zero_payload : SuckerPayload
zero_payload = record {
  id = pos 0;
  time = pos 0;
  announcement = [];
  original_title = [];
  url = [];
  exchange = [];
  type = [];
  detections = [];
}

module _ {L : Type 0} (lexer : Lexer L) where
  unfoldable pub detection_cases : List (Case lexer Detection)
  detection_cases = (utf8 "ticker", set_string lexer (λ s d. record d { ticker = s })) ∷ []

  unfoldable pub payload_cases : List (Case lexer SuckerPayload)
  unfolding detection_cases
  payload_cases =
      (utf8 "id", set_int64 lexer (λ n p. record p { id = n }))
      ∷ (utf8 "time", set_int64 lexer (λ n p. record p { time = n }))
      ∷ (utf8 "announcement", set_string lexer (λ s p. record p { announcement = s }))
      ∷ (utf8 "original_title", set_string lexer (λ s p. record p { original_title = s }))
      ∷ (utf8 "url", set_string lexer (λ s p. record p { url = s }))
      ∷ (utf8 "exchange", set_string lexer (λ s p. record p { exchange = s }))
      ∷ (utf8 "type", set_string lexer (λ s p. record p { type = s }))
      ∷ (
        utf8 "detections",
        set_list lexer detection_cases zero_detection (λ p. p.detections)
            (λ ds p. record p { detections = ds }),
      )
      ∷ []

  unfoldable pub unmarshal_payload :
      (Bytes → L) → ℕ → Bytes → SuckerPayload → Option (SuckerPayload × Bool)
  unfolding payload_cases unmarshal_json
  unmarshal_payload = unmarshal_json lexer payload_cases

module _ {W : Type 0} (writer : Writer W) where
  unfoldable pub encode_detection : Detection → W → W
  unfolding steps
  encode_detection d = steps (
      writer.raw_string (utf8 "{")
      ∷ writer.raw_string (utf8 "\"ticker\":")
      ∷ writer.string d.ticker
      ∷ writer.raw_string (utf8 "}")
      ∷ [])

  -- The flag says whether an empty slice of detections is nil.
  unfoldable pub encode_payload : Bool → SuckerPayload → W → W
  unfolding steps write_slice encode_detection
  encode_payload nil p = steps (
      writer.raw_string (utf8 "{")
      ∷ writer.raw_string (utf8 "\"id\":")
      ∷ writer.int64 p.id
      ∷ writer.raw_string (utf8 ",\"time\":")
      ∷ writer.int64 p.time
      ∷ writer.raw_string (utf8 ",\"announcement\":")
      ∷ writer.string p.announcement
      ∷ writer.raw_string (utf8 ",\"original_title\":")
      ∷ writer.string p.original_title
      ∷ writer.raw_string (utf8 ",\"url\":")
      ∷ writer.string p.url
      ∷ writer.raw_string (utf8 ",\"exchange\":")
      ∷ writer.string p.exchange
      ∷ writer.raw_string (utf8 ",\"type\":")
      ∷ writer.string p.type
      ∷ writer.raw_string (utf8 ",\"detections\":")
      ∷ write_slice writer encode_detection nil p.detections
      ∷ writer.raw_string (utf8 "}")
      ∷ [])

  unfoldable pub marshal_payload : W → Bool → SuckerPayload → Bytes × Bool
  unfolding encode_payload
  marshal_payload new_writer nil p = output writer (encode_payload nil p new_writer)
