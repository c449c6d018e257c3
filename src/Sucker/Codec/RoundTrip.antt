-- ===== src/Sucker/Codec/RoundTrip.antt =====
-- What the encoder writes, and what the decoder makes of it.
use api_poll.Prelude.{◌∷◌, ℕ, ◌<◌, ◌≡◌, sym, subst, Bool, true, false, List, [], some, Bytes, utf8}
use api_poll.Json.{object, Lexer, IsLexer, Token, tokens, is_int64, members_size}
use api_poll.Json.Encode.{Writer}
use api_poll.Json.Writes.{
  Each, Texts, render, IsReady, Writes, IsWriter, all-written, then_step, write_slice-Writes,
}
use api_poll.Sucker.{Detection, SuckerPayload}
use api_poll.Sucker.Codec.{
  zero_payload, unmarshal_payload, encode_detection, encode_payload, marshal_payload,
}
use api_poll.Sucker.Codec.Trees.{
  detection_tree, payload_members, unmarshal_payload_lem, read_payload,
}

all_fit : (ds : List Detection) → Each (λ d. Unit) ds
all_fit [] = tt
all_fit (d ∷ ds) = (tt, all_fit ds)

module _ {W : Type 0} {writer : Writer W} {texts : Texts} (laws : IsWriter texts writer) where
  detection-Writes :
      (d : Detection) → Writes writer (encode_detection writer d) (render texts (detection_tree d))
  unfolding encode_detection render
  detection-Writes d =
      let raw = λ (t : Bytes). laws.writes_raw_string t in
      then_step (raw (utf8 "{")) (
        then_step (raw (utf8 "\"ticker\":"))
          (then_step (laws.writes_string d.ticker) (raw (utf8 "}"))))

  payload-Writes :
      (nil : Bool) (p : SuckerPayload)
      → Writes writer (encode_payload writer nil p) (render texts (object (payload_members nil p)))
  unfolding encode_payload render
  payload-Writes nil p =
      let raw = λ (t : Bytes). laws.writes_raw_string t in
      then_step (raw (utf8 "{")) (
        then_step (raw (utf8 "\"id\":")) (
          then_step (laws.writes_int64 p.id) (
            then_step (raw (utf8 ",\"time\":")) (
              then_step (laws.writes_int64 p.time) (
                then_step (raw (utf8 ",\"announcement\":")) (
                  then_step (laws.writes_string p.announcement) (
                    then_step (raw (utf8 ",\"original_title\":")) (
                      then_step (laws.writes_string p.original_title) (
                        then_step (raw (utf8 ",\"url\":")) (
                          then_step (laws.writes_string p.url) (
                            then_step (raw (utf8 ",\"exchange\":")) (
                              then_step (laws.writes_string p.exchange) (
                                then_step (raw (utf8 ",\"type\":")) (
                                  then_step (laws.writes_string p.type) (
                                    then_step (raw (utf8 ",\"detections\":")) (
                                      then_step
                                        (write_slice-Writes laws detection_tree
                                          (encode_detection writer) (λ d. Unit)
                                          (λ d any. detection-Writes d) nil p.detections
                                          (all_fit p.detections))
                                        (raw (utf8 "}"))))))))))))))))))

  pub marshal_payload_lem :
      (new_writer : W) (nil : Bool) (p : SuckerPayload)
      → IsReady writer new_writer
      → writer.written new_writer ≡ []
      → marshal_payload writer new_writer nil p
        ≡ (render texts (object (payload_members nil p)) [], false)
  unfolding marshal_payload
  marshal_payload_lem new_writer nil p = all-written (payload-Writes nil p) new_writer

  -- A payload that is marshalled and then unmarshalled into a zero payload comes back, without an error, for
  -- a writer and a lexer that do what they document, where the writer is new, the lexer stands at the
  -- start of the tokens of the written text, the two integers are of 64 bits, and the fuel exceeds the
  -- size of the written object. An empty slice of detections may be nil.
  pub unmarshal_payload-marshal_payload :
      {L : Type 0} {lexer : Lexer L} {Reads : Bool → L → List Token → Type 0}
      (reading : IsLexer lexer texts.quoted Reads) (new_lexer : Bytes → L)
      → (new_writer : W) → IsReady writer new_writer
      → writer.written new_writer ≡ []
      → (nil : Bool) (p : SuckerPayload) (fuel : ℕ) → is_int64 p.id ≡ true
      → is_int64 p.time ≡ true
      → members_size (payload_members nil p) < fuel
      → (let j = object (payload_members nil p) in
          Reads true (new_lexer (render texts j [])) (tokens j []))
      → unmarshal_payload lexer new_lexer fuel
          (marshal_payload writer new_writer nil p).0
          zero_payload
        ≡ some (p, false)
  unmarshal_payload-marshal_payload {lexer = lexer} reading new_lexer new_writer ready nothing nil p
        fuel fits_id fits_time enough reads =
      let j = object (payload_members nil p) in
      subst (λ m. unmarshal_payload lexer new_lexer fuel m.0 zero_payload ≡ some (p, false))
        (sym (marshal_payload_lem new_writer nil p ready nothing))
        (unmarshal_payload_lem reading new_lexer (render texts j []) (payload_members nil p) fuel
          zero_payload p (read_payload nil p fits_id fits_time) enough reads)
