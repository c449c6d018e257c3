-- ===== src/Sucker/Codec/Trees.antt =====
-- The JSON values that a payload is written as, and what the decoders make of them.
use api_poll.Prelude.{
  ℕ, ◌<◌, ◌≡◌, refl, sym, ap, ◌∙◌, Bool, true, false, List, [], ◌∷◌, ◌++◌, append-nil, append_assoc,
  some, Bytes, utf8, bytes_eq, if_true,
}
use api_poll.Json.{
  Json, number, text, object, Members, no_members, member, Lexer, IsLexer, Token, tokens, is_int64,
  members_size,
}
use api_poll.Json.Fields.{
  Row, bind, look_up, put_members, put_object, put_items, put_number, put_text, put_list,
}
use api_poll.Json.Reads.{AllAgree}
use api_poll.Json.Reads.Objects.{unmarshal_lem}
use api_poll.Json.Reads.Setters.{set_int64-Agrees, set_string-Agrees, set_list-Agrees}
use api_poll.Json.Writes.{items_of, slice_tree}
use api_poll.Sucker.{Detection, SuckerPayload}
use api_poll.Sucker.Codec.{
  zero_detection, zero_payload, detection_cases, payload_cases, unmarshal_payload,
}

abbrev pub detection_rows : List (Row Detection)
detection_rows = (utf8 "ticker", put_text (λ s d. record d { ticker = s })) ∷ []

abbrev pub payload_rows : List (Row SuckerPayload)
payload_rows =
    (utf8 "id", put_number (λ n p. record p { id = n }))
    ∷ (utf8 "time", put_number (λ n p. record p { time = n }))
    ∷ (utf8 "announcement", put_text (λ s p. record p { announcement = s }))
    ∷ (utf8 "original_title", put_text (λ s p. record p { original_title = s }))
    ∷ (utf8 "url", put_text (λ s p. record p { url = s }))
    ∷ (utf8 "exchange", put_text (λ s p. record p { exchange = s }))
    ∷ (utf8 "type", put_text (λ s p. record p { type = s }))
    ∷ (
      utf8 "detections",
      put_list detection_rows zero_detection (λ ds p. record p { detections = ds }),
    )
    ∷ []

abbrev pub detection_tree : Detection → Json
detection_tree d = object (member (utf8 "ticker") (text d.ticker) no_members)

abbrev pub payload_members : Bool → SuckerPayload → Members
payload_members nil p = member (utf8 "id") (number p.id) (
    member (utf8 "time") (number p.time) (
      member (utf8 "announcement") (text p.announcement) (
        member (utf8 "original_title") (text p.original_title) (
          member (utf8 "url") (text p.url) (
            member (utf8 "exchange") (text p.exchange) (
              member (utf8 "type") (text p.type) (
                member (utf8 "detections") (slice_tree detection_tree nil p.detections)
                  no_members)))))))

module _ {L : Type 0} {lexer : Lexer L} {quoted : Bytes → Bytes}
    {Reads : Bool → L → List Token → Type 0} (laws : IsLexer lexer quoted Reads) where
  payload-AllAgree : AllAgree laws (payload_cases lexer) payload_rows
  unfolding payload_cases detection_cases
  payload-AllAgree = (
    refl,
    set_int64-Agrees laws _,
    (
      refl,
      set_int64-Agrees laws _,
      (
        refl,
        set_string-Agrees laws _,
        (
          refl,
          set_string-Agrees laws _,
          (
            refl,
            set_string-Agrees laws _,
            (
              refl,
              set_string-Agrees laws _,
              (
                refl,
                set_string-Agrees laws _,
                (refl, set_list-Agrees laws _ _ (refl, set_string-Agrees laws _, tt) _ _ _, tt),
              ),
            ),
          ),
        ),
      ),
    ),
  )

  pub unmarshal_payload_lem :
      (new_lexer : Bytes → L) (bytes : Bytes) (ms : Members) (fuel : ℕ) (p q : SuckerPayload)
      → put_members payload_rows ms p ≡ some q
      → members_size ms < fuel
      → Reads true (new_lexer bytes) (tokens (object ms) [])
      → unmarshal_payload lexer new_lexer fuel bytes p ≡ some (q, false)
  unfolding unmarshal_payload
  unmarshal_payload_lem = unmarshal_lem laws (payload_cases lexer) payload_rows payload-AllAgree

-- What the decoder makes of the written values.
read_detections :
    (ds es : List Detection)
    → put_items (λ j. put_object detection_rows j zero_detection) (items_of detection_tree ds) es
      ≡ some (es ++ ds)
unfolding put_items put_members look_up bytes_eq
read_detections [] es = ap some (sym (append-nil es))
read_detections (d ∷ ds) es =
    read_detections ds (es ++ d ∷ []) ∙ ap some (append_assoc es (d ∷ []) ds)

read_slice :
    (nil : Bool) (ds : List Detection) (p : SuckerPayload)
    → put_members payload_rows
        (member (utf8 "detections") (slice_tree detection_tree nil ds) no_members)
        (record p { detections = [] })
      ≡ some (record p { detections = ds })
unfolding put_members look_up bytes_eq put_list put_items
read_slice true [] p = refl
read_slice false [] p = refl
read_slice nil (d ∷ ds) p =
    ap (λ o. bind (λ q. some q) (bind (λ es. some (record p { detections = es })) o))
      (read_detections (d ∷ ds) [])

pub read_payload :
    (nil : Bool) (p : SuckerPayload)
    → is_int64 p.id ≡ true
    → is_int64 p.time ≡ true
    → put_members payload_rows (payload_members nil p) zero_payload ≡ some p
unfolding put_members look_up bytes_eq put_list
read_payload nil p fits_id fits_time =
    ap (bind _) (if_true _ _ fits_id)
    ∙ ap (bind _) (if_true _ _ fits_time)
    ∙ read_slice nil p.detections p
