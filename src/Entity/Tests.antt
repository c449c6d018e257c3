-- ===== src/Entity/Tests.antt =====
-- Runs of the choice of the newest notice and of the decoders.
use api_poll.Prelude.{ℕ, ◌≡◌, refl, Bool, true, false, List, [], ◌∷◌, some, Bytes, utf8, arith}
use api_poll.Prelude.Int.{ℤ, pos, negsuc}
use api_poll.Json.{
  Members, member, no_members, null, boolean, number, list, object, item, no_items, tokens,
  is_int64, members_size,
}
use api_poll.Json.Fields.{put_members, look_up, put_field}
use api_poll.Json.TokenLexer.{
  token_lexer, token_lexer-IsLexer, text_writer, text_writer-IsWriter, plain_texts, quotes,
}
use api_poll.Entity.Codec.{zero_announcements, marshal_announcements, unmarshal_announcements}
use api_poll.Entity.Codec.Rows.{unmarshal_announcements_lem}
use api_poll.Entity.Codec.Trees.{IsWritable, announcements_members}
use api_poll.Entity.Codec.RoundTrip.{unmarshal_announcements-marshal_announcements}
use api_poll.Entity.RetryAfter.{request_after}
use api_poll.Entity.{Notice, Announcements, Response, zero_response}

abbrev numbered : ℤ → Notice
numbered n = record { id = n; category = []; title = []; listed_at = 0; first_listed_at = 0 }

abbrev notices : List Notice
notices = numbered (pos 7) ∷ numbered (pos 9) ∷ numbered (pos 8) ∷ []

-- A time whose text is one byte.
abbrev time_text : ℕ → Bytes
time_text t = t ∷ []

abbrev marshal_time : ℕ → Bytes × Bool
marshal_time t = (quotes (time_text t), false)

abbrev unmarshal_time : Bytes → ℕ × Bool
unmarshal_time (q ∷ t ∷ s) = (t, false)
unmarshal_time _ = (0, true)

abbrev announcements : Announcements
announcements = record zero_announcements { success = true; total_count = pos 3; notices = notices }

writable :
    (n : ℤ)
    → is_int64 n ≡ true
    → IsWritable plain_texts time_text marshal_time unmarshal_time (numbered n)
writable n fits = (fits, (_, refl, refl, refl), (_, refl, refl, refl))

-- A key is given twice, one is unknown, and one is null.
abbrev answer : Members
answer = member (utf8 "error_code") (number (pos 1)) (
    member (utf8 "more") (list (item (boolean true) no_items)) (
      member (utf8 "success") null (
        member (utf8 "data") (object (member (utf8 "total_count") (number (pos 4)) no_members))
          (member (utf8 "error_code") (number (pos 2)) no_members))))

unmarshal_announcements_lem_example :
    unmarshal_announcements token_lexer unmarshal_time
      (λ bytes. (true, tokens (object answer) []))
      20
      []
      zero_announcements
    ≡ some (record zero_announcements { error_code = pos 2; total_count = pos 4 }, false)
unfolding put_members look_up put_field members_size
unmarshal_announcements_lem_example =
    unmarshal_announcements_lem quotes unmarshal_time token_lexer-IsLexer
      (λ bytes. (true, tokens (object answer) [])) [] answer 20 zero_announcements
      (record zero_announcements { error_code = pos 2; total_count = pos 4 }) refl (omega arith)
      (refl, refl)

unmarshal_announcements-marshal_announcements_example :
    unmarshal_announcements token_lexer unmarshal_time
      (λ bytes. (
        true,
        tokens
            (object (
              announcements_members plain_texts time_text marshal_time unmarshal_time false
                announcements))
            [],
      ))
      90
      (marshal_announcements text_writer marshal_time [] false announcements).0
      zero_announcements
    ≡ some (announcements, false)
unfolding text_writer members_size
unmarshal_announcements-marshal_announcements_example =
    unmarshal_announcements-marshal_announcements plain_texts time_text marshal_time unmarshal_time
      text_writer-IsWriter token_lexer-IsLexer
      (λ bytes. (
        true,
        tokens
            (object (
              announcements_members plain_texts time_text marshal_time unmarshal_time false
                announcements))
            [],
      ))
      [] (refl, refl) refl false announcements 90 refl refl refl
      (writable (pos 7) refl, (writable (pos 9) refl, (writable (pos 8) refl, tt))) (omega arith)
      (refl, refl)

abbrev limited : Bytes → Response
limited t = record zero_response { headers = (utf8 "Retry-After", t ∷ []) ∷ [] }

waits :
    (request_after (limited (utf8 "120")) ≡ pos 120_000_000_000)
    × (request_after (limited (utf8 "soon")) ≡ pos 0)
unfolding request_after
waits = (refl, refl)

-- More seconds than an int64 of nanoseconds has.
wraps : request_after (limited (utf8 "9223372037")) ≡ negsuc 9_223_372_036_709_551_615
unfolding request_after
wraps = refl
