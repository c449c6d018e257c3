-- ===== src/Sucker/Tests.antt =====
-- A stream of two payloads with a broken connection between them, and moves that hang.
use api_poll.Prelude.{◌≡◌, refl, arith, true, false, [], ◌∷◌, List, Option, none, some, utf8, Bytes}
use api_poll.Prelude.Int.{pos, negsuc}
use api_poll.Prelude.Decimal.{itoa}
use api_poll.Json.{object, tokens, members_size}
use api_poll.Json.TokenLexer.{token_lexer, token_lexer-IsLexer, text_writer, text_writer-IsWriter}
use api_poll.Sucker.Codec.{zero_payload, marshal_payload, unmarshal_payload}
use api_poll.Sucker.Codec.Trees.{payload_members}
use api_poll.Sucker.Codec.RoundTrip.{unmarshal_payload-marshal_payload}
use api_poll.Sucker.{
  SuckerPayload, format_detections, arrives, read_fails, context_done, Event, read,
}
use api_poll.Sucker.Reading.{Reports, payloads, upbit_titles, read-Reports}
use api_poll.Sucker.Locks.{
  State, returned, waiting, by_reading, start, starts_reader, reader_locks, ticks, cancels,
  read_returns, run, Move,
}

-- The exchange of a payload is its text.
abbrev of_text : Bytes → Option SuckerPayload
of_text [] = none
of_text (c ∷ cs) = some (record {
  id = pos 1;
  time = pos 2;
  announcement = [];
  original_title = utf8 "t";
  url = [];
  exchange = c ∷ cs;
  type = [];
  detections = record { ticker = utf8 "A" } ∷ record { ticker = utf8 "B" } ∷ [];
})

listed :
    format_detections (record { ticker = utf8 "A" } ∷ record { ticker = utf8 "B" } ∷ [])
    ≡ utf8 "A, B"
unfolding format_detections
listed = refl

abbrev stream : List Event
stream =
    arrives (utf8 "other") ∷ read_fails ∷ arrives [] ∷ arrives (utf8 "upbit") ∷ context_done ∷ []

one_title : upbit_titles (payloads of_text stream) ≡ utf8 "t" ∷ []
unfolding upbit_titles payloads
one_title = refl

read-Reports_example : Reports (read of_text stream) (upbit_titles (payloads of_text stream))
read-Reports_example = read-Reports of_text stream

abbrev hanging : List Move
hanging = starts_reader ∷ reader_locks ∷ ticks ∷ cancels ∷ read_returns ∷ []

abbrev hung : State
hung = record { main = returned; pinger = waiting; mutex = by_reading; queued = 0; done = true }

hangs : run hanging start ≡ some hung
unfolding run
hangs = refl

abbrev payload : SuckerPayload
payload = record {
  id = pos 1;
  time = negsuc 2;
  announcement = utf8 "a";
  original_title = utf8 "t";
  url = [];
  exchange = utf8 "e";
  type = utf8 "y";
  detections = record { ticker = utf8 "A" } ∷ record { ticker = utf8 "B" } ∷ [];
}

marshalled :
    (marshal_payload text_writer [] false (record zero_payload { url = utf8 "u" })).0
    ≡ utf8
        "{\"id\":0,\"time\":0,\"announcement\":\"\",\"original_title\":\"\",\"url\":\"u\",\"exchange\":\"\",\"type\":\"\",\"detections\":[]}"
unfolding marshal_payload text_writer itoa
marshalled = refl

unmarshal_payload-marshal_payload_example :
    unmarshal_payload token_lexer
      (λ bytes. (true, tokens (object (payload_members true payload)) []))
      40
      (marshal_payload text_writer [] true payload).0
      zero_payload
    ≡ some (payload, false)
unfolding text_writer members_size
unmarshal_payload-marshal_payload_example =
    unmarshal_payload-marshal_payload text_writer-IsWriter token_lexer-IsLexer
      (λ bytes. (true, tokens (object (payload_members true payload)) [])) [] (refl, refl) refl true
      payload 40 refl refl (omega arith) (refl, refl)
