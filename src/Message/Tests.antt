-- ===== src/Message/Tests.antt =====
-- A message of two lines.
use api_poll.Prelude.{◌≡◌, refl, arith, [], ◌∷◌, Bytes, utf8, concat}
use api_poll.Prelude.Split.{split, write_lines}
use api_poll.Message.{send_message}
use api_poll.Message.Chunks.{short, AllFit, AllShort, send_message-AllFit}

abbrev body : Bytes
body = utf8 "ab\nc"

one_chunk : send_message body ≡ utf8 "ab\nc\n" ∷ []
unfolding send_message
one_chunk = refl

send_message-AllFit_example :
    AllFit (send_message body) × (concat (send_message body) ≡ write_lines (short (split 10 body)))
send_message-AllFit_example = send_message-AllFit body

two_lines : AllShort (split 10 body)
unfolding split
two_lines = (omega arith, (omega arith, tt))
