-- ===== src/Fetchers/FromJson.antt =====
-- The decoders of the fetchers: the generated ones, for a zero value.
use api_poll.Prelude.{
  ℕ, ◌≡◌, ap, ◌∙◌, Bool, true, false, not, if_false, List, Option, none, some, Bytes,
}
use api_poll.Prelude.Int.{pos, ◌+ℤ◌}
use api_poll.Json.{Lexer}
use api_poll.Entity.{Announcements, SingleAnnouncement, Notice}
use api_poll.Entity.Latest.{newest}
use api_poll.Entity.Codec.{
  zero_announcements, zero_single, unmarshal_announcements, unmarshal_single,
}
use api_poll.Notice.Init.{
  Init, searching, initialised, aborted, decode_failed, no_notices, Probe, init_latest, start_from,
  probe,
}

-- An error of the decoder leaves the value unused.
abbrev pub decoded : {A : Type 0} → Option (A × Bool) → Option A
decoded none = none
decoded (some (a, true)) = none
decoded (some (a, false)) = some a

abbrev go_on : List Probe → Init → Init
go_on es (searching p) = probe es p
go_on es (initialised p) = initialised p
go_on es (aborted e) = aborted e

abbrev go_on_with : List Probe → Option Announcements → Init
go_on_with es none = aborted decode_failed
go_on_with es (some a) = go_on es (start_from a)

abbrev search_after : Option Notice → Init
search_after none = aborted no_notices
search_after (some n) =
    searching (record { last_news_title = n.title; next_news_id = n.id +ℤ pos 1 })

start_from-newest :
    (a : Announcements) (n : Notice)
    → a.success ≡ true
    → newest a.notices ≡ some n
    → start_from a ≡ search_after (some n)
unfolding start_from
start_from-newest a n success found = if_false _ _ (ap not success) ∙ ap search_after found

module _ {L : Type 0} (lexer : Lexer L) (unmarshal_time : Bytes → ℕ × Bool) (new_lexer : Bytes → L)
    (fuel : ℕ) where
  unfoldable pub decode_announcements : Bytes → Option Announcements
  unfolding unmarshal_announcements
  decode_announcements body =
      decoded (unmarshal_announcements lexer unmarshal_time new_lexer fuel body zero_announcements)

  unfoldable pub decode_single : Bytes → Option SingleAnnouncement
  unfolding unmarshal_single
  decode_single body =
      decoded (unmarshal_single lexer unmarshal_time new_lexer fuel body zero_single)

  -- A list that is read without an error, successful and not empty, starts the search of the notices.
  pub init_latest-decoded :
      (body : Bytes) (es : List Probe) (a : Announcements) (n : Notice)
      → unmarshal_announcements lexer unmarshal_time new_lexer fuel body zero_announcements
        ≡ some (a, false)
      → a.success ≡ true
      → newest a.notices ≡ some n
      → init_latest decode_announcements (some body) es
        ≡ probe es (record { last_news_title = n.title; next_news_id = n.id +ℤ pos 1 })
  unfolding init_latest decode_announcements
  init_latest-decoded body es a n e success found =
      ap (λ o. go_on_with es (decoded o)) e ∙ ap (go_on es) (start_from-newest a n success found)
