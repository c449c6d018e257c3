-- ===== src/Announcement/Tests.antt =====
-- Runs of the two announcement fetchers, and the theorems at concrete events.
use api_poll.Prelude.{
  ℕ, zero, suc, ◌≡◌, refl, true, false, List, [], ◌∷◌, Option, none, some, Bytes, utf8, bytes_eq,
}
use api_poll.Prelude.Int.{ℤ, pos, negsuc, ◌+ℤ◌}
use api_poll.Entity.{
  Response, Notice, SingleAnnouncement, Announcements, zero_response, status_ok,
  status_too_many_requests,
}
use api_poll.Announcement.{Event, responded, too_many_requests}
use api_poll.Announcement.Changes.{changes}
use api_poll.Announcement.ById
use api_poll.Announcement.Latest

abbrev notice : ℕ → Notice
notice i = record {
  id = pos i;
  category = utf8 "trade";
  title = i ∷ [];
  listed_at = 1;
  first_listed_at = 1;
}

abbrev announcement_url : ℤ → Bytes
announcement_url (pos n) = n ∷ []
announcement_url (negsuc n) = []

-- A decoder for bodies of one byte: 0 for the code -1, another byte for that announcement.
abbrev decode_one : Bytes → Option SingleAnnouncement
decode_one [] = none
decode_one (zero ∷ s) =
    some (record { success = false; error_code = negsuc 0; error_message = []; content = notice 0 })
decode_one (suc n ∷ s) =
    some
      (record { success = true; error_code = pos 0; error_message = []; content = notice (suc n) })

-- The list that holds the body's bytes as announcements.
abbrev decode_list : Bytes → Option Announcements
decode_list [] = none
decode_list (n ∷ s) = some (record {
  success = true;
  error_code = pos 0;
  error_message = [];
  total_pages = pos 1;
  total_count = pos 1;
  notices = notice n ∷ [];
})

abbrev served : ℕ → Response
served n = record zero_response { status_code = status_ok; body = n ∷ [] }

abbrev refused : Response
refused = record zero_response { status_code = status_too_many_requests }

abbrev events : List Event
events = responded (served 4) ∷ responded (served 4) ∷ responded refused ∷ responded (served 5) ∷ []

abbrev fetcher : ById.Fetcher
fetcher = record {
  last_news_title = 3 ∷ [];
  next_news_id = pos 4;
  url = 4 ∷ [];
  news = [];
  detected = 0;
  messages = 0;
}

abbrev latest : Latest.Fetcher
latest = record { last = notice 3; news = []; detected = 0; messages = 0 }

-- One title is sent, and the 429 ends the stream.
stops_at_429 :
    (let (f, stop) = ById.populate announcement_url decode_one events fetcher in
      (f.news ≡ (4 ∷ []) ∷ []) × (f.url ≡ 5 ∷ []) × (stop ≡ too_many_requests))
unfolding ById.populate bytes_eq ◌+ℤ◌
stops_at_429 = (refl, refl, refl)

by_id-Sends_example :
    ById.Sends announcement_url decode_one
      (changes (3 ∷ []) (ById.announcements announcement_url decode_one events))
      fetcher
      (ById.populate announcement_url decode_one events fetcher).0
by_id-Sends_example = ById.by_id-Sends announcement_url decode_one events fetcher

latest-Sends_example :
    Latest.Sends decode_list
      (changes (3 ∷ []) (Latest.announcements decode_list events))
      latest
      (Latest.populate decode_list events latest).0
latest-Sends_example = Latest.latest-Sends decode_list events latest
