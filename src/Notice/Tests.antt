-- ===== src/Notice/Tests.antt =====
-- Runs of the notice fetcher, and the theorems at concrete events.
use api_poll.Prelude.{
  zero, suc, ◌≡◌, refl, ◌≢◌, [], ◌∷◌, ◌++◌, arith, Bytes, utf8, has_prefix, bytes_eq, bytes_eq→ne,
  length,
}
use api_poll.Prelude.Int.{ℤ, pos}
use api_poll.Prelude.Search.{NoneBefore}
use api_poll.Entity.{Response, zero_response, status_ok}
use api_poll.Notice.{
  Fetcher, cancelled, responded, found, failed, no_meta_tag, parse_notice_page, meta_tag_start,
  meta_tag_end, default_notice_title, populate,
}
use api_poll.Notice.Parse.{parse_notice_page_sound}
use api_poll.Notice.Stream.{titles, changes, Sends, populate-Sends}
use api_poll.Notice.News.{IsNews, populate-IsNews}
use api_poll.Notice.Init.{Position, new_fetcher}

abbrev notice_url : ℤ → Bytes
notice_url i = utf8 "https://upbit.com/notice"

abbrev before_tag : Bytes
before_tag = utf8 "<html>"

abbrev page : Bytes
page = utf8 "<html><meta name=\"description\" content=\"ABC\" /></html>"

abbrev empty_page : Bytes
empty_page =
    utf8 "<html><meta name=\"description\" content=\"" ++ default_notice_title ++ utf8 "\" />"

abbrev served : Response
served = record zero_response { status_code = status_ok; body = page }

abbrev start : Position
start = record { last_news_title = utf8 "AB"; next_news_id = pos 7 }

unfoldable fetcher : Fetcher
unfolding new_fetcher
fetcher = new_fetcher notice_url start

page_title : parse_notice_page page ≡ found (utf8 "ABC")
unfolding parse_notice_page meta_tag_start meta_tag_end
page_title = refl

empty_page_title : parse_notice_page empty_page ≡ found default_notice_title
unfolding parse_notice_page meta_tag_start meta_tag_end default_notice_title
empty_page_title = refl

no_tag : parse_notice_page (utf8 "<html></html>") ≡ failed no_meta_tag
unfolding parse_notice_page meta_tag_start meta_tag_end
no_tag = refl

-- The same page twice is one title.
one_title :
    (populate notice_url (responded 1 served ∷ responded 2 served ∷ cancelled ∷ []) fetcher).0.news
    ≡ utf8 "ABC" ∷ []
unfolding populate fetcher meta_tag_start meta_tag_end default_notice_title
one_title = refl

abc_shown : utf8 "ABC" ≢ default_notice_title
unfolding default_notice_title bytes_eq
abc_shown = bytes_eq→ne (utf8 "ABC") default_notice_title refl

first_tag :
    NoneBefore
      (length before_tag)
      (before_tag ++ (meta_tag_start ++ (utf8 "ABC" ++ (meta_tag_end ++ utf8 "</html>"))))
      meta_tag_start
unfolding meta_tag_start meta_tag_end has_prefix
first_tag zero lt = refl
first_tag (suc zero) lt = refl
first_tag (suc (suc zero)) lt = refl
first_tag (suc (suc (suc zero))) lt = refl
first_tag (suc (suc (suc (suc zero)))) lt = refl
first_tag (suc (suc (suc (suc (suc zero))))) lt = refl
first_tag (suc (suc (suc (suc (suc (suc j)))))) lt = absurd (omega arith)

parse_notice_page_sound_example :
    (pre : Bytes) × (post : Bytes) × (page
      ≡ pre ++ (meta_tag_start ++ (utf8 "ABC" ++ (meta_tag_end ++ post))))
    × NoneBefore (length pre) page meta_tag_start
    × NoneBefore (length (utf8 "ABC")) (utf8 "ABC" ++ (meta_tag_end ++ post)) meta_tag_end
parse_notice_page_sound_example = parse_notice_page_sound page (utf8 "ABC") page_title

populate-Sends_example :
    Sends
      (changes fetcher.last_news_title (titles (responded 1 served ∷ cancelled ∷ [])))
      fetcher
      (populate notice_url (responded 1 served ∷ cancelled ∷ []) fetcher).0
populate-Sends_example = populate-Sends notice_url (responded 1 served ∷ cancelled ∷ []) fetcher

populate-IsNews_example :
    IsNews fetcher.last_news_title (populate notice_url (responded 1 served ∷ []) fetcher).0.news
unfolding fetcher
populate-IsNews_example = populate-IsNews notice_url (responded 1 served ∷ []) fetcher refl
