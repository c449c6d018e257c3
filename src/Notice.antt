-- ===== src/Notice.antt =====
-- internal/core/notice_by_id_fetcher.go: the stream of notice titles, found by asking for the page of
-- the next identifier again and again. The goroutine that runs `populateWithNewNews` is a fold over
-- the events that its `select` picks: a cancelled context, or a response at a reading of the clock.
-- A send on the news channel that has to wait is a send that happens later, so `news` is the list of
-- the titles sent, in order.
pub mod Parse
pub mod Stream
pub mod News
pub mod Init
pub mod Bans
mod Tests
use api_poll.Prelude.{
  ℕ, ◌+◌, ◌-◌, ◌*◌, ◌^◌, Bool, true, false, List, [], ◌∷◌, ◌++◌, Option, none, some, Bytes, utf8,
  bytes_eq, index, length, take, drop, ltb, not, if◌then◌else◌,
}
use api_poll.Prelude.Int.{ℤ, pos, ◌+ℤ◌}
use api_poll.Entity.{Response, is_ok, is_too_many_requests}

unfoldable pub default_notice_title : Bytes
default_notice_title =
    utf8
      "비트코인, 이더리움, 엑스알피(리플), NFT 등 다양한 디지털 자산, 국내 거래량 1위 거래소 업비트에서 지금 확인해보세요. No.1 Digital Asset Exchange in Korea, Upbit. Trade various digital assets conveniently and securely including Bitcoin, Ethereum, XRP(Ripple), NFT etc."

unfoldable pub meta_tag_start : Bytes
meta_tag_start = utf8 "<meta name=\"description\" content=\""

unfoldable pub meta_tag_end : Bytes
meta_tag_end = utf8 "\" />"

pub data ParseError : Type 0 where
  no_meta_tag no_content_end : ParseError

pub data Parsed : Type 0 where
  found : Bytes → Parsed
  failed : ParseError → Parsed

-- The second half of `parseNoticePage`: the text up to the end mark.
pub content_of : Bytes → Parsed
unfolding index
content_of rest = elim (index rest meta_tag_end) [
  | none ↦ failed no_content_end
  | some e ↦ found (take e rest)
]

-- `parseNoticePage`. Slices of a byte string are `drop` and `take`.
pub parse_notice_page : Bytes → Parsed
unfolding content_of
parse_notice_page body = elim (index body meta_tag_start) [
  | none ↦ failed no_meta_tag
  | some i ↦ content_of (drop (i + length meta_tag_start) body)
]

-- When each banned proxy was last seen to be refused. Go's map is a list with distinct keys.
abbrev pub Banned : Type 0
Banned = List (Bytes × ℕ)

pub banned_at : Bytes → Banned → Option ℕ
banned_at p [] = none
banned_at p ((q, t) ∷ m) = if bytes_eq q p then some t else banned_at p m

pub unban : Bytes → Banned → Banned
unban p [] = []
unban p ((q, t) ∷ m) = if bytes_eq q p then unban p m else (q, t) ∷ unban p m

-- The fetcher, its poller's URL, what it has sent to the news channel, and how often it has counted a
-- detection and written to the operators.
pub record Fetcher : Type 0 where
  pub last_news_title : Bytes
  pub next_news_id : ℤ
  pub url : Bytes
  pub news : List Bytes
  pub detected : ℕ
  pub messages : ℕ
  pub banned : Banned

abbrev pub hour : ℕ
hour = 3_600 * 10 ^ 9

pub data Event : Type 0 where
  cancelled : Event
  responded : ℕ → Response → Event

-- The branch for a 429.
pub too_many_requests : ℕ → Bytes → Fetcher → Fetcher
unfolding banned_at unban
too_many_requests now proxy f = elim (banned_at proxy f.banned) [
  | none ↦ record f { banned = (proxy, now) ∷ f.banned; messages = f.messages + 1 }
  | some t ↦ if ltb (now - t) hour then f else record f { banned = unban proxy f.banned }
]

module _ (notice_url : ℤ → Bytes) where
  -- `updateAndNotify`.
  pub update_and_notify : Bytes → Fetcher → Fetcher
  unfolding bytes_eq
  update_and_notify title f =
      if bytes_eq title default_notice_title
      then f
      else if bytes_eq f.last_news_title title
      then f
      else record f {
        last_news_title = title;
        next_news_id = f.next_news_id +ℤ pos 1;
        url = notice_url (f.next_news_id +ℤ pos 1);
        news = f.news ++ title ∷ [];
        detected = f.detected + 1;
        messages = f.messages + 1;
      }

  -- One response, as the body of the loop treats it.
  pub handle : ℕ → Response → Fetcher → Fetcher
  unfolding update_and_notify too_many_requests parse_notice_page is_ok is_too_many_requests
  handle now r f =
      if is_too_many_requests r
      then too_many_requests now r.proxy_addr f
      else if not (is_ok r)
      then f
      else elim (parse_notice_page r.body) [
        | failed e ↦ f
        | found title ↦ update_and_notify title f
      ]

  -- `populateWithNewNews` over the events so far; the flag says that it has returned `ctx.Err()`.
  unfoldable pub populate : List Event → Fetcher → Fetcher × Bool
  unfolding handle
  populate [] f = (f, false)
  populate (cancelled ∷ es) f = (f, true)
  populate (responded now r ∷ es) f = populate es (handle now r f)
