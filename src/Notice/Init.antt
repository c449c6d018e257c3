-- ===== src/Notice/Init.antt =====
-- `initLatestNewsTitleAndNextNewsID` of internal/core/notice_by_id_fetcher.go: the newest notice of
-- the list, then one page for each tick until the default title shows up. A request's outcome is a
-- body or an error, and the events of the `select` are ticks and a cancelled context.
use api_poll.Prelude.{
  ℕ, suc, ◌≡◌, refl, ◌≢◌, List, [], ◌∷◌, Option, none, some, Bytes, bytes_eq, bytes_eq→eq,
  bytes_eq_self, length, if◌then◌else◌, not, Bool-cases, inl, inr, ◌∙◌,
}
use api_poll.Prelude.Int.{ℤ, pos, ◌+ℤ◌, int_laws}
use api_poll.Entity.{Announcements, Notice}
use api_poll.Entity.Latest.{newest}
use api_poll.Notice.{ParseError, found, failed, parse_notice_page, default_notice_title, Fetcher}
use api_poll.Notice.Stream.{last_of}

-- The two fields that the initialisation finds.
pub record Position : Type 0 where
  pub last_news_title : Bytes
  pub next_news_id : ℤ

pub data InitError : Type 0 where
  request_failed decode_failed no_notices context_done : InitError
  refused : Bytes → InitError
  bad_page : ParseError → InitError

pub data Init : Type 0 where
  searching : Position → Init
  initialised : Position → Init
  aborted : InitError → Init

pub data Probe : Type 0 where
  cancelled : Probe
  ticked : Option Bytes → Probe

abbrev position_of : Notice → Position
position_of n = record { last_news_title = n.title; next_news_id = n.id +ℤ pos 1 }

-- The checks on the decoded list.
unfoldable pub start_from : Announcements → Init
unfolding newest
start_from a =
    if not a.success
    then aborted (refused a.error_message)
    else elim (newest a.notices) [ none ↦ aborted no_notices | some n ↦ searching (position_of n) ]

-- The loop over the ticks.
unfoldable pub probe : List Probe → Position → Init
probe [] p = searching p
probe (cancelled ∷ es) p = aborted context_done
probe (ticked none ∷ es) p = aborted request_failed
probe (ticked (some body) ∷ es) p = elim (parse_notice_page body) [
  | failed e ↦ aborted (bad_page e)
  | found t ↦
      if bytes_eq t default_notice_title
      then initialised p
      else probe es (record { last_news_title = t; next_news_id = p.next_news_id +ℤ pos 1 })
]

-- The whole method. Without the decoder's text, the list is what the decoder makes of the body.
module _ (decode : Bytes → Option Announcements) where
  unfoldable pub init_latest : Option Bytes → List Probe → Init
  unfolding start_from probe
  init_latest none es = aborted request_failed
  init_latest (some body) es = elim (decode body) [
    | none ↦ aborted decode_failed
    | some a ↦ elim (start_from a) [
      | searching p ↦ probe es p
      | initialised p ↦ initialised p
      | aborted e ↦ aborted e
    ]
  ]

-- `NewNoticeByIDFetcher` and `initPoller`: the fetcher that is then streamed from.
module _ (notice_url : ℤ → Bytes) where
  unfoldable pub new_fetcher : Position → Fetcher
  new_fetcher p = record {
    last_news_title = p.last_news_title;
    next_news_id = p.next_news_id;
    url = notice_url p.next_news_id;
    news = [];
    detected = 0;
    messages = 0;
    banned = [];
  }

-- The bodies are pages with the titles, none of them the default one.
abbrev pub Show : List Bytes → List Bytes → Type 0
Show [] [] = Unit
Show [] (t ∷ ts) = ⊥
Show (b ∷ bs) [] = ⊥
Show (b ∷ bs) (t ∷ ts) = (parse_notice_page b ≡ found t) × (t ≢ default_notice_title) × Show bs ts

abbrev pub served : List Bytes → List Probe → List Probe
served [] es = es
served (b ∷ bs) es = ticked (some b) ∷ served bs es

probe_page :
    (b t : Bytes) (es : List Probe) (p : Position)
    → parse_notice_page b ≡ found t
    → t ≢ default_notice_title
    → probe (ticked (some b) ∷ es) p
      ≡ probe es (record { last_news_title = t; next_news_id = p.next_news_id +ℤ pos 1 })
unfolding probe
probe_page b t es p e ne =
    rw (e, probe)
      (elim (Bool-cases (bytes_eq t default_notice_title)) [
        | inl same ↦ absurd (ne (bytes_eq→eq t default_notice_title same))
        | inr new ↦ rw new refl
      ])

probe_default :
    (b : Bytes) (es : List Probe) (p : Position)
    → parse_notice_page b ≡ found default_notice_title
    → probe (ticked (some b) ∷ es) p ≡ initialised p
unfolding probe
probe_default b es p e = rw (e, probe) (rw (bytes_eq_self default_notice_title) refl)

-- When the pages after the starting position show titles other than the default one and then the
-- default one, the search ends, whatever the later events are, with the last of those titles and the
-- identifier moved on by their number.
pub probe-served :
    (bs ts : List Bytes) (b : Bytes) (es : List Probe) (p : Position)
    → Show bs ts
    → parse_notice_page b ≡ found default_notice_title
    → probe (served bs (ticked (some b) ∷ es)) p
      ≡ initialised (record {
        last_news_title = last_of p.last_news_title ts;
        next_news_id = p.next_news_id +ℤ pos (length ts);
      })
unfolding last_of
probe-served [] [] b es p h e = probe_default b es p e ∙ ap_position p (+ℤ_zero p.next_news_id)
  where
    +ℤ_zero : (a : ℤ) → a ≡ a +ℤ pos 0
    +ℤ_zero a = omega int_laws

    ap_position :
        (p : Position) {i : ℤ}
        → p.next_news_id ≡ i
        → initialised p
          ≡ initialised (record { last_news_title = p.last_news_title; next_news_id = i })
    ap_position p e =
        λ k. initialised (record { last_news_title = p.last_news_title; next_news_id = e k })
probe-served [] (t ∷ ts) b es p h e = absurd h
probe-served (c ∷ bs) [] b es p h e = absurd h
probe-served (c ∷ bs) (t ∷ ts) b es p h e =
    let q : Position = record { last_news_title = t; next_news_id = p.next_news_id +ℤ pos 1 } in
    probe_page c t _ p h.0 h.1
    ∙ probe-served bs ts b es q h.2 e
    ∙ moved (last_of t ts) (+ℤ_suc p.next_news_id (length ts))
  where
    +ℤ_suc : (a : ℤ) (n : ℕ) → a +ℤ pos 1 +ℤ pos n ≡ a +ℤ pos (suc n)
    +ℤ_suc a n = omega int_laws

    moved :
        (l : Bytes) {i j : ℤ}
        → i ≡ j
        → initialised (record { last_news_title = l; next_news_id = i })
          ≡ initialised (record { last_news_title = l; next_news_id = j })
    moved l e = λ k. initialised (record { last_news_title = l; next_news_id = e k })
