-- ===== src/Notice/News.antt =====
-- What a reader of the news channel can rely on, and what the poller is told.
use api_poll.Prelude.{
  ℕ, ◌-◌, ◌≡◌, refl, ◌≢◌, List, [], ◌∷◌, ◌++◌, Bytes, bytes_eq, bytes_eq→ne, Bool-cases, if_cases,
  inl, inr, ltb, ◌∙◌, not, Option-cases,
}
use api_poll.Prelude.Int.{ℤ}
use api_poll.Entity.{Response, is_ok, is_too_many_requests}
use api_poll.Notice.{
  Fetcher, Event, cancelled, responded, Parsed, found, failed, parse_notice_page,
  default_notice_title, update_and_notify, too_many_requests, handle, populate, banned_at, hour,
}
use api_poll.Notice.Stream.{shown_by, title_of, titles, changes, populate-Sends}

-- No title of the list is the default one or that of the page before it.
abbrev pub IsNews : Bytes → List Bytes → Type 0
IsNews last [] = Unit
IsNews last (t ∷ ts) = (t ≢ default_notice_title) × (last ≢ t) × IsNews t ts

abbrev AllShown : List Bytes → Type 0
AllShown [] = Unit
AllShown (t ∷ ts) = (t ≢ default_notice_title) × AllShown ts

AllShown-append : (ts us : List Bytes) → AllShown ts → AllShown us → AllShown (ts ++ us)
AllShown-append [] us p q = q
AllShown-append (t ∷ ts) us p q = (p.0, AllShown-append ts us p.1 q)

shown_by-AllShown : (p : Parsed) → AllShown (shown_by p)
shown_by-AllShown (failed e) = tt
shown_by-AllShown (found t) = elim (Bool-cases (bytes_eq t default_notice_title)) [
  | inl default ↦ simp default tt
  | inr shows ↦ simp shows (bytes_eq→ne t default_notice_title shows, tt)
]

title_of-AllShown : (r : Response) → AllShown (title_of r)
unfolding title_of
title_of-AllShown r =
    if_cases AllShown (is_too_many_requests r) _ _ (λ _. tt)
      λ _.
        if_cases AllShown (not (is_ok r)) _ _ (λ _. tt)
          λ _. shown_by-AllShown (parse_notice_page r.body)

titles-AllShown : (es : List Event) → AllShown (titles es)
unfolding titles
titles-AllShown [] = tt
titles-AllShown (cancelled ∷ es) = tt
titles-AllShown (responded now r ∷ es) =
    AllShown-append (title_of r) (titles es) (title_of-AllShown r) (titles-AllShown es)

changes-IsNews : (last : Bytes) (ts : List Bytes) → AllShown ts → IsNews last (changes last ts)
unfolding changes
changes-IsNews last [] p = tt
changes-IsNews last (t ∷ ts) p = elim (Bool-cases (bytes_eq last t)) [
  | inl same ↦ rw (same, changes) (changes-IsNews last ts p.1)
  | inr new ↦ rw (new, changes) (p.0, bytes_eq→ne last t new, changes-IsNews t ts p.1)
]

module _ (notice_url : ℤ → Bytes) where
  -- A fetcher that has sent nothing yet never sends the default title, and never sends a title twice
  -- in a row, the title it was initialised with included.
  pub populate-IsNews :
      (es : List Event) (f : Fetcher)
      → f.news ≡ []
      → IsNews f.last_news_title (populate notice_url es f).0.news
  populate-IsNews es f e =
      let sent = populate-Sends notice_url es f in
      let all : (populate notice_url es f).0.news ≡ changes f.last_news_title (titles es) =
        sent.news ∙ rw e refl in
      rw all (changes-IsNews f.last_news_title (titles es) (titles-AllShown es))

  -- The poller asks for the page of the next identifier.
  abbrev pub AsksNext : Fetcher → Type 0
  AsksNext f = f.url ≡ notice_url f.next_news_id

  update-AsksNext :
      (t : Bytes) (f : Fetcher) → AsksNext f → AsksNext (update_and_notify notice_url t f)
  unfolding update_and_notify
  update-AsksNext t f h =
      if_cases AsksNext (bytes_eq t default_notice_title) _ _ (λ _. h)
        λ _. if_cases AsksNext (bytes_eq f.last_news_title t) _ _ (λ _. h) (λ _. refl)

  refused-AsksNext :
      (now : ℕ) (p : Bytes) (f : Fetcher) → AsksNext f → AsksNext (too_many_requests now p f)
  unfolding too_many_requests
  refused-AsksNext now p f h = elim (Option-cases (banned_at p f.banned)) [
    | inl free ↦ rw (free, too_many_requests) h
    | inr (t, e) ↦
        rw (e, too_many_requests) (if_cases AsksNext (ltb (now - t) hour) _ _ (λ _. h) (λ _. h))
  ]

  handle-AsksNext :
      (now : ℕ) (r : Response) (f : Fetcher) → AsksNext f → AsksNext (handle notice_url now r f)
  unfolding handle
  handle-AsksNext now r f h =
      if_cases AsksNext (is_too_many_requests r) _ _ (λ _. refused-AsksNext now r.proxy_addr f h)
        λ _. if_cases AsksNext (not (is_ok r)) _ _ (λ _. h) λ _. by_page (parse_notice_page r.body)
    where
      by_page :
          (p : Parsed)
          → AsksNext (elim p [ failed e ↦ f | found title ↦ update_and_notify notice_url title f ])
      by_page (failed e) = h
      by_page (found t) = update-AsksNext t f h

  -- The poller's URL is that of the next identifier before and after every run of events.
  pub populate-AsksNext :
      (es : List Event) (f : Fetcher) → AsksNext f → AsksNext (populate notice_url es f).0
  unfolding populate
  populate-AsksNext [] f h = h
  populate-AsksNext (cancelled ∷ es) f h = h
  populate-AsksNext (responded now r ∷ es) f h =
      populate-AsksNext es (handle notice_url now r f) (handle-AsksNext now r f h)
