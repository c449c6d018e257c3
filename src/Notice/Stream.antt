-- ===== src/Notice/Stream.antt =====
-- What the stream of titles is, told without the fetcher's state: the titles of the pages in order,
-- less the default title and less every title that repeats the one before it.
use api_poll.Prelude.{
  ℕ, ◌+◌, ◌-◌, ◌≡◌, refl, true, false, List, [], ◌∷◌, ◌++◌, arith, Bytes, bytes_eq, length,
  length-append, not, if◌then◌else◌, append-nil, append_assoc, Bool-cases, if_cases, subst,
  Option-cases, inl, inr, ltb,
}
use api_poll.Prelude.Int.{ℤ, pos, ◌+ℤ◌, int_laws}
use api_poll.Entity.{Response, is_ok, is_too_many_requests}
use api_poll.Notice.{
  Fetcher, Event, cancelled, responded, Parsed, found, failed, parse_notice_page,
  default_notice_title, update_and_notify, too_many_requests, handle, populate, banned_at, hour,
}

-- The title that a response shows, if it is a page with a title of its own.
abbrev pub shown : Bytes → List Bytes
shown t = if bytes_eq t default_notice_title then [] else t ∷ []

abbrev pub shown_by : Parsed → List Bytes
shown_by (found t) = shown t
shown_by (failed e) = []

unfoldable pub title_of : Response → List Bytes
title_of r =
    if is_too_many_requests r
    then []
    else if not (is_ok r)
    then []
    else shown_by (parse_notice_page r.body)

-- Those of the events before the first cancellation.
unfoldable pub titles : List Event → List Bytes
titles [] = []
titles (cancelled ∷ es) = []
titles (responded now r ∷ es) = title_of r ++ titles es

-- The titles that differ from the one before them.
unfoldable pub changes : Bytes → List Bytes → List Bytes
changes last [] = []
changes last (t ∷ ts) = elim (bytes_eq last t) [ true ↦ changes last ts | false ↦ t ∷ changes t ts ]

unfoldable pub last_of : Bytes → List Bytes → Bytes
last_of last [] = last
last_of last (t ∷ ts) = last_of t ts

changes_nil : (last : Bytes) → changes last [] ≡ []
unfolding changes
changes_nil last = refl

changes_one : (last t : Bytes) → changes last (t ∷ []) ≡ (if bytes_eq last t then [] else t ∷ [])
unfolding changes
changes_one last t = ground arith

changes-append :
    (last : Bytes) (ts us : List Bytes)
    → changes last (ts ++ us) ≡ changes last ts ++ changes (last_of last (changes last ts)) us
unfolding changes last_of
changes-append last [] us = refl
changes-append last (t ∷ ts) us = ground (arith, changes-append last ts us, changes-append t ts us)

last_of-append :
    (last : Bytes) (ts us : List Bytes) → last_of last (ts ++ us) ≡ last_of (last_of last ts) us
unfolding last_of
last_of-append last [] us = refl
last_of-append last (t ∷ ts) us = last_of-append t ts us

-- The fetcher has sent `ts` on its way from `f` to `g`.
pub record Sends (ts : List Bytes) (f g : Fetcher) : Type 0 where
  pub news : g.news ≡ f.news ++ ts
  pub last : g.last_news_title ≡ last_of f.last_news_title ts
  pub next : g.next_news_id ≡ f.next_news_id +ℤ pos (length ts)
  pub count : g.detected ≡ f.detected + length ts

+ℤ_zero : (a : ℤ) → a ≡ a +ℤ pos 0
+ℤ_zero a = omega int_laws

Sends-nil :
    (f g : Fetcher)
    → g.news ≡ f.news
    → g.last_news_title ≡ f.last_news_title
    → g.next_news_id ≡ f.next_news_id
    → g.detected ≡ f.detected
    → Sends [] f g
unfolding last_of
Sends-nil f g n l i d = record {
  news = rw (n, append-nil) refl;
  last = l;
  next = rw i (+ℤ_zero f.next_news_id);
  count = omega arith;
}

Sends-trans :
    (ts us : List Bytes) (f g h : Fetcher) → Sends ts f g → Sends us g h → Sends (ts ++ us) f h
Sends-trans ts us f g h p q = record {
  news = rw (q.news, p.news) (append_assoc f.news ts us);
  last = rw (q.last, p.last, last_of-append f.last_news_title ts us) refl;
  next = rw (q.next, p.next) (omega (int_laws, length-append ts us));
  count = omega (arith, p.count, q.count, length-append ts us);
}

module _ (notice_url : ℤ → Bytes) where
  update-Sends :
      (t : Bytes) (f : Fetcher)
      → Sends (changes f.last_news_title (shown t)) f (update_and_notify notice_url t f)
  unfolding update_and_notify last_of
  update-Sends t f = elim (Bool-cases (bytes_eq t default_notice_title)) [
    | inl default ↦ simp (default, changes_nil) (Sends-nil f f refl refl refl refl)
    | inr shows ↦ elim (Bool-cases (bytes_eq f.last_news_title t)) [
      | inl same ↦ simp (shows, changes_one, same) (Sends-nil f f refl refl refl refl)
      | inr new ↦
          simp (shows, changes_one, new)
            (record { news = refl; last = refl; next = refl; count = refl })
    ]
  ]

  too_many_requests-Sends :
      (now : ℕ) (p : Bytes) (f : Fetcher) → Sends [] f (too_many_requests now p f)
  unfolding too_many_requests
  too_many_requests-Sends now p f = elim (Option-cases (banned_at p f.banned)) [
    | inl free ↦ rw (free, too_many_requests) (Sends-nil f _ refl refl refl refl)
    | inr (t, e) ↦
        rw (e, too_many_requests)
          (if_cases (Sends [] f) (ltb (now - t) hour) _ _ (λ _. Sends-nil f f refl refl refl refl)
            (λ _. Sends-nil f _ refl refl refl refl))
  ]

  handle-Sends :
      (now : ℕ) (r : Response) (f : Fetcher)
      → Sends (changes f.last_news_title (title_of r)) f (handle notice_url now r f)
  unfolding handle title_of
  handle-Sends now r f = elim (Bool-cases (is_too_many_requests r)) [
    | inl refused ↦ simp (refused, changes_nil) (too_many_requests-Sends now r.proxy_addr f)
    | inr served ↦ elim (Bool-cases (is_ok r)) [
      | inl okay ↦ simp (served, okay) (shown_case (parse_notice_page r.body))
      | inr bad ↦ simp (served, bad, changes_nil) (Sends-nil f f refl refl refl refl)
    ]
  ]
    where
      shown_case :
          (p : Parsed)
          → Sends
              (changes f.last_news_title (shown_by p))
              f
              (elim p [ failed e ↦ f | found title ↦ update_and_notify notice_url title f ])
      shown_case (failed e) = rw changes_nil (Sends-nil f f refl refl refl refl)
      shown_case (found t) = update-Sends t f

  -- Whatever the responses, the fetcher sends exactly the changes of title that they show, in order
  -- and after what it had sent before; it then knows the last of them, has moved its identifier on by
  -- their number, and has counted each of them.
  pub populate-Sends :
      (es : List Event) (f : Fetcher)
      → Sends (changes f.last_news_title (titles es)) f (populate notice_url es f).0
  unfolding populate titles
  populate-Sends [] f = unfold changes in Sends-nil f f refl refl refl refl
  populate-Sends (cancelled ∷ es) f = unfold changes in Sends-nil f f refl refl refl refl
  populate-Sends (responded now r ∷ es) f =
      let g = handle notice_url now r f in
      let here = handle-Sends now r f in
      rw (changes-append f.last_news_title (title_of r) (titles es)) (
        Sends-trans _ _ f g _ here (
          subst (λ last. Sends (changes last (titles es)) g (populate notice_url es g).0) here.last
            (populate-Sends es g)))
