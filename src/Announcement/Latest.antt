-- ===== src/Announcement/Latest.antt =====
-- internal/core/announcements_fetcher.go: the same loop over the list endpoint. It takes the last
-- announcement of the list as the service orders it, and keeps the whole notice.
use api_poll.Prelude.{
  ℕ, ◌+◌, ◌≡◌, ◌≢◌, refl, true, false, List, [], ◌∷◌, ◌++◌, Option, none, some, Bytes, bytes_eq,
  bytes_eq_sym, arith, length, map, not, if◌then◌else◌, Bool-cases, inl, inr, append-nil,
  append_assoc, ◌==◌, ◌∙◌, ◌⊎◌,
}
use api_poll.Entity.{Response, Notice, Announcements, status_ok, status_too_many_requests}
use api_poll.Entity.Latest.{last_notice}
use api_poll.Announcement.{
  Event, cancelled, responded, Stop, running, context_done, too_many_requests, Turn, goes_on, stops,
}
use api_poll.Announcement.Changes.{changes, last_or, changes_same, changes_new}

pub record Fetcher : Type 0 where
  pub last : Notice
  pub news : List Bytes
  pub detected : ℕ
  pub messages : ℕ

-- `updateAndNotify`.
pub update_and_notify : Notice → Fetcher → Fetcher
update_and_notify n f = if bytes_eq n.title f.last.title then f else record f {
  last = n;
  news = f.news ++ n.title ∷ [];
  detected = f.detected + 1;
  messages = f.messages + 1;
}

module _ (decode : Bytes → Option Announcements) where
  -- `parseAnnouncement`; `none` is any of its three errors.
  pub parse_announcement : Bytes → Option Notice
  unfolding last_notice
  parse_announcement body = elim (decode body) [
    | none ↦ none
    | some a ↦ if not a.success then none else last_notice a.notices
  ]

  -- What the loop does with the result of `parseAnnouncement`.
  abbrev after_parse : Option Notice → Fetcher → Turn Fetcher
  after_parse none f = goes_on f
  after_parse (some n) f = goes_on (update_and_notify n f)

  -- The body of the loop for one response.
  pub handle : Response → Fetcher → Turn Fetcher
  unfolding parse_announcement update_and_notify
  handle r f =
      if not (r.status_code == status_ok)
      then if r.status_code == status_too_many_requests
        then stops (record f { messages = f.messages + 1 })
        else goes_on f
      else after_parse (parse_announcement r.body) f

  -- `populateWithNewAnnouncements`.
  unfoldable pub populate : List Event → Fetcher → Fetcher × Stop
  unfolding handle
  populate [] f = (f, running)
  populate (cancelled ∷ es) f = (f, context_done)
  populate (responded r ∷ es) f = elim (handle r f) [
    | goes_on g ↦ populate es g
    | stops g ↦ (g, too_many_requests)
  ]

  -- `initLatestNotice` on the first response.
  pub init_latest_notice : Option Bytes → Option Fetcher
  unfolding parse_announcement
  init_latest_notice none = none
  init_latest_notice (some body) = elim (parse_announcement body) [
    | none ↦ none
    | some n ↦ some (record { last = n; news = []; detected = 0; messages = 0 })
  ]

  abbrev of_parsed : Option Notice → List Notice
  of_parsed none = []
  of_parsed (some n) = n ∷ []

  -- The announcements that the served responses carry before the first cancellation or 429.
  pub announcements : List Event → List Notice
  announcements [] = []
  announcements (cancelled ∷ es) = []
  announcements (responded r ∷ es) = elim (r.status_code == status_too_many_requests) [
    | true ↦ []
    | false ↦
        (if r.status_code == status_ok then of_parsed (parse_announcement r.body) else [])
        ++ announcements es
  ]

  -- The fetcher has sent the announcements of the list on its way from `f` to `g`.
  pub record Sends (ns : List Notice) (f g : Fetcher) : Type 0 where
    pub news : g.news ≡ f.news ++ map (λ (n : Notice). n.title) ns
    pub last : g.last ≡ last_or (λ (n : Notice). n) f.last ns
    pub count : g.detected ≡ f.detected + length ns

  Sends-nil :
      (f g : Fetcher) → g.news ≡ f.news → g.last ≡ f.last → g.detected ≡ f.detected → Sends [] f g
  unfolding last_or
  Sends-nil f g n l d = record { news = rw (n, append-nil) refl; last = l; count = ground arith }

  -- The fetcher after an announcement with a new title.
  abbrev updated : Notice → Fetcher → Fetcher
  updated n f = record f {
    last = n;
    news = f.news ++ n.title ∷ [];
    detected = f.detected + 1;
    messages = f.messages + 1;
  }

  Sends-cons :
      (n : Notice) (ns : List Notice) (f g : Fetcher)
      → Sends ns (updated n f) g
      → Sends (n ∷ ns) f g
  unfolding last_or
  Sends-cons n ns f g s = record {
    news = s.news ∙ append_assoc f.news (n.title ∷ []) (map (λ (m : Notice). m.title) ns);
    last = s.last;
    count = omega (arith, s.count);
  }

  carried-Sends :
      (o : Option Notice) (ns : List Notice) (f g : Fetcher)
      → ((h : Fetcher) → goes_on h ≡ after_parse o f → Sends (changes h.last.title ns) h g)
      → Sends (changes f.last.title (of_parsed o ++ ns)) f g
  unfolding update_and_notify
  carried-Sends none ns f g k = k f refl
  carried-Sends (some n) ns f g k = elim (Bool-cases (bytes_eq n.title f.last.title)) [
    | inl same ↦
        rw (changes_same f.last.title n ns (bytes_eq_sym n.title f.last.title ∙ same))
          (k f (simp same refl))
    | inr new ↦
        rw (changes_new f.last.title n ns (bytes_eq_sym n.title f.last.title ∙ new))
          (Sends-cons n _ f g (k (updated n f) (simp new refl)))
  ]

  status_cases :
      (r : Response)
      → ((r.status_code ≡ status_too_many_requests)
          ⊎ ((r.status_code ≢ status_too_many_requests) × (r.status_code ≢ status_ok)))
        ⊎ (r.status_code ≡ status_ok)
  status_cases r = ground arith

  handle_refused :
      (r : Response) (f : Fetcher)
      → r.status_code ≡ status_too_many_requests
      → handle r f ≡ stops (record f { messages = f.messages + 1 })
  unfolding handle
  handle_refused r f e = rw e refl

  handle_other :
      (r : Response) (f : Fetcher)
      → r.status_code ≢ status_too_many_requests
      → r.status_code ≢ status_ok
      → handle r f ≡ goes_on f
  unfolding handle
  handle_other r f n o = ground arith

  handle_served :
      (r : Response) (f : Fetcher)
      → r.status_code ≡ status_ok
      → handle r f ≡ after_parse (parse_announcement r.body) f
  unfolding handle
  handle_served r f e = simp e refl

  announcements_refused :
      (r : Response) (es : List Event)
      → r.status_code ≡ status_too_many_requests
      → announcements (responded r ∷ es) ≡ []
  unfolding announcements
  announcements_refused r es e = ground arith

  announcements_other :
      (r : Response) (es : List Event)
      → r.status_code ≢ status_too_many_requests
      → r.status_code ≢ status_ok
      → announcements (responded r ∷ es) ≡ announcements es
  unfolding announcements
  announcements_other r es n o = ground arith

  announcements_served :
      (r : Response) (es : List Event)
      → r.status_code ≡ status_ok
      → announcements (responded r ∷ es) ≡ of_parsed (parse_announcement r.body) ++ announcements es
  unfolding announcements
  announcements_served r es e = ground arith

  -- Whatever the responses, the fetcher sends exactly the changes of title among the announcements
  -- that end the served lists before the first cancellation or 429, in order and after what it had
  -- sent before; it keeps the last of them, and counts each.
  pub latest-Sends :
      (es : List Event) (f : Fetcher)
      → Sends (changes f.last.title (announcements es)) f (populate es f).0
  unfolding populate
  latest-Sends [] f = unfold changes announcements in Sends-nil f f refl refl refl
  latest-Sends (cancelled ∷ es) f = unfold changes announcements in Sends-nil f f refl refl refl
  latest-Sends (responded r ∷ es) f = elim (status_cases r) [
    | inl (inl refused) ↦
        rw (announcements_refused r es refused, handle_refused r f refused, populate)
          (unfold changes in Sends-nil f _ refl refl refl)
    | inl (inr other) ↦
        rw (announcements_other r es other.0 other.1, handle_other r f other.0 other.1, populate)
          (latest-Sends es f)
    | inr served ↦ rw (announcements_served r es served) (
        carried-Sends (parse_announcement r.body) (announcements es) f
          (populate (responded r ∷ es) f).0
          λ h e. rw (handle_served r f served, ← e, populate) (latest-Sends es h))
  ]
