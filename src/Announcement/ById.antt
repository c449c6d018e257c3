-- ===== src/Announcement/ById.antt =====
-- internal/core/announcement_by_id_fetcher.go.
use api_poll.Prelude.{
  ℕ, ◌+◌, ◌≡◌, refl, true, false, List, [], ◌∷◌, ◌++◌, Option, none, some, Bytes, bytes_eq, arith,
  length, map, ◌≢◌, ◌⊎◌, not, if◌then◌else◌, Bool-cases, inl, inr, append-nil, append_assoc, ◌==◌,
  ◌∙◌, ap,
}
use api_poll.Prelude.Int.{ℤ, pos, ◌+ℤ◌}
use api_poll.Entity.{Response, Notice, SingleAnnouncement, status_ok, status_too_many_requests}
use api_poll.Announcement.{
  Event, cancelled, responded, Stop, running, context_done, too_many_requests, Turn, goes_on, stops,
}
use api_poll.Announcement.Changes.{changes, last_title, last_or, changes_same, changes_new}

pub record Fetcher : Type 0 where
  pub last_news_title : Bytes
  pub next_news_id : ℤ
  pub url : Bytes
  pub news : List Bytes
  pub detected : ℕ
  pub messages : ℕ

module _ (announcement_url : ℤ → Bytes) (decode : Bytes → Option SingleAnnouncement) where
  -- `updateAndNotify`.
  pub update_and_notify : SingleAnnouncement → Fetcher → Fetcher
  update_and_notify a f =
      if not a.success
      then f
      else if bytes_eq f.last_news_title a.content.title
      then f
      else record f {
        last_news_title = a.content.title;
        next_news_id = a.content.id +ℤ pos 1;
        url = announcement_url (a.content.id +ℤ pos 1);
        news = f.news ++ a.content.title ∷ [];
        detected = f.detected + 1;
        messages = f.messages + 1;
      }

  -- What the loop does with the decoder's result.
  abbrev after_decode : Option SingleAnnouncement → Fetcher → Turn Fetcher
  after_decode none f = goes_on f
  after_decode (some a) f = if a.success then goes_on (update_and_notify a f) else goes_on f

  -- The body of the loop for one response.
  pub handle : Response → Fetcher → Turn Fetcher
  unfolding update_and_notify
  handle r f =
      if not (r.status_code == status_ok)
      then if r.status_code == status_too_many_requests
        then stops (record f { messages = f.messages + 1 })
        else goes_on f
      else after_decode (decode r.body) f

  -- `populateWithNewNews`.
  unfoldable pub populate : List Event → Fetcher → Fetcher × Stop
  unfolding handle
  populate [] f = (f, running)
  populate (cancelled ∷ es) f = (f, context_done)
  populate (responded r ∷ es) f = elim (handle r f) [
    | goes_on g ↦ populate es g
    | stops g ↦ (g, too_many_requests)
  ]

  -- The announcement that a response carries, if it is served and a success.
  abbrev of_decoded : Option SingleAnnouncement → List Notice
  of_decoded none = []
  of_decoded (some a) = if a.success then a.content ∷ [] else []

  abbrev pub carried : Response → List Notice
  carried r = if r.status_code == status_ok then of_decoded (decode r.body) else []

  -- All that is carried before the first cancellation or 429.
  pub announcements : List Event → List Notice
  announcements [] = []
  announcements (cancelled ∷ es) = []
  announcements (responded r ∷ es) = elim (r.status_code == status_too_many_requests) [
    | true ↦ []
    | false ↦ carried r ++ announcements es
  ]

  -- The fetcher has sent the announcements of the list on its way from `f` to `g`.
  pub record Sends (ns : List Notice) (f g : Fetcher) : Type 0 where
    pub news : g.news ≡ f.news ++ map (λ (n : Notice). n.title) ns
    pub last : g.last_news_title ≡ last_title f.last_news_title ns
    pub next : g.next_news_id ≡ last_or (λ (n : Notice). n.id +ℤ pos 1) f.next_news_id ns
    pub url : g.url ≡ last_or (λ (n : Notice). announcement_url (n.id +ℤ pos 1)) f.url ns
    pub count : g.detected ≡ f.detected + length ns

  Sends-nil :
      (f g : Fetcher)
      → g.news ≡ f.news
      → g.last_news_title ≡ f.last_news_title
      → g.next_news_id ≡ f.next_news_id
      → g.url ≡ f.url
      → g.detected ≡ f.detected
      → Sends [] f g
  unfolding last_title last_or
  Sends-nil f g n l i u d = record {
    news = rw (n, append-nil) refl;
    last = l;
    next = i;
    url = u;
    count = ground arith;
  }

  -- The fetcher after an announcement with a new title.
  abbrev updated : Notice → Fetcher → Fetcher
  updated n f = record f {
    last_news_title = n.title;
    next_news_id = n.id +ℤ pos 1;
    url = announcement_url (n.id +ℤ pos 1);
    news = f.news ++ n.title ∷ [];
    detected = f.detected + 1;
    messages = f.messages + 1;
  }

  Sends-cons :
      (n : Notice) (ns : List Notice) (f g : Fetcher)
      → Sends ns (updated n f) g
      → Sends (n ∷ ns) f g
  unfolding last_title last_or
  Sends-cons n ns f g s = record {
    news = s.news ∙ append_assoc f.news (n.title ∷ []) (map (λ (m : Notice). m.title) ns);
    last = s.last;
    next = s.next;
    url = s.url;
    count = omega (arith, s.count);
  }

  -- One successful announcement.
  update-Sends :
      (a : SingleAnnouncement) (ns : List Notice) (f g : Fetcher)
      → a.success ≡ true
      → ((h : Fetcher) → h ≡ update_and_notify a f → Sends (changes h.last_news_title ns) h g)
      → Sends (changes f.last_news_title (a.content ∷ ns)) f g
  unfolding update_and_notify
  update-Sends a ns f g good k = elim (Bool-cases (bytes_eq f.last_news_title a.content.title)) [
    | inl same ↦
        rw (changes_same f.last_news_title a.content ns same) (k f (simp (good, same) refl))
    | inr new ↦
        rw (changes_new f.last_news_title a.content ns new)
          (Sends-cons a.content _ f g (k (updated a.content f) (simp (good, new) refl)))
  ]

  carried-Sends :
      (o : Option SingleAnnouncement) (ns : List Notice) (f g : Fetcher)
      → ((h : Fetcher) → goes_on h ≡ after_decode o f → Sends (changes h.last_news_title ns) h g)
      → Sends (changes f.last_news_title (of_decoded o ++ ns)) f g
  carried-Sends none ns f g k = k f refl
  carried-Sends (some a) ns f g k = elim (Bool-cases a.success) [
    | inl good ↦ simp good (update-Sends a ns f g good (λ h e. k h (simp good (ap goes_on e))))
    | inr bad ↦ simp bad (k f (simp bad refl))
  ]

  status_cases :
      (r : Response)
      → ((r.status_code ≡ status_too_many_requests)
          ⊎ ((r.status_code ≢ status_too_many_requests) × (r.status_code ≢ status_ok)))
        ⊎ (r.status_code ≡ status_ok)
  status_cases r = ground arith

  handle_refused :
      (r : Response) (f : Fetcher)
      → r.status_code ≡ status_too_many_requests
      → handle r f ≡ stops (record f { messages = f.messages + 1 })
  unfolding handle
  handle_refused r f e = rw e refl

  handle_other :
      (r : Response) (f : Fetcher)
      → r.status_code ≢ status_too_many_requests
      → r.status_code ≢ status_ok
      → handle r f ≡ goes_on f
  unfolding handle
  handle_other r f n o = ground arith

  handle_served :
      (r : Response) (f : Fetcher)
      → r.status_code ≡ status_ok
      → handle r f ≡ after_decode (decode r.body) f
  unfolding handle
  handle_served r f e = simp e refl

  announcements_refused :
      (r : Response) (es : List Event)
      → r.status_code ≡ status_too_many_requests
      → announcements (responded r ∷ es) ≡ []
  unfolding announcements
  announcements_refused r es e = ground arith

  announcements_other :
      (r : Response) (es : List Event)
      → r.status_code ≢ status_too_many_requests
      → r.status_code ≢ status_ok
      → announcements (responded r ∷ es) ≡ announcements es
  unfolding announcements
  announcements_other r es n o = ground arith

  announcements_served :
      (r : Response) (es : List Event)
      → r.status_code ≡ status_ok
      → announcements (responded r ∷ es) ≡ of_decoded (decode r.body) ++ announcements es
  unfolding announcements
  announcements_served r es e = ground arith

  -- Whatever the responses, the fetcher sends exactly the changes of title among the successful
  -- announcements that come before the first cancellation or 429, in order and after what it had sent
  -- before; it keeps the last of them, asks for the identifier after the last one's, and counts each.
  pub by_id-Sends :
      (es : List Event) (f : Fetcher)
      → Sends (changes f.last_news_title (announcements es)) f (populate es f).0
  unfolding populate
  by_id-Sends [] f = unfold changes announcements in Sends-nil f f refl refl refl refl refl
  by_id-Sends (cancelled ∷ es) f =
      unfold changes announcements in Sends-nil f f refl refl refl refl refl
  by_id-Sends (responded r ∷ es) f = elim (status_cases r) [
    | inl (inl refused) ↦
        rw (announcements_refused r es refused, handle_refused r f refused, populate)
          (unfold changes in Sends-nil f _ refl refl refl refl refl)
    | inl (inr other) ↦
        rw (announcements_other r es other.0 other.1, handle_other r f other.0 other.1, populate)
          (by_id-Sends es f)
    | inr served ↦ rw (announcements_served r es served) (
        carried-Sends (decode r.body) (announcements es) f (populate (responded r ∷ es) f).0
          λ h e. rw (handle_served r f served, ← e, populate) (by_id-Sends es h))
  ]
