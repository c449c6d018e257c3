-- ===== src/Announcement/Start.antt =====
-- `initLatestNewsTitleAndNextNewsID` of internal/core/announcement_by_id_fetcher.go: the newest
-- announcement of the list, then one identifier for each tick until the service answers that there is
-- no such announcement, by the error code -1.
use api_poll.Prelude.{
  ◌≡◌, refl, true, false, List, [], ◌∷◌, Option, none, some, Bytes, not, ◌∙◌, if◌then◌else◌,
}
use api_poll.Prelude.Int.{ℤ, pos, negsuc, ◌+ℤ◌, eqb_ℤ}
use api_poll.Entity.{Notice, SingleAnnouncement, Announcements}
use api_poll.Entity.Latest.{newest}
use api_poll.Announcement.Changes.{last_title, last_or}

pub record Position : Type 0 where
  pub last_news_title : Bytes
  pub next_news_id : ℤ

pub data InitError : Type 0 where
  request_failed decode_failed no_announcements context_done : InitError
  refused : Bytes → InitError

pub data Init : Type 0 where
  searching : Position → Init
  initialised : Position → Init
  aborted : InitError → Init

pub data Probe : Type 0 where
  cancelled : Probe
  ticked : Option Bytes → Probe

abbrev pub after : Notice → Position
after n = record { last_news_title = n.title; next_news_id = n.id +ℤ pos 1 }

-- The checks on the decoded list.
unfoldable pub start_from : Announcements → Init
unfolding newest
start_from a =
    if not a.success
    then aborted (refused a.error_message)
    else elim (newest a.notices) [ none ↦ aborted no_announcements | some n ↦ searching (after n) ]

module _ (decode : Bytes → Option SingleAnnouncement) where
  -- The loop over the ticks.
  unfoldable pub probe : List Probe → Position → Init
  probe [] p = searching p
  probe (cancelled ∷ es) p = aborted context_done
  probe (ticked none ∷ es) p = aborted request_failed
  probe (ticked (some body) ∷ es) p = elim (decode body) [
    | none ↦ aborted decode_failed
    | some a ↦
        let rest = probe es (after a.content) in
        if not a.success
        then if eqb_ℤ a.error_code (negsuc 0)
          then initialised p
          else aborted (refused a.error_message)
        else rest
  ]

  -- The whole method, over the decoder of the list.
  pub init_latest : (Bytes → Option Announcements) → Option Bytes → List Probe → Init
  unfolding start_from probe
  init_latest decode_list none es = aborted request_failed
  init_latest decode_list (some body) es = elim (decode_list body) [
    | none ↦ aborted decode_failed
    | some a ↦ elim (start_from a) [
      | searching p ↦ probe es p
      | initialised p ↦ initialised p
      | aborted e ↦ aborted e
    ]
  ]

  -- The bodies are successful announcements with the contents.
  abbrev pub Carry : List Bytes → List Notice → Type 0
  Carry [] [] = Unit
  Carry [] (n ∷ ns) = ⊥
  Carry (b ∷ bs) [] = ⊥
  Carry (b ∷ bs) (n ∷ ns) =
      ((a : SingleAnnouncement) × (decode b ≡ some a) × (a.success ≡ true) × (a.content ≡ n))
      × Carry bs ns

  abbrev pub served : List Bytes → List Probe → List Probe
  served [] es = es
  served (b ∷ bs) es = ticked (some b) ∷ served bs es

  probe_carried :
      (b : Bytes) (a : SingleAnnouncement) (n : Notice) (es : List Probe) (p : Position)
      → decode b ≡ some a
      → a.success ≡ true
      → a.content ≡ n
      → probe (ticked (some b) ∷ es) p ≡ probe es (after n)
  unfolding probe
  probe_carried b a n es p e good same = rw (e, probe) (rw good (λ i. probe es (after (same i))))

  -- When the service has the announcements after the starting position, one by one, and then answers
  -- with the code -1, the search ends, whatever the later events are, with the last of their titles
  -- and the identifier after the last one's.
  pub probe-carried :
      (bs : List Bytes) (ns : List Notice) (b : Bytes) (a : SingleAnnouncement) (es : List Probe)
      (p : Position)
      → Carry bs ns
      → decode b ≡ some a
      → a.success ≡ false
      → a.error_code ≡ negsuc 0
      → probe (served bs (ticked (some b) ∷ es)) p
        ≡ initialised (record {
          last_news_title = last_title p.last_news_title ns;
          next_news_id = last_or (λ (n : Notice). n.id +ℤ pos 1) p.next_news_id ns;
        })
  unfolding last_title last_or
  probe-carried [] [] b a es p h e bad code = unfold probe in rw (e, probe) (rw bad (rw code refl))
  probe-carried [] (n ∷ ns) b a es p h e bad code = absurd h
  probe-carried (c ∷ bs) [] b a es p h e bad code = absurd h
  probe-carried (c ∷ bs) (n ∷ ns) b a es p ((x, dx, good, same), h) e bad code =
      probe_carried c x n _ p dx good same ∙ probe-carried bs ns b a es (after n) h e bad code

  -- Any other refusal aborts the start.
  pub probe-refused :
      (b : Bytes) (a : SingleAnnouncement) (es : List Probe) (p : Position)
      → decode b ≡ some a
      → a.success ≡ false
      → eqb_ℤ a.error_code (negsuc 0) ≡ false
      → probe (ticked (some b) ∷ es) p ≡ aborted (refused a.error_message)
  unfolding probe
  probe-refused b a es p e bad code = rw (e, probe) (rw bad (rw code refl))
