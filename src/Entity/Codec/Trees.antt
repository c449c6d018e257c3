-- ===== src/Entity/Codec/Trees.antt =====
-- The JSON values that announcements are written as, and what the rows make of them.
use api_poll.Prelude.{
  ℕ, ◌≡◌, refl, sym, ap, ◌∙◌, Bool, true, false, List, [], ◌∷◌, ◌++◌, append-nil, append_assoc,
  none, some, Bytes, utf8, bytes_eq, if◌then◌else◌, if_true,
}
use api_poll.Json.{Json, boolean, number, text, object, Members, no_members, member, is_int64}
use api_poll.Json.Fields.{bind, look_up, put_members, put_object, put_items, put_field, put_list}
use api_poll.Json.Writes.{Each, Texts, items_of, slice_tree}
use api_poll.Entity.{Notice, SingleAnnouncement, Announcements}
use api_poll.Entity.Codec.{Page, page_of, put_page, zero_notice, zero_single, zero_announcements}
use api_poll.Entity.Codec.Rows.{notice_rows, single_rows, page_rows, announcements_rows}

read_time :
    {T : Type 0} (put : ℕ → T) {r : ℕ × Bool} {t : ℕ}
    → r ≡ (t, false)
    → (if r.1 then none else some (put r.0)) ≡ some (put t)
read_time put e = ap (λ r. if r.1 then none else some (put r.0)) e

-- `time_text` is the text that stands for a time.
module _ (texts : Texts) (time_text : ℕ → Bytes) (marshal_time : ℕ → Bytes × Bool)
    (unmarshal_time : Bytes → ℕ × Bool) where
  -- A time is written as its text in quotes, which is read as that time.
  abbrev pub Formats : ℕ → Type 0
  Formats t =
      (s : Bytes) × (texts.quoted (time_text t) ≡ b'"' ∷ s)
      × (marshal_time t ≡ (b'"' ∷ s, false))
      × (unmarshal_time (texts.quoted (time_text t)) ≡ (t, false))

  abbrev pub IsWritable : Notice → Type 0
  IsWritable n = (is_int64 n.id ≡ true) × Formats n.listed_at × Formats n.first_listed_at

  abbrev pub AllWritable : List Notice → Type 0
  AllWritable = Each IsWritable

  abbrev pub notice_members : Notice → Members
  notice_members n = member (utf8 "id") (number n.id) (
      member (utf8 "category") (text n.category) (
        member (utf8 "title") (text n.title) (
          member (utf8 "listed_at") (text (time_text n.listed_at))
            (member (utf8 "first_listed_at") (text (time_text n.first_listed_at)) no_members))))

  abbrev pub notice_tree : Notice → Json
  notice_tree n = object (notice_members n)

  abbrev pub page_members : Bool → Page → Members
  page_members nil d = member (utf8 "total_pages") (number d.total_pages) (
      member (utf8 "total_count") (number d.total_count)
        (member (utf8 "notices") (slice_tree notice_tree nil d.notices) no_members))

  abbrev pub announcements_members : Bool → Announcements → Members
  announcements_members nil a = member (utf8 "success") (boolean a.success) (
      member (utf8 "error_code") (number a.error_code) (
        member (utf8 "error_message") (text a.error_message)
          (member (utf8 "data") (object (page_members nil (page_of a))) no_members)))

  abbrev pub single_members : SingleAnnouncement → Members
  single_members a = member (utf8 "success") (boolean a.success) (
      member (utf8 "error_code") (number a.error_code) (
        member (utf8 "error_message") (text a.error_message)
          (member (utf8 "data") (notice_tree a.content) no_members)))

  read_notice :
      (n : Notice)
      → IsWritable n
      → put_members (notice_rows texts.quoted unmarshal_time) (notice_members n) zero_notice
        ≡ some n
  unfolding put_members look_up bytes_eq
  read_notice n (fits, (s, quoted, marshalled, listed), (s', quoted', marshalled', first_listed)) =
      ap (bind _) (if_true _ _ fits)
      ∙ ap (bind _) (read_time (λ t. record n { listed_at = t; first_listed_at = 0 }) listed)
      ∙ ap (bind _) (read_time (λ t. record n { first_listed_at = t }) first_listed)

  read_notices :
      (ns ms : List Notice)
      → AllWritable ns
      → put_items
          (λ j. put_object (notice_rows texts.quoted unmarshal_time) j zero_notice)
          (items_of notice_tree ns)
          ms
        ≡ some (ms ++ ns)
  unfolding put_items
  read_notices [] ms h = ap some (sym (append-nil ms))
  read_notices (n ∷ ns) ms (first, others) =
      ap (bind _) (read_notice n first)
      ∙ read_notices ns (ms ++ n ∷ []) others
      ∙ ap some (append_assoc ms (n ∷ []) ns)

  read_slice :
      (nil : Bool) (ns : List Notice) (d : Page)
      → AllWritable ns
      → put_members
          (page_rows texts.quoted unmarshal_time)
          (member (utf8 "notices") (slice_tree notice_tree nil ns) no_members)
          (record d { notices = [] })
        ≡ some (record d { notices = ns })
  unfolding put_members look_up bytes_eq put_list put_items
  read_slice true [] d h = refl
  read_slice false [] d h = refl
  read_slice nil (n ∷ ns) d h =
      ap (λ o. bind (λ q. some q) (bind (λ ms. some (record d { notices = ms })) o))
        (read_notices (n ∷ ns) [] h)

  read_page :
      (nil : Bool) (d : Page)
      → is_int64 d.total_pages ≡ true
      → is_int64 d.total_count ≡ true
      → AllWritable d.notices
      → put_members
          (page_rows texts.quoted unmarshal_time)
          (page_members nil d)
          (page_of zero_announcements)
        ≡ some d
  unfolding put_members look_up bytes_eq
  read_page nil d fits fits' h =
      ap (bind _) (if_true _ _ fits)
      ∙ ap (bind _) (if_true _ _ fits')
      ∙ read_slice nil d.notices d h

  pub read_single :
      (a : SingleAnnouncement)
      → is_int64 a.error_code ≡ true
      → IsWritable a.content
      → put_members (single_rows texts.quoted unmarshal_time) (single_members a) zero_single
        ≡ some a
  unfolding put_members look_up bytes_eq put_field
  read_single a fits h =
      ap (bind _) (if_true _ _ fits)
      ∙ ap (λ o. bind (λ b. some b) (bind (λ n. some (record a { content = n })) o))
          (read_notice a.content h)

  pub read_announcements :
      (nil : Bool) (a : Announcements)
      → is_int64 a.error_code ≡ true
      → is_int64 a.total_pages ≡ true
      → is_int64 a.total_count ≡ true
      → AllWritable a.notices
      → put_members
          (announcements_rows texts.quoted unmarshal_time)
          (announcements_members nil a)
          zero_announcements
        ≡ some a
  unfolding put_members look_up bytes_eq put_field
  read_announcements nil a fits fits_pages fits_count h =
      ap (bind _) (if_true _ _ fits)
      ∙ ap (λ o. bind (λ b. some b) (bind (λ d. some (put_page d a)) o))
          (read_page nil (page_of a) fits_pages fits_count h)
