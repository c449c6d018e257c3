-- ===== src/Entity/Codec/Rows.antt =====
-- The rows of the cases: what each key does with a JSON value.
use api_poll.Prelude.{ℕ, ◌<◌, ◌≡◌, refl, Bool, true, false, List, [], ◌∷◌, some, Bytes, utf8}
use api_poll.Json.{object, Members, Lexer, IsLexer, Token, tokens, members_size}
use api_poll.Json.Fields.{
  Row, put_members, put_number, put_text, put_boolean, put_time, put_field, put_list,
}
use api_poll.Json.Reads.{AllAgree}
use api_poll.Json.Reads.Objects.{unmarshal_lem}
use api_poll.Json.Reads.Setters.{
  set_int-Agrees, set_string-Agrees, set_bool-Agrees, set_time-Agrees, set_object-Agrees,
  set_list-Agrees,
}
use api_poll.Entity.{Notice, SingleAnnouncement, Announcements}
use api_poll.Entity.Codec.{
  Page, page_of, put_page, zero_notice, notice_cases, single_cases, page_cases, announcements_cases,
  unmarshal_notice, unmarshal_single, unmarshal_announcements,
}

module _ (quoted : Bytes → Bytes) (unmarshal_time : Bytes → ℕ × Bool) where
  abbrev pub notice_rows : List (Row Notice)
  notice_rows =
      (utf8 "id", put_number (λ k n. record n { id = k }))
      ∷ (utf8 "category", put_text (λ s n. record n { category = s }))
      ∷ (utf8 "title", put_text (λ s n. record n { title = s }))
      ∷ (utf8 "listed_at", put_time quoted unmarshal_time (λ t n. record n { listed_at = t }))
      ∷ (
        utf8 "first_listed_at",
        put_time quoted unmarshal_time (λ t n. record n { first_listed_at = t }),
      )
      ∷ []

  abbrev pub single_rows : List (Row SingleAnnouncement)
  single_rows =
      (utf8 "success", put_boolean (λ b a. record a { success = b }))
      ∷ (utf8 "error_code", put_number (λ k a. record a { error_code = k }))
      ∷ (utf8 "error_message", put_text (λ s a. record a { error_message = s }))
      ∷ (utf8 "data", put_field notice_rows (λ a. a.content) (λ n a. record a { content = n }))
      ∷ []

  abbrev pub page_rows : List (Row Page)
  page_rows =
      (utf8 "total_pages", put_number (λ k d. record d { total_pages = k }))
      ∷ (utf8 "total_count", put_number (λ k d. record d { total_count = k }))
      ∷ (utf8 "notices", put_list notice_rows zero_notice (λ ns d. record d { notices = ns }))
      ∷ []

  abbrev pub announcements_rows : List (Row Announcements)
  announcements_rows =
      (utf8 "success", put_boolean (λ b a. record a { success = b }))
      ∷ (utf8 "error_code", put_number (λ k a. record a { error_code = k }))
      ∷ (utf8 "error_message", put_text (λ s a. record a { error_message = s }))
      ∷ (utf8 "data", put_field page_rows page_of put_page)
      ∷ []

  module _ {L : Type 0} {lexer : Lexer L} {Reads : Bool → L → List Token → Type 0}
      (laws : IsLexer lexer quoted Reads) where
    notice-AllAgree : AllAgree laws (notice_cases lexer unmarshal_time) notice_rows
    unfolding notice_cases
    notice-AllAgree = (
      refl,
      set_int-Agrees laws _,
      (
        refl,
        set_string-Agrees laws _,
        (
          refl,
          set_string-Agrees laws _,
          (refl, set_time-Agrees laws _ _, (refl, set_time-Agrees laws _ _, tt)),
        ),
      ),
    )

    single-AllAgree : AllAgree laws (single_cases lexer unmarshal_time) single_rows
    unfolding single_cases
    single-AllAgree = (
      refl,
      set_bool-Agrees laws _,
      (
        refl,
        set_int-Agrees laws _,
        (
          refl,
          set_string-Agrees laws _,
          (refl, set_object-Agrees laws _ _ notice-AllAgree _ _, tt),
        ),
      ),
    )

    page-AllAgree : AllAgree laws (page_cases lexer unmarshal_time) page_rows
    unfolding page_cases
    page-AllAgree = (
      refl,
      set_int-Agrees laws _,
      (refl, set_int-Agrees laws _, (refl, set_list-Agrees laws _ _ notice-AllAgree _ _ _, tt)),
    )

    announcements-AllAgree :
        AllAgree laws (announcements_cases lexer unmarshal_time) announcements_rows
    unfolding announcements_cases
    announcements-AllAgree = (
      refl,
      set_bool-Agrees laws _,
      (
        refl,
        set_int-Agrees laws _,
        (refl, set_string-Agrees laws _, (refl, set_object-Agrees laws _ _ page-AllAgree _ _, tt)),
      ),
    )

    pub unmarshal_notice_lem :
        (new_lexer : Bytes → L) (bytes : Bytes) (ms : Members) (fuel : ℕ) (n m : Notice)
        → put_members notice_rows ms n ≡ some m
        → members_size ms < fuel
        → Reads true (new_lexer bytes) (tokens (object ms) [])
        → unmarshal_notice lexer unmarshal_time new_lexer fuel bytes n ≡ some (m, false)
    unfolding unmarshal_notice
    unmarshal_notice_lem =
        unmarshal_lem laws (notice_cases lexer unmarshal_time) notice_rows notice-AllAgree

    pub unmarshal_single_lem :
        (new_lexer : Bytes → L) (bytes : Bytes) (ms : Members) (fuel : ℕ) (a b : SingleAnnouncement)
        → put_members single_rows ms a ≡ some b
        → members_size ms < fuel
        → Reads true (new_lexer bytes) (tokens (object ms) [])
        → unmarshal_single lexer unmarshal_time new_lexer fuel bytes a ≡ some (b, false)
    unfolding unmarshal_single
    unmarshal_single_lem =
        unmarshal_lem laws (single_cases lexer unmarshal_time) single_rows single-AllAgree

    -- Over a lexer that does what it documents and stands at the start of the tokens of an object,
    -- unmarshalling announcements gives, without an error, what the rows of the keys make of the members
    -- of the object in their order, where the rows take the values of these members and the fuel
    -- exceeds the size of the object.
    pub unmarshal_announcements_lem :
        (new_lexer : Bytes → L) (bytes : Bytes) (ms : Members) (fuel : ℕ) (a b : Announcements)
        → put_members announcements_rows ms a ≡ some b
        → members_size ms < fuel
        → Reads true (new_lexer bytes) (tokens (object ms) [])
        → unmarshal_announcements lexer unmarshal_time new_lexer fuel bytes a ≡ some (b, false)
    unfolding unmarshal_announcements
    unmarshal_announcements_lem =
        unmarshal_lem laws (announcements_cases lexer unmarshal_time) announcements_rows
          announcements-AllAgree
