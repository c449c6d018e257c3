-- ===== src/Entity/Codec.antt =====
-- internal/entity/upbit_easyjson.go: the JSON of announcements and notices, decoded and encoded. A
-- decoder gives `none` where the fuel does not suffice. How a time decodes and encodes its own JSON is a
-- parameter.
pub mod Rows
pub mod Trees
pub mod RoundTrip
use api_poll.Prelude.{ℕ, Bool, false, List, [], ◌∷◌, Option, none, some, Bytes, utf8}
use api_poll.Prelude.Int.{ℤ, pos}
use api_poll.Json.{Lexer}
use api_poll.Json.Decode.{
  Case, unmarshal_json, set_int, set_string, set_bool, set_time, set_object, set_list,
}
use api_poll.Json.Encode.{Writer, output, steps, write_slice}
use api_poll.Entity.{Notice, SingleAnnouncement, Announcements}

-- The struct of the field `Data` of announcements, whose fields the model keeps among those of the
-- announcements.
pub record Page : Type 0 where
  pub total_pages : ℤ
  pub total_count : ℤ
  pub notices : List Notice

abbrev pub page_of : Announcements → Page
page_of a = record { total_pages = a.total_pages; total_count = a.total_count; notices = a.notices }

abbrev pub put_page : Page → Announcements → Announcements
put_page d a = record a {
  total_pages = d.total_pages;
  total_count = d.total_count;
  notices = d.notices;
}

abbrev pub zero_notice : Notice
zero_notice = record { id = pos 0; category = []; title = []; listed_at = 0; first_listed_at = 0 }

abbrev pub zero_single : SingleAnnouncement
zero_single = record {
  success = false;
  error_code = pos 0;
  error_message = [];
  content = zero_notice;
}

abbrev pub zero_announcements : Announcements
zero_announcements = record {
  success = false;
  error_code = pos 0;
  error_message = [];
  total_pages = pos 0;
  total_count = pos 0;
  notices = [];
}

module _ {L : Type 0} (lexer : Lexer L) (unmarshal_time : Bytes → ℕ × Bool) where
  unfoldable pub notice_cases : List (Case lexer Notice)
  notice_cases =
      (utf8 "id", set_int lexer (λ k n. record n { id = k }))
      ∷ (utf8 "category", set_string lexer (λ s n. record n { category = s }))
      ∷ (utf8 "title", set_string lexer (λ s n. record n { title = s }))
      ∷ (utf8 "listed_at", set_time lexer unmarshal_time (λ t n. record n { listed_at = t }))
      ∷ (
        utf8 "first_listed_at",
        set_time lexer unmarshal_time (λ t n. record n { first_listed_at = t }),
      )
      ∷ []

  unfoldable pub single_cases : List (Case lexer SingleAnnouncement)
  unfolding notice_cases
  single_cases =
      (utf8 "success", set_bool lexer (λ b a. record a { success = b }))
      ∷ (utf8 "error_code", set_int lexer (λ k a. record a { error_code = k }))
      ∷ (utf8 "error_message", set_string lexer (λ s a. record a { error_message = s }))
      ∷ (
        utf8 "data",
        set_object lexer notice_cases (λ a. a.content) (λ n a. record a { content = n }),
      )
      ∷ []

  unfoldable pub page_cases : List (Case lexer Page)
  unfolding notice_cases
  page_cases =
      (utf8 "total_pages", set_int lexer (λ k d. record d { total_pages = k }))
      ∷ (utf8 "total_count", set_int lexer (λ k d. record d { total_count = k }))
      ∷ (
        utf8 "notices",
        set_list lexer notice_cases zero_notice (λ d. d.notices)
            (λ ns d. record d { notices = ns }),
      )
      ∷ []

  unfoldable pub announcements_cases : List (Case lexer Announcements)
  unfolding page_cases
  announcements_cases =
      (utf8 "success", set_bool lexer (λ b a. record a { success = b }))
      ∷ (utf8 "error_code", set_int lexer (λ k a. record a { error_code = k }))
      ∷ (utf8 "error_message", set_string lexer (λ s a. record a { error_message = s }))
      ∷ (utf8 "data", set_object lexer page_cases page_of put_page)
      ∷ []

  unfoldable pub unmarshal_notice : (Bytes → L) → ℕ → Bytes → Notice → Option (Notice × Bool)
  unfolding notice_cases unmarshal_json
  unmarshal_notice = unmarshal_json lexer notice_cases

  unfoldable pub unmarshal_single :
      (Bytes → L) → ℕ → Bytes → SingleAnnouncement → Option (SingleAnnouncement × Bool)
  unfolding single_cases unmarshal_json
  unmarshal_single = unmarshal_json lexer single_cases

  unfoldable pub unmarshal_announcements :
      (Bytes → L) → ℕ → Bytes → Announcements → Option (Announcements × Bool)
  unfolding announcements_cases unmarshal_json
  unmarshal_announcements = unmarshal_json lexer announcements_cases

module _ {W : Type 0} (writer : Writer W) (marshal_time : ℕ → Bytes × Bool) where
  unfoldable pub encode_notice : Notice → W → W
  unfolding steps
  encode_notice n = steps (
      writer.raw_string (utf8 "{")
      ∷ writer.raw_string (utf8 "\"id\":")
      ∷ writer.int n.id
      ∷ writer.raw_string (utf8 ",\"category\":")
      ∷ writer.string n.category
      ∷ writer.raw_string (utf8 ",\"title\":")
      ∷ writer.string n.title
      ∷ writer.raw_string (utf8 ",\"listed_at\":")
      ∷ writer.raw (marshal_time n.listed_at)
      ∷ writer.raw_string (utf8 ",\"first_listed_at\":")
      ∷ writer.raw (marshal_time n.first_listed_at)
      ∷ writer.raw_string (utf8 "}")
      ∷ [])

  unfoldable pub encode_single : SingleAnnouncement → W → W
  unfolding steps encode_notice
  encode_single a = steps (
      writer.raw_string (utf8 "{")
      ∷ writer.raw_string (utf8 "\"success\":")
      ∷ writer.bool a.success
      ∷ writer.raw_string (utf8 ",\"error_code\":")
      ∷ writer.int a.error_code
      ∷ writer.raw_string (utf8 ",\"error_message\":")
      ∷ writer.string a.error_message
      ∷ writer.raw_string (utf8 ",\"data\":")
      ∷ encode_notice a.content
      ∷ writer.raw_string (utf8 "}")
      ∷ [])

  -- The flag says whether an empty slice of notices is nil.
  unfoldable pub encode_page : Bool → Page → W → W
  unfolding steps write_slice encode_notice
  encode_page nil d = steps (
      writer.raw_string (utf8 "{")
      ∷ writer.raw_string (utf8 "\"total_pages\":")
      ∷ writer.int d.total_pages
      ∷ writer.raw_string (utf8 ",\"total_count\":")
      ∷ writer.int d.total_count
      ∷ writer.raw_string (utf8 ",\"notices\":")
      ∷ write_slice writer encode_notice nil d.notices
      ∷ writer.raw_string (utf8 "}")
      ∷ [])

  unfoldable pub encode_announcements : Bool → Announcements → W → W
  unfolding steps encode_page
  encode_announcements nil a = steps (
      writer.raw_string (utf8 "{")
      ∷ writer.raw_string (utf8 "\"success\":")
      ∷ writer.bool a.success
      ∷ writer.raw_string (utf8 ",\"error_code\":")
      ∷ writer.int a.error_code
      ∷ writer.raw_string (utf8 ",\"error_message\":")
      ∷ writer.string a.error_message
      ∷ writer.raw_string (utf8 ",\"data\":")
      ∷ encode_page nil (page_of a)
      ∷ writer.raw_string (utf8 "}")
      ∷ [])

  unfoldable pub marshal_notice : W → Notice → Bytes × Bool
  unfolding encode_notice
  marshal_notice new_writer n = output writer (encode_notice n new_writer)

  unfoldable pub marshal_single : W → SingleAnnouncement → Bytes × Bool
  unfolding encode_single
  marshal_single new_writer a = output writer (encode_single a new_writer)

  unfoldable pub marshal_announcements : W → Bool → Announcements → Bytes × Bool
  unfolding encode_announcements
  marshal_announcements new_writer nil a = output writer (encode_announcements nil a new_writer)
