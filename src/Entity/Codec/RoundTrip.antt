-- ===== src/Entity/Codec/RoundTrip.antt =====
-- What the encoders write, and what the decoders make of it.
use api_poll.Prelude.{
  ℕ, ◌<◌, ◌≡◌, sym, subst, Bool, true, false, List, [], ◌∷◌, ◌++◌, some, Bytes, utf8,
}
use api_poll.Json.{object, Lexer, IsLexer, Token, tokens, is_int64, members_size}
use api_poll.Json.Encode.{Writer}
use api_poll.Json.Writes.{
  Texts, render, IsReady, Writes, IsWriter, all-written, then_step, write_slice-Writes,
}
use api_poll.Entity.{Notice, SingleAnnouncement, Announcements}
use api_poll.Entity.Codec.{
  Page, page_of, zero_single, zero_announcements, unmarshal_single, unmarshal_announcements,
  encode_notice, encode_single, encode_page, encode_announcements, marshal_single,
  marshal_announcements,
}
use api_poll.Entity.Codec.Rows.{unmarshal_single_lem, unmarshal_announcements_lem}
use api_poll.Entity.Codec.Trees.{
  Formats, IsWritable, AllWritable, notice_tree, page_members, announcements_members,
  single_members, read_single, read_announcements,
}

module _ (texts : Texts) (time_text : ℕ → Bytes) (marshal_time : ℕ → Bytes × Bool)
    (unmarshal_time : Bytes → ℕ × Bool) {W : Type 0} {writer : Writer W}
    (laws : IsWriter texts writer) where
  time-Writes :
      (t : ℕ)
      → Formats texts time_text marshal_time unmarshal_time t
      → Writes writer (writer.raw (marshal_time t)) (λ s. texts.quoted (time_text t) ++ s)
  time-Writes t (s, in_quotes, marshalled, unmarshalled) =
      subst (λ m. Writes writer (writer.raw m) (λ u. texts.quoted (time_text t) ++ u))
        (sym marshalled)
        (subst (λ q. Writes writer (writer.raw (b'"' ∷ s, false)) (λ u. q ++ u)) (sym in_quotes)
          (laws.writes_raw b'"' s))

  notice-Writes :
      (n : Notice)
      → IsWritable texts time_text marshal_time unmarshal_time n
      → Writes writer
          (encode_notice writer marshal_time n)
          (render texts (notice_tree texts time_text marshal_time unmarshal_time n))
  unfolding encode_notice render
  notice-Writes n (fits, listed, first_listed) =
      let raw = λ (t : Bytes). laws.writes_raw_string t in
      then_step (raw (utf8 "{")) (
        then_step (raw (utf8 "\"id\":")) (
          then_step (laws.writes_int n.id) (
            then_step (raw (utf8 ",\"category\":")) (
              then_step (laws.writes_string n.category) (
                then_step (raw (utf8 ",\"title\":")) (
                  then_step (laws.writes_string n.title) (
                    then_step (raw (utf8 ",\"listed_at\":")) (
                      then_step (time-Writes n.listed_at listed) (
                        then_step (raw (utf8 ",\"first_listed_at\":")) (
                          then_step (time-Writes n.first_listed_at first_listed)
                            (raw (utf8 "}"))))))))))))

  page-Writes :
      (nil : Bool) (d : Page)
      → AllWritable texts time_text marshal_time unmarshal_time d.notices
      → Writes writer
          (encode_page writer marshal_time nil d)
          (render texts (object (page_members texts time_text marshal_time unmarshal_time nil d)))
  unfolding encode_page render
  page-Writes nil d h =
      let raw = λ (t : Bytes). laws.writes_raw_string t in
      then_step (raw (utf8 "{")) (
        then_step (raw (utf8 "\"total_pages\":")) (
          then_step (laws.writes_int d.total_pages) (
            then_step (raw (utf8 ",\"total_count\":")) (
              then_step (laws.writes_int d.total_count) (
                then_step (raw (utf8 ",\"notices\":")) (
                  then_step
                    (write_slice-Writes laws
                      (notice_tree texts time_text marshal_time unmarshal_time)
                      (encode_notice writer marshal_time)
                      (IsWritable texts time_text marshal_time unmarshal_time) notice-Writes nil
                      d.notices h)
                    (raw (utf8 "}"))))))))

  single-Writes :
      (a : SingleAnnouncement)
      → IsWritable texts time_text marshal_time unmarshal_time a.content
      → Writes writer
          (encode_single writer marshal_time a)
          (render texts (object (single_members texts time_text marshal_time unmarshal_time a)))
  unfolding encode_single render
  single-Writes a h =
      let raw = λ (t : Bytes). laws.writes_raw_string t in
      then_step (raw (utf8 "{")) (
        then_step (raw (utf8 "\"success\":")) (
          then_step (laws.writes_bool a.success) (
            then_step (raw (utf8 ",\"error_code\":")) (
              then_step (laws.writes_int a.error_code) (
                then_step (raw (utf8 ",\"error_message\":")) (
                  then_step (laws.writes_string a.error_message) (
                    then_step (raw (utf8 ",\"data\":"))
                      (then_step (notice-Writes a.content h) (raw (utf8 "}"))))))))))

  announcements-Writes :
      (nil : Bool) (a : Announcements)
      → AllWritable texts time_text marshal_time unmarshal_time a.notices
      → Writes writer (encode_announcements writer marshal_time nil a) (
          render texts
            (object (announcements_members texts time_text marshal_time unmarshal_time nil a)))
  unfolding encode_announcements render
  announcements-Writes nil a h =
      let raw = λ (t : Bytes). laws.writes_raw_string t in
      then_step (raw (utf8 "{")) (
        then_step (raw (utf8 "\"success\":")) (
          then_step (laws.writes_bool a.success) (
            then_step (raw (utf8 ",\"error_code\":")) (
              then_step (laws.writes_int a.error_code) (
                then_step (raw (utf8 ",\"error_message\":")) (
                  then_step (laws.writes_string a.error_message) (
                    then_step (raw (utf8 ",\"data\":"))
                      (then_step (page-Writes nil (page_of a) h) (raw (utf8 "}"))))))))))

  module _ {L : Type 0} {lexer : Lexer L} {Reads : Bool → L → List Token → Type 0}
      (reading : IsLexer lexer texts.quoted Reads) (new_lexer : Bytes → L) (new_writer : W)
      (ready : IsReady writer new_writer) (nothing : writer.written new_writer ≡ []) where
    pub unmarshal_single-marshal_single :
        (a : SingleAnnouncement) (fuel : ℕ)
        → is_int64 a.error_code ≡ true
        → IsWritable texts time_text marshal_time unmarshal_time a.content
        → members_size (single_members texts time_text marshal_time unmarshal_time a) < fuel
        → (let j = object (single_members texts time_text marshal_time unmarshal_time a) in
            Reads true (new_lexer (render texts j [])) (tokens j []))
        → unmarshal_single lexer unmarshal_time new_lexer fuel
            (marshal_single writer marshal_time new_writer a).0
            zero_single
          ≡ some (a, false)
    unfolding marshal_single
    unmarshal_single-marshal_single a fuel fits h enough reads =
        let j = object (single_members texts time_text marshal_time unmarshal_time a) in
        subst
          (λ m.
            unmarshal_single lexer unmarshal_time new_lexer fuel m.0 zero_single ≡ some (a, false))
          (sym (all-written (single-Writes a h) new_writer ready nothing))
          (unmarshal_single_lem texts.quoted unmarshal_time reading new_lexer (render texts j [])
            (single_members texts time_text marshal_time unmarshal_time a) fuel zero_single a
            (read_single texts time_text marshal_time unmarshal_time a fits h) enough reads)

    -- Announcements that are marshalled and then unmarshalled into zero announcements come back, without an
    -- error, for a writer and a lexer that do what they document, where the writer is new, the lexer
    -- stands at the start of the tokens of the written text, the integers are of 64 bits, each time
    -- formats, and the fuel exceeds the size of the written object. An empty slice of notices may be nil.
    pub unmarshal_announcements-marshal_announcements :
        (nil : Bool) (a : Announcements) (fuel : ℕ)
        → is_int64 a.error_code ≡ true
        → is_int64 a.total_pages ≡ true
        → is_int64 a.total_count ≡ true
        → AllWritable texts time_text marshal_time unmarshal_time a.notices
        → members_size (announcements_members texts time_text marshal_time unmarshal_time nil a)
          < fuel
        → (let j =
              object (announcements_members texts time_text marshal_time unmarshal_time nil a) in
            Reads true (new_lexer (render texts j [])) (tokens j []))
        → unmarshal_announcements lexer unmarshal_time new_lexer fuel
            (marshal_announcements writer marshal_time new_writer nil a).0
            zero_announcements
          ≡ some (a, false)
    unfolding marshal_announcements
    unmarshal_announcements-marshal_announcements nil a fuel fits fits_pages fits_count h enough
          reads =
        let j = object (announcements_members texts time_text marshal_time unmarshal_time nil a) in
        subst
          (λ m.
            unmarshal_announcements lexer unmarshal_time new_lexer fuel m.0 zero_announcements
            ≡ some (a, false))
          (sym (all-written (announcements-Writes nil a h) new_writer ready nothing))
          (unmarshal_announcements_lem texts.quoted unmarshal_time reading new_lexer
            (render texts j [])
            (announcements_members texts time_text marshal_time unmarshal_time nil a) fuel
            zero_announcements a
            (read_announcements texts time_text marshal_time unmarshal_time nil a fits fits_pages
              fits_count h)
            enough reads)
