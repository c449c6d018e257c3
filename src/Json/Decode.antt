-- ===== src/Json/Decode.antt =====
-- The shape of every generated decoder: an object is read member by member, a key is looked up in the
-- cases of a switch, a null leaves the field as it is, and an unknown key is skipped. The loops are on
-- fuel, the number of tokens to come is not known to them.
use api_poll.Prelude.{
  ℕ, zero, suc, Bool, List, [], ◌∷◌, ◌++◌, Option, none, some, Bytes, bytes_eq, if◌then◌else◌,
}
use api_poll.Prelude.Int.{ℤ}
use api_poll.Json.{Lexer}

-- To go on with the lexer and the value that a step leaves.
abbrev pub on_read : {L A B : Type 0} → (L → A → Option B) → Option (L × A) → Option B
on_read f none = none
on_read f (some (l, v)) = f l v

module _ {L : Type 0} (lexer : Lexer L) where
  -- What a case does with the lexer and the value so far.
  abbrev pub Setter : Type 0 → Type 0
  Setter T = ℕ → L → T → Option (L × T)

  abbrev pub Case : Type 0 → Type 0
  Case T = Bytes × Setter T

  unfoldable pub choose : {T : Type 0} → List (Case T) → Bytes → Setter T
  unfolding bytes_eq
  choose [] key fuel l v = some (lexer.skip_recursive l, v)
  choose ((k, set) ∷ cs) key fuel l v =
      if bytes_eq key k then set fuel l v else choose cs key fuel l v

  -- The loop over the members.
  unfoldable pub read_fields : {T : Type 0} → List (Case T) → ℕ → L → T → Option (L × T)
  unfolding choose
  read_fields cases zero l v = none
  read_fields cases (suc n) l v =
      let (end, l1) = lexer.is_delim b'}' l in
      let (key, l2) = lexer.field_name l1 in
      let (null, l3) = lexer.is_null (lexer.want_colon l2) in
      let past_null = read_fields cases n (lexer.want_comma (lexer.skip l3)) v in
      let past_value =
        on_read (λ l4 w. read_fields cases n (lexer.want_comma l4) w) (choose cases key n l3 v) in
      if end then some (l1, v) else if null then past_null else past_value

  abbrev pub close_object : {T : Type 0} → Bool → L → T → Option (L × T)
  close_object top l v =
      let l1 = lexer.delim b'}' l in some (if top then lexer.consumed l1 else l1, v)

  unfoldable pub read_object : {T : Type 0} → List (Case T) → ℕ → L → T → Option (L × T)
  unfolding read_fields
  read_object cases fuel l v =
      let top = lexer.is_start l in
      let (null, l1) = lexer.is_null l in
      if null
      then some (lexer.skip (if top then lexer.consumed l1 else l1), v)
      else on_read (close_object top) (read_fields cases fuel (lexer.delim b'{' l1) v)

  -- `UnmarshalJSON`: the value after the call, and whether the lexer has an error.
  unfoldable pub unmarshal_json :
      {T : Type 0} → List (Case T) → (Bytes → L) → ℕ → Bytes → T → Option (T × Bool)
  unfolding read_object
  unmarshal_json cases new_lexer fuel bytes v =
      on_read (λ l w. some (w, lexer.error l)) (read_object cases fuel (new_lexer bytes) v)

  -- The loop over the items of a list.
  unfoldable pub read_items :
      {A : Type 0} → (ℕ → L → Option (L × A)) → ℕ → L → List A → Option (L × List A)
  read_items read_item zero l as' = none
  read_items read_item (suc n) l as' =
      let (end, l1) = lexer.is_delim b']' l in
      let more =
        on_read (λ l2 a. read_items read_item n (lexer.want_comma l2) (as' ++ a ∷ []))
          (read_item n l1) in
      if end then some (l1, as') else more

  abbrev pub before_items : {A : Type 0} → List A → L → L
  before_items [] l = (lexer.is_delim b']' l).1
  before_items (a ∷ as') l = l

  module _ {T : Type 0} where
    unfoldable pub set_int : (ℤ → T → T) → Setter T
    set_int put fuel l v = some ((lexer.int l).1, put (lexer.int l).0 v)

    unfoldable pub set_int64 : (ℤ → T → T) → Setter T
    set_int64 put fuel l v = some ((lexer.int64 l).1, put (lexer.int64 l).0 v)

    unfoldable pub set_string : (Bytes → T → T) → Setter T
    set_string put fuel l v = some ((lexer.string l).1, put (lexer.string l).0 v)

    unfoldable pub set_bool : (Bool → T → T) → Setter T
    set_bool put fuel l v = some ((lexer.bool l).1, put (lexer.bool l).0 v)

    -- A time is read by its own decoder, which gives a time and whether it failed.
    unfoldable pub set_time : (Bytes → ℕ × Bool) → (ℕ → T → T) → Setter T
    set_time unmarshal put fuel l v =
        let (bytes, l1) = lexer.raw l in
        let (time, failed) = unmarshal bytes in
        some (if lexer.ok l1 then (lexer.add_error failed l1, put time v) else (l1, v))

    unfoldable pub set_object : {A : Type 0} → List (Case A) → (T → A) → (A → T → T) → Setter T
    unfolding read_object
    set_object cases field put fuel l v =
        on_read (λ l1 a. some (l1, put a v)) (read_object cases fuel l (field v))

    -- The lexer is asked once more for the end when there is no list yet, which an empty list stands
    -- for.
    unfoldable pub set_list :
        {A : Type 0} → List (Case A) → A → (T → List A) → (List A → T → T) → Setter T
    unfolding read_object read_items
    set_list cases empty field put fuel l v =
        let (null, l1) = lexer.is_null l in
        let l2 = lexer.delim b'[' l1 in
        let l3 = before_items (field v) l2 in
        if null
        then some (lexer.skip l1, put [] v)
        else on_read (λ l4 as'. some (lexer.delim b']' l4, put as' v))
            (read_items (λ n k. read_object cases n k empty) fuel l3 [])
