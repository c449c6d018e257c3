-- ===== src/Json/Reads/Objects.antt =====
-- The decoder of an object, of a value that may be null, and the loop over a list.
use api_poll.Prelude.{
  ℕ, zero, suc, ◌<◌, ◌≡◌, sym, ap, ◌∙◌, subst, Bool, true, false, List, [], ◌∷◌, ◌++◌, Option, some,
  Bytes, if_true, if_false, arith,
}
use api_poll.Json.{
  Json, null, boolean, number, text, list, object, Items, no_items, item, Members, Token, punct,
  null_token, tokens, items_tokens, members_tokens, size, items_size, members_size, Lexer, IsLexer,
}
use api_poll.Json.Decode.{
  Case, close_object, unmarshal_json, on_read, read_object, before_items, read_items,
}
use api_poll.Json.Fields.{Row, put_members, put_object, put_items}
use api_poll.Json.Reads.{
  bind_inverse, AllAgree, Gives, at_item, next_item, on_read-Gives, read_fields-Gives,
}

module _ {L : Type 0} {lexer : Lexer L} {quoted : Bytes → Bytes}
    {Reads : Bool → L → List Token → Type 0} (laws : IsLexer lexer quoted Reads) where
  -- A decoder reads an object, or leaves the value as it is for a null that is not at the start.
  read_object-Gives :
      {T : Type 0} (cases : List (Case lexer T)) (rows : List (Row T))
      → AllAgree laws cases rows
      → (ms : Members) (fuel : ℕ) (v w : T) (l : L) (ts : List Token)
      → put_members rows ms v ≡ some w
      → members_size ms < fuel
      → Reads false l (tokens (object ms) ts)
      → Gives laws w ts (read_object lexer cases fuel l v)
  unfolding read_object tokens
  read_object-Gives cases rows h ms fuel v w l ts e enough reads =
      let (is_null, r1) = laws.at_null false l (punct b'{') (members_tokens ms true ts) reads in
      let top = laws.at_start false l _ reads in
      subst (Gives laws w ts) (sym (if_false _ _ is_null)) (
        on_read-Gives laws (close_object lexer (lexer.is_start l)) _ (Gives laws w ts) w
          (punct b'}' ∷ ts)
          (read_fields-Gives laws cases rows h ms fuel v w false _ ts e enough
            (laws.past_delim b'{' false _ _ r1))
          (λ m r2. (
            lexer.delim b'}' m,
            ap (λ x. some (x, w)) (if_false _ _ top),
            laws.past_delim b'}' false m ts r2,
          )))

  -- The same at the start of the text, which has to end there.
  read_text-Gives :
      {T : Type 0} (cases : List (Case lexer T)) (rows : List (Row T))
      → AllAgree laws cases rows
      → (ms : Members) (fuel : ℕ) (v w : T) (l : L) → put_members rows ms v ≡ some w
      → members_size ms < fuel
      → Reads true l (tokens (object ms) [])
      → Gives laws w [] (read_object lexer cases fuel l v)
  unfolding read_object tokens
  read_text-Gives cases rows h ms fuel v w l e enough reads =
      let (is_null, r1) = laws.at_null true l (punct b'{') (members_tokens ms true []) reads in
      let top = laws.at_start true l _ reads in
      subst (Gives laws w []) (sym (if_false _ _ is_null)) (
        on_read-Gives laws (close_object lexer (lexer.is_start l)) _ (Gives laws w []) w
          (punct b'}' ∷ [])
          (read_fields-Gives laws cases rows h ms fuel v w false _ [] e enough
            (laws.past_delim b'{' false _ _ r1))
          (λ m r2. (
            lexer.consumed (lexer.delim b'}' m),
            ap (λ x. some (x, w)) (if_true _ _ top),
            laws.at_end false _ (laws.past_delim b'}' false m [] r2),
          )))

  pub unmarshal_lem :
      {T : Type 0} (cases : List (Case lexer T)) (rows : List (Row T))
      → AllAgree laws cases rows
      → (new_lexer : Bytes → L) (bytes : Bytes) (ms : Members) (fuel : ℕ) (v w : T)
      → put_members rows ms v ≡ some w
      → members_size ms < fuel
      → Reads true (new_lexer bytes) (tokens (object ms) [])
      → unmarshal_json lexer cases new_lexer fuel bytes v ≡ some (w, false)
  unfolding unmarshal_json
  unmarshal_lem cases rows h new_lexer bytes ms fuel v w e enough reads =
      let (l, read, after) =
        read_text-Gives cases rows h ms fuel v w (new_lexer bytes) e enough reads in
      ap (on_read (λ m x. some (x, lexer.error m))) read
      ∙ ap (λ b. some (w, b)) (laws.no_failure false l [] after).1

  -- Either of the values that `put_object` takes.
  pub read_value-Gives :
      {T : Type 0} (cases : List (Case lexer T)) (rows : List (Row T))
      → AllAgree laws cases rows
      → (j : Json) (fuel : ℕ) (v w : T) (l : L) (ts : List Token) → put_object rows j v ≡ some w
      → size j < fuel
      → Reads false l (tokens j ts)
      → Gives laws w ts (read_object lexer cases fuel l v)
  unfolding read_object tokens size
  read_value-Gives cases rows h (object ms) fuel v w l ts e enough reads =
      read_object-Gives cases rows h ms fuel v w l ts e (omega (arith, enough)) reads
  read_value-Gives cases rows h null fuel v w l ts e enough reads =
      let (is_null, r1) = laws.at_null false l null_token ts reads in
      let top = laws.at_start false l _ reads in
      let l1 = (lexer.is_null l).1 in
      let same : v ≡ w = ground (arith, e) in
      subst (Gives laws w ts) (sym (if_true _ _ is_null)) (
        lexer.skip l1,
        ap (λ x. some (lexer.skip x, v)) (if_false _ _ top)
            ∙ ap (λ x. some (lexer.skip l1, x)) same,
        laws.past_null false l1 ts r1,
      )
  read_value-Gives cases rows h (boolean x) fuel v w l ts e enough reads =
      let no : ⊥ = ground (arith, e) in elim no [ ]
  read_value-Gives cases rows h (number x) fuel v w l ts e enough reads =
      let no : ⊥ = ground (arith, e) in elim no [ ]
  read_value-Gives cases rows h (text x) fuel v w l ts e enough reads =
      let no : ⊥ = ground (arith, e) in elim no [ ]
  read_value-Gives cases rows h (list x) fuel v w l ts e enough reads =
      let no : ⊥ = ground (arith, e) in elim no [ ]

  pub read_items-Gives :
      {A : Type 0} (read_item : ℕ → L → Option (L × A)) (read : Json → Option A)
      → ((j : Json) (a : A) (fuel : ℕ) (l : L) (ts : List Token)
          → read j ≡ some a
          → size j < fuel
          → Reads false l (tokens j ts)
          → Gives laws a ts (read_item fuel l))
      → (xs : Items) (fuel : ℕ) (as' bs : List A) (l : L) (ts : List Token)
      → put_items read xs as' ≡ some bs
      → items_size xs < fuel
      → Reads false l (items_tokens xs true ts)
      → Gives laws bs (punct b']' ∷ ts) (read_items lexer read_item fuel l as')
  unfolding read_items put_items items_size items_tokens
  read_items-Gives read_item read h xs zero as' bs l ts e enough reads =
      let no : ⊥ = omega (arith, enough) in elim no [ ]
  read_items-Gives read_item read h no_items (suc fuel) as' bs l ts e enough reads =
      let (end, after) = laws.at_delim b']' false l (punct b']') ts reads in
      subst (Gives laws bs (punct b']' ∷ ts)) (sym (if_true _ _ end)) (
        (lexer.is_delim b']' l).1,
        ap (λ x. some ((lexer.is_delim b']' l).1, x)) (ground (arith, e)),
        after,
      )
  read_items-Gives read_item read h (item j xs) (suc fuel) as' bs l ts e enough reads =
      let (not_end, r1) = at_item laws j false l (items_tokens xs false ts) reads in
      let (a, here, later) = bind_inverse (λ a. put_items read xs (as' ++ a ∷ [])) (read j) bs e in
      subst (Gives laws bs (punct b']' ∷ ts)) (sym (if_false _ _ not_end)) (
        on_read-Gives laws
          (λ m x. read_items lexer read_item fuel (lexer.want_comma m) (as' ++ x ∷ [])) _
          (Gives laws bs (punct b']' ∷ ts)) a (items_tokens xs false ts)
          (h j a fuel _ (items_tokens xs false ts) here (omega (arith, enough)) r1)
          (λ m r2.
            read_items-Gives read_item read h xs fuel (as' ++ a ∷ []) bs _ ts later
              (omega (arith, enough)) (next_item laws xs m ts r2)))

  -- The lexer is asked for the end of a list before its first item, at most.
  pub before_items-Reads :
      {A : Type 0} (xs : Items) (as' : List A) (l : L) (ts : List Token)
      → Reads false l (items_tokens xs true ts)
      → Reads false (before_items lexer as' l) (items_tokens xs true ts)
  unfolding items_tokens
  before_items-Reads no_items [] l ts reads = (laws.at_delim b']' false l (punct b']') ts reads).1
  before_items-Reads (item j xs) [] l ts reads =
      (at_item laws j false l (items_tokens xs false ts) reads).1
  before_items-Reads xs (a ∷ as') l ts reads = reads
