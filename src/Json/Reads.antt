-- ===== src/Json/Reads.antt =====
-- A decoder over a lexer that stands before the tokens of a value makes of them what the rows of its
-- cases make of the value.
pub mod Objects
pub mod Setters
use api_poll.Prelude.{
  ℕ, zero, suc, ◌+◌, ◌<◌, ◌≡◌, refl, sym, ap, ◌∙◌, subst, Bool, true, false, List, [], ◌∷◌, ◌++◌,
  Option, none, some, Bytes, bytes_eq, if◌then◌else◌, if_true, if_false, if_cases, option_cases,
  Bool-cases, inl, inr, arith,
}
use api_poll.Prelude.Int.{ℤ}
use api_poll.Json.{
  Json, null, boolean, number, text, list, object, Items, no_items, item, Members, no_members,
  member, Token, comma, colon, punct, name, null_token, boolean_token, number_token, text_token,
  tokens, items_tokens, members_tokens, size, items_size, members_size, is_int64, is_null_token,
  Lexer, IsLexer,
}
use api_poll.Json.Decode.{
  on_read, Setter, Case, choose, read_fields, close_object, read_object, read_items, before_items,
  set_int, set_int64, set_string, set_bool, set_time, set_object, set_list,
}
use api_poll.Json.Fields.{
  Update, Row, bind, look_up, put_members, put_object, put_items, put_number, put_text, put_boolean,
  put_time, put_field, put_list,
}

abbrev pub is_null_value : Json → Bool
is_null_value null = true
is_null_value _ = false

pub bind_inverse :
    {A B : Type 0} (f : A → Option B) (o : Option A) (b : B)
    → bind f o ≡ some b
    → (a : A) × (o ≡ some a) × (f a ≡ some b)
bind_inverse f none b h = let no : ⊥ = ground (arith, h) in elim no [ ]
bind_inverse f (some a) b h = (a, refl, h)

put_members_null :
    {T : Type 0} (rows : List (Row T)) (k : Bytes) (j : Json) (ms : Members) (v : T)
    → is_null_value j ≡ true
    → put_members rows (member k j ms) v ≡ put_members rows ms v
unfolding put_members
put_members_null rows k null ms v h = refl
put_members_null rows k (boolean x) ms v h = let no : ⊥ = ground arith in elim no [ ]
put_members_null rows k (number n) ms v h = let no : ⊥ = ground arith in elim no [ ]
put_members_null rows k (text x) ms v h = let no : ⊥ = ground arith in elim no [ ]
put_members_null rows k (list xs) ms v h = let no : ⊥ = ground arith in elim no [ ]
put_members_null rows k (object x) ms v h = let no : ⊥ = ground arith in elim no [ ]

put_members_value :
    {T : Type 0} (rows : List (Row T)) (k : Bytes) (j : Json) (ms : Members) (v : T)
    → is_null_value j ≡ false
    → put_members rows (member k j ms) v ≡ bind (λ w. put_members rows ms w) (look_up rows k j v)
unfolding put_members
put_members_value rows k null ms v h = let no : ⊥ = ground arith in elim no [ ]
put_members_value rows k (boolean x) ms v h = refl
put_members_value rows k (number n) ms v h = refl
put_members_value rows k (text x) ms v h = refl
put_members_value rows k (list xs) ms v h = refl
put_members_value rows k (object x) ms v h = refl

module _ {L : Type 0} {lexer : Lexer L} {quoted : Bytes → Bytes}
    {Reads : Bool → L → List Token → Type 0} (laws : IsLexer lexer quoted Reads) where
  -- A step gives a value and leaves the lexer before these tokens.
  abbrev pub Gives : {A : Type 0} → A → List Token → Option (L × A) → Type 0
  Gives a ts o = (l : L) × (o ≡ some (l, a)) × Reads false l ts

  -- A case reads what its row says, where the value is not null.
  abbrev pub Agrees : {T : Type 0} → Setter lexer T → Update T → Type 0
  Agrees set update =
      (fuel : ℕ) (j : Json) (v w : _) (l : L) (ts : List Token)
      → update j v ≡ some w
      → is_null_value j ≡ false
      → size j < fuel
      → Reads false l (tokens j ts)
      → Gives w ts (set fuel l v)

  abbrev pub AllAgree : {T : Type 0} → List (Case lexer T) → List (Row T) → Type 0
  AllAgree [] [] = Unit
  AllAgree [] (r ∷ rows) = ⊥
  AllAgree (c ∷ cases) [] = ⊥
  AllAgree ((k, set) ∷ cases) ((n, update) ∷ rows) =
      (k ≡ n) × Agrees set update × AllAgree cases rows

  choose-Agrees :
      {T : Type 0} (cases : List (Case lexer T)) (rows : List (Row T))
      → AllAgree cases rows
      → (key : Bytes) → Agrees (choose lexer cases key) (look_up rows key)
  unfolding choose look_up
  choose-Agrees [] [] h key fuel j v w l ts e some_value enough reads =
      let same : v ≡ w = ground (arith, e) in
      (
        lexer.skip_recursive l,
        ap (λ x. some (lexer.skip_recursive l, x)) same,
        laws.past_value false l j ts reads,
      )
  choose-Agrees [] (r ∷ rows) h key fuel j v w l ts e some_value enough reads = elim h [ ]
  choose-Agrees (c ∷ cases) [] h key fuel j v w l ts e some_value enough reads = elim h [ ]
  choose-Agrees ((k, set) ∷ cases) ((n, update) ∷ rows) (kn, here, later) key fuel j v w l ts e
        some_value enough reads =
      if_cases (Gives w ts) (bytes_eq key k) _ _
        (λ yes.
          let yes' : bytes_eq key n ≡ true = subst (λ m. bytes_eq key m ≡ true) kn yes in
          here fuel j v w l ts (sym (if_true _ _ yes') ∙ e) some_value enough reads)
        (λ no.
          let no' : bytes_eq key n ≡ false = subst (λ m. bytes_eq key m ≡ false) kn no in
          choose-Agrees cases rows later key fuel j v w l ts (sym (if_false _ _ no') ∙ e) some_value
            enough reads)

  -- Before a value the lexer knows whether it is null, and null is skipped.
  pub at_value :
      (j : Json) (b : Bool) (l : L) (ts : List Token)
      → Reads b l (tokens j ts)
      → ((lexer.is_null l).0 ≡ is_null_value j) × Reads false (lexer.is_null l).1 (tokens j ts)
  unfolding tokens
  at_value null b l ts reads = laws.at_null b l null_token ts reads
  at_value (boolean x) b l ts reads = laws.at_null b l (boolean_token x) ts reads
  at_value (number n) b l ts reads = laws.at_null b l (number_token n) ts reads
  at_value (text x) b l ts reads = laws.at_null b l (text_token x) ts reads
  at_value (list xs) b l ts reads = laws.at_null b l (punct b'[') (items_tokens xs true ts) reads
  at_value (object ms) b l ts reads =
      laws.at_null b l (punct b'{') (members_tokens ms true ts) reads

  past_null_value :
      (j : Json)
      → is_null_value j ≡ true
      → (b : Bool) (l : L) (ts : List Token) → Reads b l (tokens j ts)
      → Reads false (lexer.skip l) ts
  unfolding tokens
  past_null_value null h b l ts reads = laws.past_null b l ts reads
  past_null_value (boolean x) h b l ts reads = let no : ⊥ = ground arith in elim no [ ]
  past_null_value (number n) h b l ts reads = let no : ⊥ = ground arith in elim no [ ]
  past_null_value (text x) h b l ts reads = let no : ⊥ = ground arith in elim no [ ]
  past_null_value (list xs) h b l ts reads = let no : ⊥ = ground arith in elim no [ ]
  past_null_value (object ms) h b l ts reads = let no : ⊥ = ground arith in elim no [ ]

  -- A value is not the end of a list.
  pub at_item :
      (j : Json) (b : Bool) (l : L) (ts : List Token)
      → Reads b l (tokens j ts)
      → ((lexer.is_delim b']' l).0 ≡ false) × Reads false (lexer.is_delim b']' l).1 (tokens j ts)
  unfolding tokens
  at_item null b l ts reads = laws.at_delim b']' b l null_token ts reads
  at_item (boolean x) b l ts reads = laws.at_delim b']' b l (boolean_token x) ts reads
  at_item (number n) b l ts reads = laws.at_delim b']' b l (number_token n) ts reads
  at_item (text x) b l ts reads = laws.at_delim b']' b l (text_token x) ts reads
  at_item (list xs) b l ts reads =
      laws.at_delim b']' b l (punct b'[') (items_tokens xs true ts) reads
  at_item (object ms) b l ts reads =
      laws.at_delim b']' b l (punct b'{') (members_tokens ms true ts) reads

  -- Between two members, and between two items, there is a comma; after the last one there is none.
  next_member :
      (ms : Members) (l : L) (ts : List Token)
      → Reads false l (members_tokens ms false ts)
      → Reads false (lexer.want_comma l) (members_tokens ms true ts)
  unfolding members_tokens
  next_member no_members l ts reads = laws.no_comma b'}' false l ts reads
  next_member (member k j ms) l ts reads = laws.past_comma false l _ reads

  pub next_item :
      (xs : Items) (l : L) (ts : List Token)
      → Reads false l (items_tokens xs false ts)
      → Reads false (lexer.want_comma l) (items_tokens xs true ts)
  unfolding items_tokens
  next_item no_items l ts reads = laws.no_comma b']' false l ts reads
  next_item (item j xs) l ts reads = laws.past_comma false l _ reads

  -- The steps of the loops.
  pub on_read-Gives :
      {A B : Type 0} (f : L → A → Option B) (o : Option (L × A)) (P : Option B → Type 0) (a : A)
      (ts : List Token)
      → Gives a ts o
      → ((l : L) → Reads false l ts → P (f l a))
      → P (on_read f o)
  on_read-Gives f o P a ts (l, e, reads) go = subst (λ x. P (on_read f x)) (sym e) (go l reads)

  pub read_fields-Gives :
      {T : Type 0} (cases : List (Case lexer T)) (rows : List (Row T))
      → AllAgree cases rows
      → (ms : Members) (fuel : ℕ) (v w : T) (b : Bool) (l : L) (ts : List Token)
      → put_members rows ms v ≡ some w
      → members_size ms < fuel
      → Reads b l (members_tokens ms true ts)
      → Gives w (punct b'}' ∷ ts) (read_fields lexer cases fuel l v)
  unfolding read_fields put_members members_size members_tokens
  read_fields-Gives cases rows h ms zero v w b l ts e enough reads =
      let no : ⊥ = omega (arith, enough) in elim no [ ]
  read_fields-Gives cases rows h no_members (suc fuel) v w b l ts e enough reads =
      let (end, after) = laws.at_delim b'}' b l (punct b'}') ts reads in
      subst (Gives w (punct b'}' ∷ ts)) (sym (if_true _ _ end)) (
        (lexer.is_delim b'}' l).1,
        ap (λ x. some ((lexer.is_delim b'}' l).1, x)) (ground (arith, e)),
        after,
      )
  read_fields-Gives cases rows h (member k j ms) (suc fuel) v w b l ts e enough reads =
      let (end, r1) = laws.at_delim b'}' b l (name k) _ reads in
      let (key, r2) = laws.past_name false _ k _ r1 in
      let r3 = laws.past_colon false _ _ r2 in
      let (is_null, r4) = at_value j false _ (members_tokens ms false ts) r3 in
      let before =
        (lexer.is_null (lexer.want_colon (lexer.field_name (lexer.is_delim b'}' l).1).1)).1 in
      let result = Gives w (punct b'}' ∷ ts) in
      subst result (sym (if_false _ _ end)) (elim (Bool-cases (is_null_value j)) [
        | inl nothing ↦
            let r5 =
              next_member ms _ ts
                (past_null_value j nothing false _ (members_tokens ms false ts) r4) in
            subst result (sym (if_true _ _ (is_null ∙ nothing))) (
              read_fields-Gives cases rows h ms fuel v w false _ ts
                (sym (put_members_null rows k j ms v nothing) ∙ e) (omega (arith, enough)) r5)
        | inr something ↦
            let (u, here, later) =
              bind_inverse (λ x. put_members rows ms x) _ w
                (sym (put_members_value rows k j ms v something) ∙ e) in
            subst result (sym (if_false _ _ (is_null ∙ something))) (
              on_read-Gives (λ m x. read_fields lexer cases fuel (lexer.want_comma m) x) _ result u
                (members_tokens ms false ts)
                (subst
                  (λ x. Gives u (members_tokens ms false ts) (choose lexer cases x fuel before v))
                  (sym key)
                  (choose-Agrees cases rows h k fuel j v u _ (members_tokens ms false ts) here
                    something (omega (arith, enough)) r4))
                (λ m r6.
                  read_fields-Gives cases rows h ms fuel u w false _ ts later
                    (omega (arith, enough)) (next_member ms m ts r6)))
      ])
