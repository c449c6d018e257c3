-- ===== src/Json/Reads/Setters.antt =====
-- Each setter of the cases reads what its row says of the value before it.
use api_poll.Prelude.{
  ℕ, ◌≡◌, sym, ap, ◌∙◌, subst, Bool, true, false, List, [], ◌∷◌, none, some, Bytes, if_true,
  if_false, Bool-cases, inl, inr, arith,
}
use api_poll.Prelude.Int.{ℤ}
use api_poll.Json.{
  null, boolean, number, text, list, object, Token, punct, number_token, tokens, size, is_int64,
  Lexer, IsLexer,
}
use api_poll.Json.Decode.{
  Case, read_object, set_int, set_int64, set_string, set_bool, set_time, set_object, set_list,
}
use api_poll.Json.Fields.{
  Row, put_object, put_number, put_text, put_boolean, put_time, put_field, put_list,
}
use api_poll.Json.Reads.{bind_inverse, Agrees, AllAgree, Gives, at_value, on_read-Gives}
use api_poll.Json.Reads.Objects.{before_items-Reads, read_value-Gives, read_items-Gives}

impossible : {A B : Type 0} (a : A) → none ≡ some a → B
impossible a e = let no : ⊥ = ground (arith, e) in elim no [ ]

some-injective : {A : Type 0} {a b : A} → some a ≡ some b → a ≡ b
some-injective {a = a} {b = b} e = let same : a ≡ b = ground (arith, e) in same

module _ {L : Type 0} {lexer : Lexer L} {quoted : Bytes → Bytes}
    {Reads : Bool → L → List Token → Type 0} (laws : IsLexer lexer quoted Reads) where
  module _ {T : Type 0} where
    -- An integer, as `int` and `int64` read it.
    number-Agrees :
        (read : L → ℤ × L) (put : ℤ → T → T)
        → ((b : Bool) (l : L) (n : ℤ) (ts : List Token)
            → is_int64 n ≡ true
            → Reads b l (number_token n ∷ ts)
            → ((read l).0 ≡ n) × Reads false (read l).1 ts)
        → Agrees laws (λ fuel l v. some ((read l).1, put (read l).0 v)) (put_number put)
    unfolding tokens
    number-Agrees read put past fuel (number n) v w l ts e something enough reads =
        elim (Bool-cases (is_int64 n)) [
          | inl fits ↦
              let (same, after) = past false l n ts fits reads in
              let put_same : put n v ≡ w = some-injective (sym (if_true _ _ fits) ∙ e) in
              (
                (read l).1,
                ap (λ x. some ((read l).1, x)) (ap (λ m. put m v) same ∙ put_same),
                after,
              )
          | inr wide ↦ impossible w (sym (if_false _ _ wide) ∙ e)
        ]
    number-Agrees read put past fuel null v w l ts e something enough reads = impossible w e
    number-Agrees read put past fuel (boolean x) v w l ts e something enough reads = impossible w e
    number-Agrees read put past fuel (text x) v w l ts e something enough reads = impossible w e
    number-Agrees read put past fuel (list x) v w l ts e something enough reads = impossible w e
    number-Agrees read put past fuel (object x) v w l ts e something enough reads = impossible w e

    pub set_int-Agrees : (put : ℤ → T → T) → Agrees laws (set_int lexer put) (put_number put)
    unfolding set_int
    set_int-Agrees put = number-Agrees lexer.int put laws.past_int

    pub set_int64-Agrees : (put : ℤ → T → T) → Agrees laws (set_int64 lexer put) (put_number put)
    unfolding set_int64
    set_int64-Agrees put = number-Agrees lexer.int64 put laws.past_int64

    pub set_string-Agrees :
        (put : Bytes → T → T) → Agrees laws (set_string lexer put) (put_text put)
    unfolding set_string tokens
    set_string-Agrees put fuel (text s) v w l ts e something enough reads =
        let (same, after) = laws.past_text false l s ts reads in
        let put_same : put s v ≡ w = some-injective e in
        (
          (lexer.string l).1,
          ap (λ x. some ((lexer.string l).1, x)) (ap (λ t. put t v) same ∙ put_same),
          after,
        )
    set_string-Agrees put fuel null v w l ts e something enough reads = impossible w e
    set_string-Agrees put fuel (boolean x) v w l ts e something enough reads = impossible w e
    set_string-Agrees put fuel (number x) v w l ts e something enough reads = impossible w e
    set_string-Agrees put fuel (list x) v w l ts e something enough reads = impossible w e
    set_string-Agrees put fuel (object x) v w l ts e something enough reads = impossible w e

    pub set_bool-Agrees : (put : Bool → T → T) → Agrees laws (set_bool lexer put) (put_boolean put)
    unfolding set_bool tokens
    set_bool-Agrees put fuel (boolean t) v w l ts e something enough reads =
        let (same, after) = laws.past_bool false l t ts reads in
        let put_same : put t v ≡ w = some-injective e in
        (
          (lexer.bool l).1,
          ap (λ x. some ((lexer.bool l).1, x)) (ap (λ s. put s v) same ∙ put_same),
          after,
        )
    set_bool-Agrees put fuel null v w l ts e something enough reads = impossible w e
    set_bool-Agrees put fuel (number x) v w l ts e something enough reads = impossible w e
    set_bool-Agrees put fuel (text x) v w l ts e something enough reads = impossible w e
    set_bool-Agrees put fuel (list x) v w l ts e something enough reads = impossible w e
    set_bool-Agrees put fuel (object x) v w l ts e something enough reads = impossible w e

    pub set_time-Agrees :
        (unmarshal : Bytes → ℕ × Bool) (put : ℕ → T → T)
        → Agrees laws (set_time lexer unmarshal put) (put_time quoted unmarshal put)
    unfolding set_time tokens
    set_time-Agrees unmarshal put fuel (text s) v w l ts e something enough reads =
        let (raw, r1) = laws.past_raw false l s ts reads in
        let (fine, no_error, r2) = laws.no_failure false _ ts r1 in
        elim (Bool-cases (unmarshal (quoted s)).1) [
          | inl failed ↦ impossible w (sym (if_true _ _ failed) ∙ e)
          | inr taken ↦
              let put_same : put (unmarshal (quoted s)).0 v ≡ w =
                some-injective (sym (if_false _ _ taken) ∙ e) in
              let l1 = (lexer.raw l).1 in
              (
                lexer.add_error false l1,
                ap some (
                    if_true _ _ fine
                    ∙ ap (λ x. (lexer.add_error (unmarshal x).1 l1, put (unmarshal x).0 v)) raw
                    ∙ ap (λ x. (lexer.add_error x l1, put (unmarshal (quoted s)).0 v)) taken
                    ∙ ap (λ x. (lexer.add_error false l1, x)) put_same),
                r2,
              )
        ]
    set_time-Agrees unmarshal put fuel null v w l ts e something enough reads = impossible w e
    set_time-Agrees unmarshal put fuel (boolean x) v w l ts e something enough reads =
        impossible w e
    set_time-Agrees unmarshal put fuel (number x) v w l ts e something enough reads = impossible w e
    set_time-Agrees unmarshal put fuel (list x) v w l ts e something enough reads = impossible w e
    set_time-Agrees unmarshal put fuel (object x) v w l ts e something enough reads = impossible w e

    module _ {A : Type 0} (cases : List (Case lexer A)) (rows : List (Row A))
        (h : AllAgree laws cases rows) where
      pub set_object-Agrees :
          (field : T → A) (put : A → T → T)
          → Agrees laws (set_object lexer cases field put) (put_field rows field put)
      unfolding set_object put_field
      set_object-Agrees field put fuel j v w l ts e something enough reads =
          let (a, here, later) = bind_inverse (λ a. some (put a v)) _ w e in
          on_read-Gives laws (λ l1 x. some (l1, put x v)) _ (Gives laws w ts) a ts
            (read_value-Gives laws cases rows h j fuel (field v) a l ts here enough reads)
            (λ l1 r1. (l1, ap (λ x. some (l1, x)) (some-injective later), r1))

      pub set_list-Agrees :
          (empty : A) (field : T → List A) (put : List A → T → T)
          → Agrees laws (set_list lexer cases empty field put) (put_list rows empty put)
      unfolding set_list put_list tokens size
      set_list-Agrees empty field put fuel (list xs) v w l ts e something enough reads =
          let (as', here, later) = bind_inverse (λ x. some (put x v)) _ w e in
          let (is_null, r1) = at_value laws (list xs) false l ts reads in
          let r2 = laws.past_delim b'[' false _ _ r1 in
          let r3 = before_items-Reads laws xs (field v) _ ts r2 in
          subst (Gives laws w ts) (sym (if_false _ _ is_null)) (
            on_read-Gives laws (λ l4 x. some (lexer.delim b']' l4, put x v)) _ (Gives laws w ts) as'
              (punct b']' ∷ ts)
              (read_items-Gives laws (λ n k. read_object lexer cases n k empty)
                (λ i. put_object rows i empty)
                (λ i a n k us read more at.
                  read_value-Gives laws cases rows h i n empty a k us read more at)
                xs fuel [] as' _ ts here (omega (arith, enough)) r3)
              (λ l4 r4. (
                lexer.delim b']' l4,
                ap (λ x. some (lexer.delim b']' l4, x)) (some-injective later),
                laws.past_delim b']' false l4 ts r4,
              )))
      set_list-Agrees empty field put fuel null v w l ts e something enough reads = impossible w e
      set_list-Agrees empty field put fuel (boolean x) v w l ts e something enough reads =
          impossible w e
      set_list-Agrees empty field put fuel (number x) v w l ts e something enough reads =
          impossible w e
      set_list-Agrees empty field put fuel (text x) v w l ts e something enough reads =
          impossible w e
      set_list-Agrees empty field put fuel (object x) v w l ts e something enough reads =
          impossible w e
