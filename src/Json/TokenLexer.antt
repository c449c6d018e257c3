-- ===== src/Json/TokenLexer.antt =====
-- A lexer over a list of tokens and a writer over a text, which do what the libraries document.
use api_poll.Prelude.{
  ℕ, zero, suc, ◌≡◌, refl, sym, ap, ◌∙◌, subst, Bool, true, false, List, [], ◌∷◌, ◌++◌,
  append_assoc, Bytes, utf8, if◌then◌else◌, ◌==◌,
}
use api_poll.Prelude.Int.{ℤ, pos}
use api_poll.Prelude.Decimal.{itoa}
use api_poll.Json.{
  Json, null, boolean, number, text, list, object, Items, no_items, item, Members, no_members,
  member, Token, comma, colon, punct, name, null_token, boolean_token, number_token, text_token,
  tokens, items_tokens, members_tokens, is_null_token, is_punct, Lexer, IsLexer,
}
use api_poll.Json.Encode.{Writer}
use api_poll.Json.Writes.{Texts, Writes, IsWriter}

abbrev pub At : Type 0
At = Bool × List Token

abbrev next : At → Token
next (b, []) = comma
next (b, t ∷ ts) = t

abbrev after : At → At
after (b, []) = (false, [])
after (b, t ∷ ts) = (false, ts)

abbrev here : At → At
here (b, ts) = (false, ts)

abbrev skip_comma : At → At
skip_comma (b, comma ∷ ts) = (false, ts)
skip_comma (b, ts) = (false, ts)

-- To the end of the value that is open `depth` times.
skip_open : ℕ → List Token → List Token
skip_open depth [] = []
skip_open zero ts = ts
skip_open (suc depth) (punct c ∷ ts) =
    let shallower = skip_open depth ts in
    let deeper = skip_open (suc (suc depth)) ts in
    if c == b'{' then deeper else if c == b'[' then deeper else shallower
skip_open (suc depth) (t ∷ ts) = skip_open (suc depth) ts

abbrev skip_one : List Token → List Token
skip_one [] = []
skip_one (punct c ∷ ts) = skip_open 1 ts
skip_one (t ∷ ts) = ts

abbrev bytes_of : Token → Bytes
bytes_of (text_token s) = s
bytes_of (name s) = s
bytes_of _ = []

abbrev int_of : Token → ℤ
int_of (number_token n) = n
int_of _ = pos 0

abbrev bool_of : Token → Bool
bool_of (boolean_token b) = b
bool_of _ = false

abbrev pub quotes : Bytes → Bytes
quotes s = b'"' ∷ (s ++ b'"' ∷ [])

unfoldable pub token_lexer : Lexer At
unfolding skip_open
token_lexer = record {
  is_start = λ l. l.0;
  ok = λ l. true;
  error = λ l. false;
  is_null = λ l. (is_null_token (next l), here l);
  is_delim = λ c l. (is_punct c (next l), here l);
  consumed = here;
  skip = after;
  skip_recursive = λ l. (false, skip_one l.1);
  want_colon = after;
  want_comma = skip_comma;
  delim = λ c l. after l;
  field_name = λ l. (bytes_of (next l), after l);
  string = λ l. (bytes_of (next l), after l);
  raw = λ l. (quotes (bytes_of (next l)), after l);
  int = λ l. (int_of (next l), after l);
  int64 = λ l. (int_of (next l), after l);
  bool = λ l. (bool_of (next l), after l);
  add_error = λ e l. l;
}

mutual
  unfolding skip_open tokens

  skip_open-tokens :
      (depth : ℕ) (j : Json) (ts : List Token)
      → skip_open (suc depth) (tokens j ts) ≡ skip_open (suc depth) ts
  skip_open-tokens depth null ts = refl
  skip_open-tokens depth (boolean x) ts = refl
  skip_open-tokens depth (number n) ts = refl
  skip_open-tokens depth (text x) ts = refl
  skip_open-tokens depth (list xs) ts = skip_open-items (suc depth) xs true ts
  skip_open-tokens depth (object ms) ts = skip_open-members (suc depth) ms true ts

  skip_open-items :
      (depth : ℕ) (xs : Items) (first : Bool) (ts : List Token)
      → skip_open (suc depth) (items_tokens xs first ts) ≡ skip_open depth ts
  skip_open-items depth no_items first ts = refl
  skip_open-items depth (item j xs) true ts =
      skip_open-tokens depth j (items_tokens xs false ts) ∙ skip_open-items depth xs false ts
  skip_open-items depth (item j xs) false ts =
      skip_open-tokens depth j (items_tokens xs false ts) ∙ skip_open-items depth xs false ts

  skip_open-members :
      (depth : ℕ) (ms : Members) (first : Bool) (ts : List Token)
      → skip_open (suc depth) (members_tokens ms first ts) ≡ skip_open depth ts
  skip_open-members depth no_members first ts = refl
  skip_open-members depth (member k j ms) true ts =
      skip_open-tokens depth j (members_tokens ms false ts) ∙ skip_open-members depth ms false ts
  skip_open-members depth (member k j ms) false ts =
      skip_open-tokens depth j (members_tokens ms false ts) ∙ skip_open-members depth ms false ts

skip_open-zero : (ts : List Token) → skip_open zero ts ≡ ts
unfolding skip_open
skip_open-zero [] = refl
skip_open-zero (t ∷ ts) = refl

skip_one-tokens : (j : Json) (ts : List Token) → skip_one (tokens j ts) ≡ ts
unfolding tokens
skip_one-tokens null ts = refl
skip_one-tokens (boolean x) ts = refl
skip_one-tokens (number n) ts = refl
skip_one-tokens (text x) ts = refl
skip_one-tokens (list xs) ts = skip_open-items zero xs true ts ∙ skip_open-zero ts
skip_one-tokens (object ms) ts = skip_open-members zero ms true ts ∙ skip_open-zero ts

abbrev pub Stands : Bool → At → List Token → Type 0
Stands b l ts = (l.0 ≡ b) × (l.1 ≡ ts)

next_token :
    (b : Bool) (l : At) (t : Token) (ts : List Token)
    → Stands b l (t ∷ ts)
    → (next l ≡ t) × Stands false (after l) ts
next_token b (c, us) t ts (same, e) =
    subst (λ vs. (next (c, vs) ≡ t) × Stands false (after (c, vs)) ts) (sym e) (refl, (refl, refl))

pub token_lexer-IsLexer : IsLexer token_lexer quotes Stands
unfolding token_lexer
token_lexer-IsLexer = record {
  at_start = λ b l ts h. h.0;
  at_null = λ b l t ts h. (ap is_null_token (next_token b l t ts h).0, (refl, h.1));
  at_delim = λ c b l t ts h. (ap (is_punct c) (next_token b l t ts h).0, (refl, h.1));
  past_delim = λ c b l ts h. (next_token b l (punct c) ts h).1;
  past_name = λ b l k ts h. let (e, r) = next_token b l (name k) ts h in (ap bytes_of e, r);
  past_colon = λ b l ts h. (next_token b l colon ts h).1;
  past_comma =
      λ b l ts h. subst (λ us. Stands false (skip_comma (l.0, us)) ts) (sym h.1) (refl, refl);
  no_comma = λ c b l ts h.
      subst (λ us. Stands false (skip_comma (l.0, us)) (punct c ∷ ts)) (sym h.1) (refl, refl);
  past_null = λ b l ts h. (next_token b l null_token ts h).1;
  past_value = λ b l j ts h. (refl, ap skip_one h.1 ∙ skip_one-tokens j ts);
  past_text = λ b l s ts h. let (e, r) = next_token b l (text_token s) ts h in (ap bytes_of e, r);
  past_raw = λ b l s ts h.
      let (e, r) = next_token b l (text_token s) ts h in (ap (λ t. quotes (bytes_of t)) e, r);
  past_int =
      λ b l n ts fits h. let (e, r) = next_token b l (number_token n) ts h in (ap int_of e, r);
  past_int64 =
      λ b l n ts fits h. let (e, r) = next_token b l (number_token n) ts h in (ap int_of e, r);
  past_bool = λ b l t ts h. let (e, r) = next_token b l (boolean_token t) ts h in (ap bool_of e, r);
  no_failure = λ b l ts h. (refl, refl, h);
  at_end = λ b l h. (refl, h.1);
}

abbrev pub plain_texts : Texts
plain_texts = record {
  quoted = quotes;
  decimal = itoa;
  truth = λ b. utf8 (if b then "true" else "false");
}

abbrev put_text : Bytes → Bytes → Bytes
put_text t w = w ++ t

unfoldable pub text_writer : Writer Bytes
text_writer = record {
  nil_slice_as_empty = λ w. false;
  written = λ w. w;
  failed = λ w. false;
  raw_string = put_text;
  int = λ n w. put_text (itoa n) w;
  int64 = λ n w. put_text (itoa n) w;
  string = λ t w. put_text (quotes t) w;
  bool = λ b w. put_text (plain_texts.truth b) w;
  raw = λ (bytes, failed) w. put_text bytes w;
}

adds_text : (t : Bytes) → Writes text_writer (put_text t) (λ s. t ++ s)
unfolding text_writer
adds_text t = record { still_ready = λ w ready. ready; adds = λ w ready s. append_assoc w t s }

pub text_writer-IsWriter : IsWriter plain_texts text_writer
unfolding text_writer
text_writer-IsWriter = record {
  writes_raw_string = adds_text;
  writes_int = λ n. adds_text (itoa n);
  writes_int64 = λ n. adds_text (itoa n);
  writes_string = λ t. adds_text (quotes t);
  writes_bool = λ b. adds_text (plain_texts.truth b);
  writes_raw = λ c t. adds_text (c ∷ t);
}
