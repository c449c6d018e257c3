-- ===== src/Json.antt =====
-- What internal/entity/upbit_easyjson.go and sucker_payload_easyjson.go are written over: the lexer and
-- the writer of mailru/easyjson, which are parameters, and JSON values, which say what a text holds.
pub mod Decode
pub mod Encode
pub mod Writes
pub mod TokenLexer
pub mod Fields
pub mod Reads
use api_poll.Prelude.{
  ℕ, suc, ◌+◌, ◌^◌, ◌≡◌, Bool, true, false, List, [], ◌∷◌, Option, none, some, Bytes, ltb, ◌==◌,
}
use api_poll.Prelude.Int.{ℤ, pos, negsuc}

mutual
  pub data Json : Type 0 where
    null : Json
    boolean : Bool → Json
    number : ℤ → Json
    text : Bytes → Json
    list : Items → Json
    object : Members → Json

  pub data Items : Type 0 where
    no_items : Items
    item : Json → Items → Items

  pub data Members : Type 0 where
    no_members : Members
    member : Bytes → Json → Members → Members

-- `punct` is a brace or a bracket.
pub data Token : Type 0 where
  null_token comma colon : Token
  punct : ℕ → Token
  boolean_token : Bool → Token
  number_token : ℤ → Token
  name text_token : Bytes → Token

abbrev pub sep : Bool → List Token → List Token
sep true ts = ts
sep false ts = comma ∷ ts

-- The tokens of a value before other ones. The flag says that no item or member stands before.
unfoldable mutual
  pub tokens : Json → List Token → List Token
  tokens null ts = null_token ∷ ts
  tokens (boolean b) ts = boolean_token b ∷ ts
  tokens (number n) ts = number_token n ∷ ts
  tokens (text s) ts = text_token s ∷ ts
  tokens (list xs) ts = punct b'[' ∷ items_tokens xs true ts
  tokens (object ms) ts = punct b'{' ∷ members_tokens ms true ts

  pub items_tokens : Items → Bool → List Token → List Token
  items_tokens no_items first ts = punct b']' ∷ ts
  items_tokens (item j xs) first ts = sep first (tokens j (items_tokens xs false ts))

  pub members_tokens : Members → Bool → List Token → List Token
  members_tokens no_members first ts = punct b'}' ∷ ts
  members_tokens (member k j ms) first ts =
      sep first (name k ∷ colon ∷ tokens j (members_tokens ms false ts))

unfoldable mutual
  pub size : Json → ℕ
  size null = 1
  size (boolean b) = 1
  size (number n) = 1
  size (text s) = 1
  size (list xs) = suc (items_size xs)
  size (object ms) = suc (members_size ms)

  pub items_size : Items → ℕ
  items_size no_items = 0
  items_size (item j xs) = suc (size j + items_size xs)

  pub members_size : Members → ℕ
  members_size no_members = 0
  members_size (member k j ms) = suc (size j + members_size ms)

abbrev pub is_int64 : ℤ → Bool
is_int64 (pos n) = ltb n (2 ^ 63)
is_int64 (negsuc n) = ltb n (2 ^ 63)

-- `jlexer.Lexer`, as a state that each method reads and changes. `add_error` takes whether the error is
-- one.
pub record Lexer (L : Type 0) : Type 0 where
  pub is_start : L → Bool
  pub ok : L → Bool
  pub error : L → Bool
  pub is_null : L → Bool × L
  pub is_delim : ℕ → L → Bool × L
  pub consumed : L → L
  pub skip : L → L
  pub skip_recursive : L → L
  pub want_colon : L → L
  pub want_comma : L → L
  pub delim : ℕ → L → L
  pub field_name : L → Bytes × L
  pub string : L → Bytes × L
  pub raw : L → Bytes × L
  pub int : L → ℤ × L
  pub int64 : L → ℤ × L
  pub bool : L → Bool × L
  pub add_error : Bool → L → L

abbrev pub is_null_token : Token → Bool
is_null_token null_token = true
is_null_token _ = false

abbrev pub is_punct : ℕ → Token → Bool
is_punct c (punct d) = d == c
is_punct c _ = false

-- What the lexer documents, for a text whose next tokens are known: `Reads b l ts` says that `l` has the
-- tokens `ts` before it, and with `b` that it stands at the start of the text.
pub record IsLexer {L : Type 0} (lexer : Lexer L) (quoted : Bytes → Bytes)
    (Reads : Bool → L → List Token → Type 0) : Type 0 where
  pub at_start : (b : Bool) (l : L) (ts : List Token) → Reads b l ts → lexer.is_start l ≡ b
  pub at_null :
      (b : Bool) (l : L) (t : Token) (ts : List Token)
      → Reads b l (t ∷ ts)
      → ((lexer.is_null l).0 ≡ is_null_token t) × Reads false (lexer.is_null l).1 (t ∷ ts)
  pub at_delim :
      (c : ℕ) (b : Bool) (l : L) (t : Token) (ts : List Token)
      → Reads b l (t ∷ ts)
      → ((lexer.is_delim c l).0 ≡ is_punct c t) × Reads false (lexer.is_delim c l).1 (t ∷ ts)
  pub past_delim :
      (c : ℕ) (b : Bool) (l : L) (ts : List Token)
      → Reads b l (punct c ∷ ts)
      → Reads false (lexer.delim c l) ts
  pub past_name :
      (b : Bool) (l : L) (k : Bytes) (ts : List Token)
      → Reads b l (name k ∷ ts)
      → ((lexer.field_name l).0 ≡ k) × Reads false (lexer.field_name l).1 ts
  pub past_colon :
      (b : Bool) (l : L) (ts : List Token)
      → Reads b l (colon ∷ ts)
      → Reads false (lexer.want_colon l) ts
  pub past_comma :
      (b : Bool) (l : L) (ts : List Token)
      → Reads b l (comma ∷ ts)
      → Reads false (lexer.want_comma l) ts
  pub no_comma :
      (c : ℕ) (b : Bool) (l : L) (ts : List Token)
      → Reads b l (punct c ∷ ts)
      → Reads false (lexer.want_comma l) (punct c ∷ ts)
  pub past_null :
      (b : Bool) (l : L) (ts : List Token)
      → Reads b l (null_token ∷ ts)
      → Reads false (lexer.skip l) ts
  pub past_value :
      (b : Bool) (l : L) (j : Json) (ts : List Token)
      → Reads b l (tokens j ts)
      → Reads false (lexer.skip_recursive l) ts
  pub past_text :
      (b : Bool) (l : L) (s : Bytes) (ts : List Token)
      → Reads b l (text_token s ∷ ts)
      → ((lexer.string l).0 ≡ s) × Reads false (lexer.string l).1 ts
  pub past_raw :
      (b : Bool) (l : L) (s : Bytes) (ts : List Token)
      → Reads b l (text_token s ∷ ts)
      → ((lexer.raw l).0 ≡ quoted s) × Reads false (lexer.raw l).1 ts
  pub past_int :
      (b : Bool) (l : L) (n : ℤ) (ts : List Token)
      → is_int64 n ≡ true
      → Reads b l (number_token n ∷ ts)
      → ((lexer.int l).0 ≡ n) × Reads false (lexer.int l).1 ts
  pub past_int64 :
      (b : Bool) (l : L) (n : ℤ) (ts : List Token)
      → is_int64 n ≡ true
      → Reads b l (number_token n ∷ ts)
      → ((lexer.int64 l).0 ≡ n) × Reads false (lexer.int64 l).1 ts
  pub past_bool :
      (b : Bool) (l : L) (t : Bool) (ts : List Token)
      → Reads b l (boolean_token t ∷ ts)
      → ((lexer.bool l).0 ≡ t) × Reads false (lexer.bool l).1 ts
  pub no_failure :
      (b : Bool) (l : L) (ts : List Token)
      → Reads b l ts
      → (lexer.ok l ≡ true) × (lexer.error l ≡ false) × Reads b (lexer.add_error false l) ts
  pub at_end : (b : Bool) (l : L) → Reads b l [] → Reads false (lexer.consumed l) []
