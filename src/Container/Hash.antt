-- ===== src/Container/Hash.antt =====
-- `getHash` of pkg/container/sharded_map_ts.go: the bytes of a key that are hashed. The hash of package
-- hash/maphash is a parameter, with its seed; so is what package encoding/gob writes for a key of another
-- type. A number stands in memory as a word of its type's bits, with the lowest byte first, and an int
-- has 64 bits.
use api_poll.Prelude.{
  ℕ, zero, suc, ◌+◌, ◌-◌, ◌*◌, ◌/◌, ◌%◌, ◌^◌, ◌<◌, ◌≡◌, ◌≢◌, refl, sym, ap, ◌∙◌, Bool, true, false,
  [], ◌∷◌, Bytes, arith,
}
use api_poll.Prelude.Int.{ℤ, pos, negsuc}

-- The types of the switch, but for its default.
pub data KeyType : Type 0 where
  string bool : KeyType
  int int64 int32 int16 int8 : KeyType
  uint uint64 uint32 uint16 uint8 : KeyType
  float64 float32 : KeyType

-- The values of a type. A float is its bits.
abbrev pub Value : KeyType → Type 0
Value string = Bytes
Value bool = Bool
Value int = ℤ
Value int64 = ℤ
Value int32 = ℤ
Value int16 = ℤ
Value int8 = ℤ
Value uint = ℕ
Value uint64 = ℕ
Value uint32 = ℕ
Value uint16 = ℕ
Value uint8 = ℕ
Value float64 = ℕ
Value float32 = ℕ

-- The first bytes of the memory of a word.
unfoldable pub bytes_of : ℕ → ℕ → Bytes
bytes_of zero n = []
bytes_of (suc width) n = n % 256 ∷ bytes_of width (n / 256)

-- The word of a number, among `range` words: two's complement.
unfoldable pub word_of : ℕ → ℤ → ℕ
word_of range (pos n) = n
word_of range (negsuc n) = range - suc n

abbrev pub byte_of : Bool → ℕ
byte_of true = 1
byte_of false = 0

-- The cases of the switch: as many bytes of the key's memory as the array type of the case has.
unfoldable pub hashed_bytes : (t : KeyType) → Value t → Bytes
unfolding bytes_of word_of
hashed_bytes string s = s
hashed_bytes int n = bytes_of 8 (word_of (2 ^ 64) n)
hashed_bytes int64 n = bytes_of 8 (word_of (2 ^ 64) n)
hashed_bytes int32 n = bytes_of 4 (word_of (2 ^ 32) n)
hashed_bytes int16 n = bytes_of 2 (word_of (2 ^ 16) n)
hashed_bytes int8 n = bytes_of 1 (word_of (2 ^ 8) n)
hashed_bytes uint n = bytes_of 8 n
hashed_bytes uint64 n = bytes_of 8 n
hashed_bytes uint32 n = bytes_of 4 n
hashed_bytes uint16 n = bytes_of 2 n
hashed_bytes uint8 n = bytes_of 1 n
hashed_bytes float64 n = bytes_of 8 n
hashed_bytes float32 n = bytes_of 4 n
hashed_bytes bool b = byte_of b ∷ []

-- A key: of a type of the switch, or of another one, as what gob writes for it.
pub data AnyKey : Type 0 where
  native : (t : KeyType) → Value t → AnyKey
  other : Bytes → AnyKey

unfoldable pub get_hash : (Bytes → ℕ) → (Bytes → ℕ) → AnyKey → ℕ
unfolding hashed_bytes
get_hash hash_string hash_bytes (native string s) = hash_string s
get_hash hash_string hash_bytes (native t v) = hash_bytes (hashed_bytes t v)
get_hash hash_string hash_bytes (other written) = hash_bytes written

-- The number that bytes stand for.
abbrev pub number_of : Bytes → ℕ
number_of [] = 0
number_of (b ∷ bs) = b + 256 * number_of bs

-- How many numbers fit into bytes.
unfoldable range_of : ℕ → ℕ
range_of zero = 1
range_of (suc width) = 256 * range_of width

number_of-bytes_of : (width n : ℕ) → n < range_of width → number_of (bytes_of width n) ≡ n
unfolding bytes_of range_of
number_of-bytes_of zero n h = omega (arith, h)
number_of-bytes_of (suc width) n h =
    let smaller : n / 256 < range_of width = omega (arith, h) in
    omega (arith, number_of-bytes_of width (n / 256) smaller)

bytes_of-injective :
    (width m n : ℕ)
    → m < range_of width
    → n < range_of width
    → bytes_of width m ≡ bytes_of width n
    → m ≡ n
bytes_of-injective width m n h k e =
    sym (number_of-bytes_of width m h) ∙ ap number_of e ∙ number_of-bytes_of width n k

-- The range of a signed type, for the number of its words.
abbrev pub IsSigned : ℕ → ℤ → Type 0
IsSigned range (pos n) = 2 * n < range
IsSigned range (negsuc n) = 2 * n + 1 < range

-- The range of a type.
abbrev pub Fits : (t : KeyType) → Value t → Type 0
Fits string s = Unit
Fits bool b = Unit
Fits int n = IsSigned (2 ^ 64) n
Fits int64 n = IsSigned (2 ^ 64) n
Fits int32 n = IsSigned (2 ^ 32) n
Fits int16 n = IsSigned (2 ^ 16) n
Fits int8 n = IsSigned (2 ^ 8) n
Fits uint n = n < 2 ^ 64
Fits uint64 n = n < 2 ^ 64
Fits uint32 n = n < 2 ^ 32
Fits uint16 n = n < 2 ^ 16
Fits uint8 n = n < 2 ^ 8
Fits float64 n = n < 2 ^ 64
Fits float32 n = n < 2 ^ 32

word_of-lt : (range : ℕ) (n : ℤ) → IsSigned range n → word_of range n < range
unfolding word_of
word_of-lt range (pos n) h = omega (arith, h)
word_of-lt range (negsuc n) h = omega (arith, h)

word_of-injective :
    (range : ℕ) (m n : ℤ)
    → IsSigned range m
    → IsSigned range n
    → word_of range m ≡ word_of range n
    → m ≡ n
unfolding word_of
word_of-injective range (pos m) (pos n) h k e = ap pos e
word_of-injective range (pos m) (negsuc n) h k e =
    let no : ⊥ = omega (arith, h, k, e) in elim no [ ]
word_of-injective range (negsuc m) (pos n) h k e =
    let no : ⊥ = omega (arith, h, k, e) in elim no [ ]
word_of-injective range (negsuc m) (negsuc n) h k e =
    let same : m ≡ n = omega (arith, h, k, e) in ap negsuc same

signed-injective :
    (width : ℕ) (m n : ℤ)
    → IsSigned (range_of width) m
    → IsSigned (range_of width) n
    → bytes_of width (word_of (range_of width) m) ≡ bytes_of width (word_of (range_of width) n)
    → m ≡ n
signed-injective width m n h k e = word_of-injective (range_of width) m n h k (
    bytes_of-injective width (word_of (range_of width) m) (word_of (range_of width) n)
      (word_of-lt (range_of width) m h) (word_of-lt (range_of width) n k) e)

same_key :
    (t : KeyType) (v w : Value t)
    → Fits t v
    → Fits t w
    → hashed_bytes t v ≡ hashed_bytes t w
    → v ≡ w
unfolding hashed_bytes range_of
same_key string v w h k e = e
same_key bool true true h k e = refl
same_key bool true false h k e = let no : ⊥ = ground (arith, e) in elim no [ ]
same_key bool false true h k e = let no : ⊥ = ground (arith, e) in elim no [ ]
same_key bool false false h k e = refl
same_key int v w h k e = signed-injective 8 v w h k e
same_key int64 v w h k e = signed-injective 8 v w h k e
same_key int32 v w h k e = signed-injective 4 v w h k e
same_key int16 v w h k e = signed-injective 2 v w h k e
same_key int8 v w h k e = signed-injective 1 v w h k e
same_key uint v w h k e = bytes_of-injective 8 v w h k e
same_key uint64 v w h k e = bytes_of-injective 8 v w h k e
same_key uint32 v w h k e = bytes_of-injective 4 v w h k e
same_key uint16 v w h k e = bytes_of-injective 2 v w h k e
same_key uint8 v w h k e = bytes_of-injective 1 v w h k e
same_key float64 v w h k e = bytes_of-injective 8 v w h k e
same_key float32 v w h k e = bytes_of-injective 4 v w h k e

-- Every case of the switch but the default hashes enough of the key: two different keys of one type, each
-- within the range of the type, and floats different if their bits are, are hashed from different bytes.
pub hashed_bytes-injective :
    (t : KeyType) (v w : Value t)
    → Fits t v
    → Fits t w
    → v ≢ w
    → hashed_bytes t v ≢ hashed_bytes t w
hashed_bytes-injective t v w h k n e = n (same_key t v w h k e)
