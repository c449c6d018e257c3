-- ===== src/Prelude/Trim.antt =====
-- strings.TrimSpace: the runes of unicode.IsSpace are taken off both ends.
use api_poll.Prelude.{
  ℕ, zero, suc, ◌≡◌, refl, List, [], ◌∷◌, ◌++◌, Bytes, utf8, length, drop, reverse, has_prefix,
  if◌then◌else◌,
}

-- The runes in UTF-8.
abbrev pub spaces : List Bytes
spaces =
    (9 ∷ [])
    ∷ (10 ∷ [])
    ∷ (11 ∷ [])
    ∷ (12 ∷ [])
    ∷ (13 ∷ [])
    ∷ (32 ∷ [])
    ∷ (0xc2 ∷ 0x85 ∷ [])
    ∷ (0xc2 ∷ 0xa0 ∷ [])
    ∷ (0xe1 ∷ 0x9a ∷ 0x80 ∷ [])
    ∷ (0xe2 ∷ 0x80 ∷ 0x80 ∷ [])
    ∷ (0xe2 ∷ 0x80 ∷ 0x81 ∷ [])
    ∷ (0xe2 ∷ 0x80 ∷ 0x82 ∷ [])
    ∷ (0xe2 ∷ 0x80 ∷ 0x83 ∷ [])
    ∷ (0xe2 ∷ 0x80 ∷ 0x84 ∷ [])
    ∷ (0xe2 ∷ 0x80 ∷ 0x85 ∷ [])
    ∷ (0xe2 ∷ 0x80 ∷ 0x86 ∷ [])
    ∷ (0xe2 ∷ 0x80 ∷ 0x87 ∷ [])
    ∷ (0xe2 ∷ 0x80 ∷ 0x88 ∷ [])
    ∷ (0xe2 ∷ 0x80 ∷ 0x89 ∷ [])
    ∷ (0xe2 ∷ 0x80 ∷ 0x8a ∷ [])
    ∷ (0xe2 ∷ 0x80 ∷ 0xa8 ∷ [])
    ∷ (0xe2 ∷ 0x80 ∷ 0xa9 ∷ [])
    ∷ (0xe2 ∷ 0x80 ∷ 0xaf ∷ [])
    ∷ (0xe2 ∷ 0x81 ∷ 0x9f ∷ [])
    ∷ (0xe3 ∷ 0x80 ∷ 0x80 ∷ [])
    ∷ []

-- The length of the space in front, 0 if there is none.
unfoldable pub space_length : List Bytes → Bytes → ℕ
unfolding has_prefix
space_length [] s = 0
space_length (p ∷ ps) s = if has_prefix s p then length p else space_length ps s

-- At most as many spaces as there are bytes.
unfoldable pub trim_front : List Bytes → ℕ → Bytes → Bytes
unfolding space_length
trim_front ps zero s = s
trim_front ps (suc n) s =
    let rest = trim_front ps n (drop (space_length ps s) s) in
    elim (space_length ps s) [ zero ↦ s | suc k ↦ rest ]

abbrev reversed : List Bytes → List Bytes
reversed [] = []
reversed (p ∷ ps) = reverse p ∷ reversed ps

unfoldable pub trim_space : Bytes → Bytes
unfolding trim_front
trim_space s =
    let t = trim_front spaces (length s) s in
    reverse (trim_front (reversed spaces) (length t) (reverse t))

trims : trim_space (utf8 " a b\t\n") ≡ utf8 "a b"
unfolding trim_space
trims = refl

-- strings.Fields: the parts between spaces that are not empty, with the part that has begun. At most
-- as many steps as there are bytes.
abbrev put_part : Bytes → List Bytes → List Bytes
put_part [] ps = ps
put_part (c ∷ cs) ps = (c ∷ cs) ∷ ps

unfoldable pub fields_from : ℕ → Bytes → Bytes → List Bytes
unfolding space_length
fields_from zero part s = put_part part []
fields_from (suc n) part [] = put_part part []
fields_from (suc n) part (c ∷ cs) =
    let longer = fields_from n (part ++ c ∷ []) cs in
    let next = fields_from n [] (drop (space_length spaces (c ∷ cs)) (c ∷ cs)) in
    elim (space_length spaces (c ∷ cs)) [ zero ↦ longer | suc k ↦ put_part part next ]

unfoldable pub fields : Bytes → List Bytes
unfolding fields_from
fields s = fields_from (suc (length s)) [] s

takes_apart : fields (utf8 " HTTP/1.1  200 OK") ≡ utf8 "HTTP/1.1" ∷ utf8 "200" ∷ utf8 "OK" ∷ []
unfolding fields
takes_apart = refl
