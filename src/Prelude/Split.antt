-- ===== src/Prelude/Split.antt =====
-- strings.Split and strings.Join for a separator of one byte.
use api_poll.Prelude.{
  ℕ, ◌≡◌, ◌≢◌, refl, ap, ◌∙◌, false, List, [], ◌∷◌, ◌++◌, Bytes, ◌==◌, if◌then◌else◌, arith,
  if_cases,
}

-- No byte of the text is `b`.
abbrev pub Lacks : ℕ → Bytes → Type 0
Lacks b [] = Unit
Lacks b (c ∷ s) = (c ≢ b) × Lacks b s

-- A byte in front of the first part.
abbrev pub put_first : ℕ → List Bytes → List Bytes
put_first c [] = (c ∷ []) ∷ []
put_first c (p ∷ ps) = (c ∷ p) ∷ ps

unfoldable pub split : ℕ → Bytes → List Bytes
split b [] = [] ∷ []
split b (c ∷ s) = let rest = split b s in if c == b then [] ∷ rest else put_first c rest

unfoldable pub join : ℕ → List Bytes → Bytes
join b [] = []
join b (p ∷ []) = p
join b (p ∷ q ∷ ps) = p ++ b ∷ join b (q ∷ ps)

differs : (c b : ℕ) → c ≢ b → (c == b) ≡ false
differs c b h = ground arith

-- The part before the first separator is the first one.
pub split-append : (b : ℕ) (t s : Bytes) → Lacks b t → split b (t ++ b ∷ s) ≡ t ∷ split b s
unfolding split
split-append b [] s h = ground arith
split-append b (c ∷ t) s h = simp (differs c b h.0) (ap (put_first c) (split-append b t s h.1))

pub split-Lacks : (b : ℕ) (t : Bytes) → Lacks b t → split b t ≡ t ∷ []
unfolding split
split-Lacks b [] h = refl
split-Lacks b (c ∷ t) h = simp (differs c b h.0) (ap (put_first c) (split-Lacks b t h.1))

-- Each part with a line end.
unfoldable pub write_lines : List Bytes → Bytes
write_lines [] = []
write_lines (l ∷ ls) = l ++ 10 ∷ write_lines ls

write_lines-put_first :
    (c : ℕ) (ps : List Bytes) → ps ≢ [] → write_lines (put_first c ps) ≡ c ∷ write_lines ps
unfolding write_lines
write_lines-put_first c [] h = absurd (h refl)
write_lines-put_first c (p ∷ ps) h = refl

split_ne : (b : ℕ) (s : Bytes) → split b s ≢ []
unfolding split
split_ne b [] h = ground (arith, h)
split_ne b (c ∷ s) h = ground (arith, h)

-- The lines of a text, each with a line end, are the text with one more line end.
pub write_lines-split : (s : Bytes) → write_lines (split 10 s) ≡ s ++ 10 ∷ []
unfolding write_lines split
write_lines-split [] = refl
write_lines-split (c ∷ s) =
    if_cases {A = List Bytes} (λ ps. write_lines ps ≡ c ∷ (s ++ 10 ∷ [])) (c == 10) _ _
      (λ end. let e : 10 ≡ c = ground arith in (λ i. e i ∷ write_lines-split s i))
      (λ other.
        write_lines-put_first c (split 10 s) (split_ne 10 s)
        ∙ ap (λ t. c ∷ t) (write_lines-split s))
