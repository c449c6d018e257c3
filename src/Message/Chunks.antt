-- ===== src/Message/Chunks.antt =====
-- The chunks of a message.
use api_poll.Prelude.{
  suc, ◌+◌, ◌≤◌, ◌<◌, ◌≡◌, refl, ap, ◌∙◌, List, [], ◌∷◌, ◌++◌, Bytes, length, length-append, concat,
  append_assoc, leb, ltb, if◌then◌else◌, if_cases, arith, Bool-cases, inl, inr, false,
}
use api_poll.Prelude.Split.{split, write_lines, write_lines-split}
use api_poll.Message.{limit, pack, send_message}

-- The parts that are sent: one that is too long by itself is left out.
unfoldable pub short : List Bytes → List Bytes
short [] = []
short (p ∷ ps) = let rest = short ps in if leb limit (length p) then rest else p ∷ rest

abbrev pub AllFit : List Bytes → Type 0
AllFit [] = Unit
AllFit (c ∷ cs) = (0 < length c) × (length c ≤ limit) × AllFit cs

pack-AllFit : (held : Bytes) (ps : List Bytes) → length held ≤ limit → AllFit (pack held ps)
unfolding pack
pack-AllFit held [] h =
    if_cases AllFit (ltb 0 (length held)) _ _ (λ some. (ground arith, h, tt)) (λ none. tt)
pack-AllFit held (p ∷ ps) h =
    if_cases AllFit (leb limit (length p)) _ _ (λ long. pack-AllFit held ps h)
      (λ fits.
        let added : length (p ++ 10 ∷ []) ≤ limit =
          ground (arith, fits, length-append p (10 ∷ [])) in
        if_cases AllFit (leb limit (length held + length p)) _ _
          (λ full. (ground (arith, fits, full), h, pack-AllFit (p ++ 10 ∷ []) ps added))
          (λ room.
            pack-AllFit (held ++ (p ++ 10 ∷ [])) ps
              (ground (arith, room, length-append held (p ++ 10 ∷ []), length-append p (10 ∷ [])))))

concat-pack :
    (held : Bytes) (ps : List Bytes) → concat (pack held ps) ≡ held ++ write_lines (short ps)
unfolding pack concat short write_lines
concat-pack [] [] = refl
concat-pack (c ∷ held) [] =
    if_cases {A = List Bytes} (λ cs. concat cs ≡ c ∷ (held ++ [])) (ltb 0 (suc (length held))) _ _
      (λ some. refl) (λ none. let no : ⊥ = ground (arith, none) in elim no [ ])
concat-pack held (p ∷ ps) = elim (Bool-cases (leb limit (length p))) [
  | inl long ↦ simp long (concat-pack held ps)
  | inr fits ↦
      let line = append_assoc p (10 ∷ []) (write_lines (short ps)) in
      simp fits (
        if_cases {A = List Bytes} (λ cs. concat cs ≡ held ++ (p ++ 10 ∷ write_lines (short ps)))
          (leb limit (length held + length p)) _ _
          (λ full. ap (λ s. held ++ s) (concat-pack (p ++ 10 ∷ []) ps ∙ line))
          (λ room.
            concat-pack (held ++ (p ++ 10 ∷ [])) ps
            ∙ append_assoc held (p ++ 10 ∷ []) (write_lines (short ps))
            ∙ ap (λ s. held ++ s) line))
]

-- A message goes out in chunks that are not empty and have at most 4096 bytes; together they are its
-- lines, in order and each with a line end, without those of 4096 bytes or more.
pub send_message-AllFit :
    (body : Bytes)
    → AllFit (send_message body)
      × (concat (send_message body) ≡ write_lines (short (split 10 body)))
unfolding send_message
send_message-AllFit body =
    (pack-AllFit [] (split 10 body) (omega arith), concat-pack [] (split 10 body))

abbrev pub AllShort : List Bytes → Type 0
AllShort [] = Unit
AllShort (p ∷ ps) = (length p < limit) × AllShort ps

short-AllShort : (ps : List Bytes) → AllShort ps → short ps ≡ ps
unfolding short
short-AllShort [] h = refl
short-AllShort (p ∷ ps) h =
    let e : leb limit (length p) ≡ false = ground (arith, h.0) in
    simp e (ap (λ qs. p ∷ qs) (short-AllShort ps h.1))

-- When every line is shorter than 4096 bytes, the chunks together are the message and one line end.
pub concat-send_message :
    (body : Bytes) → AllShort (split 10 body) → concat (send_message body) ≡ body ++ 10 ∷ []
concat-send_message body h =
    (send_message-AllFit body).1
    ∙ ap write_lines (short-AllShort (split 10 body) h)
    ∙ write_lines-split body
