-- ===== src/Notice/Parse.antt =====
-- What `parseNoticePage` extracts.
use api_poll.Prelude.{
  zero, suc, ◌+◌, ◌≡◌, false, [], ◌∷◌, ◌++◌, some, arith, Bytes, has_prefix, index, length, take,
  drop, Option-cases, inl, inr, ap, sym, ◌∙◌, length-append, length-take, subst,
}
use api_poll.Prelude.Search.{
  NoneBefore, index-first, index_complete, index-split, drop-append, take-append, drop-drop,
  has_prefix-append,
}
use api_poll.Prelude.Split.{Lacks}
use api_poll.Notice.{found, content_of, parse_notice_page, meta_tag_start, meta_tag_end}

-- The content ends at the first `" />`, so a title without a quotation mark ends at its own mark.
quote_ends :
    (t post : Bytes)
    → Lacks b'"' t
    → index (t ++ (meta_tag_end ++ post)) meta_tag_end ≡ some (length t)
quote_ends t post lacks =
    index_complete (t ++ (meta_tag_end ++ post)) meta_tag_end (length t)
      (omega (arith, length-append t (meta_tag_end ++ post)))
      (rw (drop-append t (meta_tag_end ++ post)) (has_prefix-append meta_tag_end post))
      (no_quote t post lacks)
  where
    no_quote :
        (t post : Bytes)
        → Lacks b'"' t
        → NoneBefore (length t) (t ++ (meta_tag_end ++ post)) meta_tag_end
    no_quote [] post lacks j lt = absurd (omega arith)
    no_quote (c ∷ t) post lacks zero lt = unfold has_prefix meta_tag_end in ground arith
    no_quote (c ∷ t) post lacks (suc j) lt = no_quote t post lacks.1 j (omega arith)

content_of_title :
    (t post : Bytes) → Lacks b'"' t → content_of (t ++ (meta_tag_end ++ post)) ≡ found t
unfolding content_of
content_of_title t post lacks =
    rw (quote_ends t post lacks, content_of) (ap found (take-append t (meta_tag_end ++ post)))

-- A page whose first description tag holds a title without a quotation mark is read as that title,
-- whatever stands before the tag and after it.
pub parse_notice_page-title :
    (pre t post : Bytes)
    → Lacks b'"' t
    → NoneBefore
        (length pre)
        (pre ++ (meta_tag_start ++ (t ++ (meta_tag_end ++ post))))
        meta_tag_start
    → parse_notice_page (pre ++ (meta_tag_start ++ (t ++ (meta_tag_end ++ post)))) ≡ found t
unfolding parse_notice_page
parse_notice_page-title pre t post lacks first =
    let rest = t ++ (meta_tag_end ++ post) in
    let body = pre ++ (meta_tag_start ++ rest) in
    let start : index body meta_tag_start ≡ some (length pre) =
      index_complete body meta_tag_start (length pre)
        (omega (arith, length-append pre (meta_tag_start ++ rest)))
        (rw (drop-append pre (meta_tag_start ++ rest)) (has_prefix-append meta_tag_start rest))
        first in
    let content : drop (length pre + length meta_tag_start) body ≡ rest =
      sym (drop-drop (length meta_tag_start) (length pre) body)
      ∙ ap (drop (length meta_tag_start)) (drop-append pre (meta_tag_start ++ rest))
      ∙ drop-append meta_tag_start rest in
    rw (start, parse_notice_page) (ap content_of content ∙ content_of_title t post lacks)

content_of_sound :
    (rest t : Bytes)
    → content_of rest ≡ found t
    → (post : Bytes) × (rest ≡ t ++ (meta_tag_end ++ post))
      × NoneBefore (length t) (t ++ (meta_tag_end ++ post)) meta_tag_end
unfolding content_of
content_of_sound rest t e = elim (Option-cases (index rest meta_tag_end)) [
  | inl absent ↦ absurd (ground arith)
  | inr (i, at_i) ↦
      let same : take i rest ≡ t = ground arith in
      let post = drop (i + length meta_tag_end) rest in
      let split : rest ≡ t ++ (meta_tag_end ++ post) =
        index-split rest meta_tag_end i at_i ∙ ap (λ x. x ++ (meta_tag_end ++ post)) same in
      let before = (index-first rest meta_tag_end i at_i).1 in
      (
        post,
        split,
        λ j lt.
            subst (λ x. has_prefix (drop j x) meta_tag_end ≡ false) split
              (before j (omega (arith, length-take i rest, ap length same))),
      )
]

-- A title that is found stands in the page between the first start mark and the first end mark after
-- it.
pub parse_notice_page_sound :
    (body t : Bytes)
    → parse_notice_page body ≡ found t
    → (pre : Bytes) × (post : Bytes) × (body
        ≡ pre ++ (meta_tag_start ++ (t ++ (meta_tag_end ++ post))))
      × NoneBefore (length pre) body meta_tag_start
      × NoneBefore (length t) (t ++ (meta_tag_end ++ post)) meta_tag_end
unfolding parse_notice_page
parse_notice_page_sound body t e = elim (Option-cases (index body meta_tag_start)) [
  | inl absent ↦ absurd (ground arith)
  | inr (i, at_i) ↦
      let rest = drop (i + length meta_tag_start) body in
      let c : content_of rest ≡ found t = ground arith in
      let (post, split, ends) = content_of_sound rest t c in
      let whole = index-split body meta_tag_start i at_i in
      let (there, before) = index-first body meta_tag_start i at_i in
      (
        take i body,
        post,
        whole ∙ ap (λ x. take i body ++ (meta_tag_start ++ x)) split,
        λ j lt. before j (omega (arith, length-take i body)),
        ends,
      )
]
