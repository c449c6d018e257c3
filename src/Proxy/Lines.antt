-- ===== src/Proxy/Lines.antt =====
-- The output of one tool as the input of the other.
use api_poll.Prelude.{
  ℕ, suc, ◌+◌, ◌≡◌, refl, ap, ◌∙◌, List, [], ◌∷◌, ◌++◌, Bytes, utf8, length, map, arith, if_cases,
}
use api_poll.Prelude.Split.{Lacks, split, join, write_lines, split-append, split-Lacks}
use api_poll.Prelude.Trim.{trim_space}
use api_poll.Prelude.Decimal.{itoa, itoa-Lacks}
use api_poll.Proxy.{
  Proxy, clear_duplicates, seen_in, proxy_line, cleared_file, Reformatted, entry, reformat_line,
  reformat_lines, reformat,
}

-- No field has a colon or a line end, and the line has no space at its ends.
pub record IsPlain (p : Proxy) : Type 0 where
  pub host_parts : Lacks b':' p.host
  pub username_parts : Lacks b':' p.username
  pub password_parts : Lacks b':' p.password
  pub host_line : Lacks 10 p.host
  pub username_line : Lacks 10 p.username
  pub password_line : Lacks 10 p.password
  pub trimmed : trim_space (proxy_line p) ≡ proxy_line p

abbrev pub AllPlain : List Proxy → Type 0
AllPlain [] = Unit
AllPlain (p ∷ ps) = IsPlain p × AllPlain ps

Lacks-append : (b : ℕ) (s t : Bytes) → Lacks b s → Lacks b t → Lacks b (s ++ t)
Lacks-append b [] t p q = q
Lacks-append b (c ∷ s) t p q = (p.0, Lacks-append b s t p.1 q)

line-Lacks : (p : Proxy) → IsPlain p → Lacks 10 (proxy_line p)
unfolding proxy_line join
line-Lacks p h = Lacks-append 10 p.host _ h.host_line (
  omega arith,
  Lacks-append 10 (itoa p.port) _ (itoa-Lacks 10 p.port refl (omega arith))
      (omega arith, Lacks-append 10 p.username _ h.username_line (omega arith, h.password_line)),
)

parts_of_line :
    (p : Proxy)
    → IsPlain p
    → split b':' (proxy_line p) ≡ p.host ∷ itoa p.port ∷ p.username ∷ p.password ∷ []
unfolding proxy_line join
parts_of_line p h =
    split-append b':' p.host _ h.host_parts
    ∙ ap (λ ps. p.host ∷ ps)
        (split-append b':' (itoa p.port) _ (itoa-Lacks b':' p.port refl (omega arith))
          ∙ ap (λ ps. itoa p.port ∷ ps)
              (split-append b':' p.username _ h.username_parts
                ∙ ap (λ ps. p.username ∷ ps) (split-Lacks b':' p.password h.password_parts)))

-- The entry for a proxy.
abbrev pub entry_of : Bytes → Proxy → Bytes
entry_of prefix p = entry prefix p.host (itoa p.port) p.username p.password

abbrev pub entries : Bytes → List Proxy → List Bytes
entries prefix [] = []
entries prefix (p ∷ ps) = entry_of prefix p ∷ entries prefix ps

split_lines :
    (ps : List Proxy)
    → AllPlain ps
    → split 10 (write_lines (map proxy_line ps)) ≡ map proxy_line ps ++ [] ∷ []
unfolding write_lines split
split_lines [] h = refl
split_lines (p ∷ ps) h =
    split-append 10 (proxy_line p) (write_lines (map proxy_line ps)) (line-Lacks p h.0)
    ∙ ap (λ ls. proxy_line p ∷ ls) (split_lines ps h.1)

reformat_plain :
    (prefix : Bytes) (ps : List Proxy)
    → AllPlain ps
    → reformat_lines prefix (map proxy_line ps ++ [] ∷ [])
      ≡ record { lines = entries prefix ps; success_count = length ps; fail_count = 1 }
unfolding reformat_lines reformat_line trim_space split
reformat_plain prefix [] h = refl
reformat_plain prefix (p ∷ ps) h =
    let one_more : length ps + 1 ≡ suc (length ps) = omega arith in
    ap (λ parts. reformat_line prefix parts (reformat_lines prefix (map proxy_line ps ++ [] ∷ [])))
      (ap (split b':') h.0.trimmed ∙ parts_of_line p h.0)
    ∙ ap
        (λ (r : Reformatted). record r {
          lines = entry_of prefix p ∷ r.lines;
          success_count = r.success_count + 1;
        })
        (reformat_plain prefix ps h.1)
    ∙ ap (λ n. record { lines = entries prefix (p ∷ ps); success_count = n; fail_count = 1 })
        one_more

clear-AllPlain : (seen ps : List Proxy) → AllPlain ps → AllPlain (clear_duplicates seen ps)
unfolding clear_duplicates
clear-AllPlain seen [] h = tt
clear-AllPlain seen (p ∷ ps) h =
    if_cases AllPlain (seen_in p seen) _ _ (λ again. clear-AllPlain (p ∷ seen) ps h.1)
      (λ first. (h.0, clear-AllPlain (p ∷ seen) ps h.1))

-- For proxies with plain fields, the output of the first tool is read by the second as it was meant:
-- an entry for each proxy that was left, in order, and one failure, for the empty text after the last
-- line end.
pub reformat-cleared_file :
    (prefix : Bytes) (ps : List Proxy)
    → AllPlain ps
    → reformat prefix (cleared_file ps) ≡ record {
      lines = (prefix ++ utf8 "proxies:") ∷ entries prefix (clear_duplicates [] ps);
      success_count = length (clear_duplicates [] ps);
      fail_count = 1;
    }
unfolding reformat cleared_file
reformat-cleared_file prefix ps h =
    let cleared = clear-AllPlain [] ps h in
    ap (λ (r : Reformatted). record r { lines = (prefix ++ utf8 "proxies:") ∷ r.lines })
      (ap (reformat_lines prefix) (split_lines (clear_duplicates [] ps) cleared)
        ∙ reformat_plain prefix (clear_duplicates [] ps) cleared)
