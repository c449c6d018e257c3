-- ===== src/Client/Headers.antt =====
-- The headers of a response of the client over fasthttp.
use api_poll.Prelude.{
  Bool, ◌≡◌, refl, ◌∙◌, true, false, List, [], ◌∷◌, Option, none, some, Bytes, bytes_eq,
  bytes_eq→eq, if◌then◌else◌, Option-cases, inl, inr, sym, ap, arith,
}
use api_poll.Entity.{Header}
use api_poll.Client.{set_header, convert_headers}

-- All values of a name.
abbrev pub values_of : Bytes → Header → Option (List Bytes)
values_of name [] = none
values_of name ((n, values) ∷ h) = if bytes_eq n name then some values else values_of name h

same_name : (m n name : Bytes) → bytes_eq m n ≡ true → bytes_eq m name ≡ bytes_eq n name
same_name m n name e = ap (λ x. bytes_eq x name) (bytes_eq→eq m n e)

other_name :
    (m n name : Bytes) → bytes_eq m n ≡ false → bytes_eq n name ≡ true → bytes_eq m name ≡ false
other_name m n name e f = ap (bytes_eq m) (sym (bytes_eq→eq n name f)) ∙ e

values_of-set_header :
    (name n value : Bytes) (h : Header)
    → values_of name (set_header n value h)
      ≡ (if bytes_eq n name then some (value ∷ []) else values_of name h)
unfolding set_header
values_of-set_header name n value [] = refl
values_of-set_header name n value ((m, values) ∷ h) =
    ground (arith, same_name m n name, other_name m n name, values_of-set_header name n value h)

module _ (canonical : Bytes → Bytes) where
  -- The last of the values that are visited under a name, in its canonical form.
  abbrev pub last_value : Bytes → List (Bytes × Bytes) → Option Bytes
  last_value name [] = none
  last_value name ((n, value) ∷ visited) = elim (last_value name visited) [
    | none ↦ if bytes_eq (canonical n) name then some value else none
    | some later ↦ some later
  ]

  abbrev alone_or : Option (List Bytes) → Option Bytes → Option (List Bytes)
  alone_or before none = before
  alone_or before (some v) = some (v ∷ [])

  added :
      (before : Option (List Bytes)) (b : Bool) (value : Bytes)
      → (if b then some (value ∷ []) else before) ≡ alone_or before (if b then some value else none)
  added before true value = refl
  added before false value = refl

  converted_from :
      (name : Bytes) (visited : List (Bytes × Bytes)) (h : Header)
      → values_of name (convert_headers canonical h visited)
        ≡ alone_or (values_of name h) (last_value name visited)
  unfolding convert_headers
  converted_from name [] h = refl
  converted_from name ((n, value) ∷ visited) h =
      converted_from name visited (set_header (canonical n) value h)
      ∙ elim (Option-cases (last_value name visited)) [
        | inl e ↦ rw e (
            values_of-set_header name (canonical n) value h
            ∙ added (values_of name h) (bytes_eq (canonical n) name) value)
        | inr (v, e) ↦ rw e refl
      ]

  -- Of the headers that are visited under one name, spelled in whatever way, the response has the last
  -- value and no other; a name under which none is visited it does not have.
  pub convert_headers_last :
      (name : Bytes) (visited : List (Bytes × Bytes))
      → values_of name (convert_headers canonical [] visited)
        ≡ alone_or none (last_value name visited)
  convert_headers_last name visited = converted_from name visited []
