-- ===== src/Client/Dial/Tunnel.antt =====
-- When a connection through a proxy is returned.
use api_poll.Prelude.{
  ◌≡◌, refl, ap, ◌∙◌, subst, ◌↔◌, true, List, [], ◌∷◌, ◌++◌, Option, none, some, Bytes, arith,
  if_cases,
}
use api_poll.Prelude.Int.{ℤ, pos, eqb_ℤ}
use api_poll.Prelude.Trim.{fields}
use api_poll.Prelude.Decimal.{atoi}
use api_poll.Client.Dial.{
  Connection, Network, Dialled, proxy_target, connect_request, skip_headers, conclude_dial,
  after_code, after_status, read_answer, tunnel, dial_target, dial,
}

-- The lines of an answer that grants the tunnel: a line with the status 200 in its second field, and
-- after it, at some point, an empty line.
abbrev pub GrantedBy : List Bytes → List Bytes → Type 0
GrantedBy [] headers = ⊥
GrantedBy (version ∷ []) headers = ⊥
GrantedBy (version ∷ status ∷ rest) headers =
    (atoi status ≡ some (pos 200))
    × ((before after : List Bytes) × (headers ≡ before ++ [] ∷ after))

abbrev pub Granted : List Bytes → Type 0
Granted [] = ⊥
Granted (status_line ∷ headers) = GrantedBy (fields status_line) headers

skip_headers_sound :
    (headers : List Bytes)
    → skip_headers headers ≡ true
    → (before after : List Bytes) × (headers ≡ before ++ [] ∷ after)
unfolding skip_headers
skip_headers_sound [] h = let no : ⊥ = ground arith in elim no [ ]
skip_headers_sound ([] ∷ ls) h = ([], ls, refl)
skip_headers_sound ((c ∷ cs) ∷ ls) h =
    let rest = skip_headers_sound ls h in
    ((c ∷ cs) ∷ rest.0, rest.1, ap (λ xs. (c ∷ cs) ∷ xs) rest.2)

skip_headers_complete : (before after : List Bytes) → skip_headers (before ++ [] ∷ after) ≡ true
unfolding skip_headers
skip_headers_complete [] after = refl
skip_headers_complete ([] ∷ ls) after = refl
skip_headers_complete ((c ∷ cs) ∷ ls) after = skip_headers_complete ls after

eqb_200 : (code : ℤ) → (eqb_ℤ code (pos 200) ≡ true) ↔ (code ≡ pos 200)
eqb_200 code = ground arith

conclude_dial-ok :
    (auth : Bytes) (code : ℤ) → ((conclude_dial auth code).0 ≡ none) ↔ (code ≡ pos 200)
unfolding conclude_dial
conclude_dial-ok auth code = ground (arith, eqb_200 code)

-- An equation of the argument is an equation of the error.
error_at : {A : Type 0} (f : A → Dialled) {a b : A} → a ≡ b → (f b).0 ≡ none → (f a).0 ≡ none
error_at f e h = ap (λ x. (f x).0) e ∙ h

after_code-ok :
    (auth : Bytes) (headers : List Bytes) (code : Option ℤ)
    → (after_code auth headers code).0 ≡ none
    → (code ≡ some (pos 200)) × (skip_headers headers ≡ true)
unfolding after_code
after_code-ok auth headers none h = let no : ⊥ = ground (arith, h) in elim no [ ]
after_code-ok auth headers (some code) h =
    if_cases {A = Dialled}
      (λ d. d.0 ≡ none → (some code ≡ some (pos 200)) × (skip_headers headers ≡ true))
      (skip_headers headers) _ _ (λ ends h. (ap some ((conclude_dial-ok auth code).0 h), ends))
      (λ endless h. let no : ⊥ = ground (arith, h) in elim no [ ]) h

after_status-Granted :
    (auth : Bytes) (parts headers : List Bytes)
    → ((after_status auth parts headers).0 ≡ none) ↔ GrantedBy parts headers
unfolding after_status after_code
after_status-Granted auth [] headers = ground arith
after_status-Granted auth (version ∷ []) headers = ground arith
after_status-Granted auth (version ∷ status ∷ rest) headers = (
  λ h.
      let (e, ends) = after_code-ok auth headers (atoi status) h in
      (e, skip_headers_sound headers ends),
  λ (e, (before, after, f)).
      let ends : skip_headers headers ≡ true =
        ap skip_headers f ∙ skip_headers_complete before after in
      error_at (after_code auth headers) e (simp ends ((conclude_dial-ok auth (pos 200)).1 refl)),
)

read_answer-Granted :
    (auth : Bytes) (lines : List Bytes) → ((read_answer auth lines).0 ≡ none) ↔ Granted lines
unfolding read_answer
read_answer-Granted auth [] = ground arith
read_answer-Granted auth (status_line ∷ headers) =
    after_status-Granted auth (fields status_line) headers

-- The connection is there, the request can be written, and the answer grants it.
abbrev pub IsLinked : Network → Bytes → Bytes → Option Connection → Type 0
IsLinked net auth addr link =
    (l : Connection) × (link ≡ some l)
    × (l.writable (connect_request net auth addr) ≡ true)
    × Granted l.lines

tunnel-IsLinked :
    (net : Network) (auth addr : Bytes) (link : Option Connection)
    → ((tunnel net auth addr link).0 ≡ none) ↔ IsLinked net auth addr link
unfolding tunnel
tunnel-IsLinked net auth addr none = (
  λ h. let no : ⊥ = ground (arith, h) in elim no [ ],
  λ (l, e, w, granted). let no : ⊥ = ground (arith, e) in elim no [ ],
)
tunnel-IsLinked net auth addr (some link) =
    let request = connect_request net auth addr in
    (
      if_cases {A = Dialled} (λ d. d.0 ≡ none → IsLinked net auth addr (some link))
          (link.writable request) _ _
          (λ fine h. (link, refl, fine, (read_answer-Granted auth link.lines).0 h))
          (λ no h. let no : ⊥ = ground (arith, h) in elim no [ ]),
      λ (l, e, w, granted).
          let same : l ≡ link = ground (arith, e) in
          let w' : link.writable request ≡ true = subst (λ k. k.writable request ≡ true) same w in
          simp w'
            ((read_answer-Granted auth link.lines).1 (subst (λ k. Granted k.lines) same granted)),
    )

-- The target is known and the tunnel through it is granted.
abbrev pub IsTunnelled : Network → Bytes → Option (Bytes × Bytes) → Type 0
IsTunnelled net addr target =
    (auth : Bytes) × (host : Bytes) × (target ≡ some (auth, host))
    × IsLinked net auth addr (net.connect host)

dial_target-IsTunnelled :
    (net : Network) (addr : Bytes) (target : Option (Bytes × Bytes))
    → ((dial_target net addr target).0 ≡ none) ↔ IsTunnelled net addr target
unfolding dial_target
dial_target-IsTunnelled net addr none = (
  λ h. let no : ⊥ = ground (arith, h) in elim no [ ],
  λ (auth, host, e, linked). let no : ⊥ = ground (arith, e) in elim no [ ],
)
dial_target-IsTunnelled net addr (some (auth, host)) = (
  λ h. (auth, host, refl, (tunnel-IsLinked net auth addr (net.connect host)).0 h),
  λ (auth', host', e, linked).
      error_at (dial_target net addr) e
        ((tunnel-IsLinked net auth' addr (net.connect host')).1 linked),
)

-- A connection is returned just when the proxy is reached, the request for the tunnel can be written,
-- and the proxy grants it: the second field of its first line is the status 200 and an empty line
-- comes after that line.
pub dial-IsTunnelled :
    (net : Network) (proxy_addr addr : Bytes)
    → ((dial net proxy_addr addr).0 ≡ none) ↔ IsTunnelled net addr (proxy_target net proxy_addr)
unfolding dial
dial-IsTunnelled net proxy_addr addr =
    dial_target-IsTunnelled net addr (proxy_target net proxy_addr)
