-- ===== src/Sucker/Reading.antt =====
-- The titles of a stream, and its connections.
use api_poll.Prelude.{
  ℕ, zero, suc, ◌+◌, ◌≤◌, ◌<◌, ◌≡◌, refl, ap, subst, ◌∙◌, Bool, true, List, [], ◌∷◌, ◌++◌, Option,
  none, some, Bytes, utf8, bytes_eq, if◌then◌else◌, if_cases, arith,
}
use api_poll.Sucker.{
  SuckerPayload, connect_from, connect_till_established, Event, arrives, read_fails, context_done,
  Act, sends_title, sends_message, connects, handle_payload, read,
}

-- The delays before the attempts after the first.
unfoldable pub delays : (ℕ → ℕ) → ℕ → ℕ → List ℕ
delays longer zero delay = []
delays longer (suc n) delay = delay ∷ delays longer n (longer delay)

module _ (dial : ℕ → Bool) (longer : ℕ → ℕ) where
  -- The connection is made at attempt `i + n`, after the sleeps before it.
  abbrev pub IsConnected : ℕ → ℕ → ℕ → Option (List ℕ) → Type 0
  IsConnected i delay last sleeps =
      (n : ℕ) × (i + n ≤ last) × (sleeps ≡ some (delays longer n delay)) × (dial (i + n) ≡ true)

  connect_from-IsConnected :
      (last : ℕ)
      → dial last ≡ true
      → (fuel i delay : ℕ) → i ≤ last
      → last < i + fuel
      → IsConnected i delay last (connect_from dial longer fuel i delay)
  unfolding connect_from delays
  connect_from-IsConnected last h zero i delay le lt =
      let no : ⊥ = omega (arith, le, lt) in elim no [ ]
  connect_from-IsConnected last h (suc fuel) i delay le lt =
      if_cases (IsConnected i delay last) (dial i) _ _
        (λ now. (0, omega (arith, le), refl, subst (λ k. dial k ≡ true) (omega arith) now))
        (λ later.
          let (n, bound, e, there) =
            connect_from-IsConnected last h fuel (suc i) (longer delay)
              (ground (arith, h, later, le)) (omega (arith, lt)) in
          (
            suc n,
            omega (arith, bound),
            ap (λ o. elim o [ none ↦ none | some sleeps ↦ some (delay ∷ sleeps) ]) e,
            subst (λ k. dial k ≡ true) (omega arith) there,
          ))

-- If some attempt succeeds, one more step than its number is enough: the connection is made at that
-- attempt or an earlier one, after a sleep for each attempt before it, the first for a second and each
-- other longer than the one before by the factor.
pub connect_till_established-IsConnected :
    (dial : ℕ → Bool) (longer : ℕ → ℕ) (last fuel : ℕ)
    → dial last ≡ true
    → last < fuel
    → IsConnected dial longer 0 1_000_000_000 last (connect_till_established dial longer fuel)
unfolding connect_till_established
connect_till_established-IsConnected dial longer last fuel h lt =
    connect_from-IsConnected dial longer last h fuel 0 1_000_000_000 (omega arith)
      (omega (arith, lt))

-- The titles on the channel of news, and those of the messages.
unfoldable pub titles : List Act → List Bytes
titles [] = []
titles (sends_title t ∷ acts) = t ∷ titles acts
titles (sends_message t time details ∷ acts) = titles acts
titles (connects ∷ acts) = titles acts

unfoldable pub messages : List Act → List Bytes
messages [] = []
messages (sends_title t ∷ acts) = messages acts
messages (sends_message t time details ∷ acts) = t ∷ messages acts
messages (connects ∷ acts) = messages acts

-- The payloads that are read before the context is done.
unfoldable pub payloads : (Bytes → Option SuckerPayload) → List Event → List SuckerPayload
payloads unmarshal [] = []
payloads unmarshal (context_done ∷ es) = []
payloads unmarshal (read_fails ∷ es) = payloads unmarshal es
payloads unmarshal (arrives text ∷ es) =
    let rest = payloads unmarshal es in elim (unmarshal text) [ none ↦ rest | some p ↦ p ∷ rest ]

unfoldable pub upbit_titles : List SuckerPayload → List Bytes
unfolding bytes_eq
upbit_titles [] = []
upbit_titles (p ∷ ps) =
    let rest = upbit_titles ps in
    if bytes_eq p.exchange (utf8 "upbit") then p.original_title ∷ rest else rest

titles-append : (xs ys : List Act) → titles (xs ++ ys) ≡ titles xs ++ titles ys
unfolding titles
titles-append [] ys = refl
titles-append (sends_title t ∷ xs) ys = ap (λ ts. t ∷ ts) (titles-append xs ys)
titles-append (sends_message t time details ∷ xs) ys = titles-append xs ys
titles-append (connects ∷ xs) ys = titles-append xs ys

messages-append : (xs ys : List Act) → messages (xs ++ ys) ≡ messages xs ++ messages ys
unfolding messages
messages-append [] ys = refl
messages-append (sends_title t ∷ xs) ys = messages-append xs ys
messages-append (sends_message t time details ∷ xs) ys = ap (λ ts. t ∷ ts) (messages-append xs ys)
messages-append (connects ∷ xs) ys = messages-append xs ys

-- Both lists of a run are the titles.
abbrev pub Reports : List Act → List Bytes → Type 0
Reports acts ts = (titles acts ≡ ts) × (messages acts ≡ ts)

abbrev wanted : SuckerPayload → List Bytes
wanted p = if bytes_eq p.exchange (utf8 "upbit") then p.original_title ∷ [] else []

handle-Reports :
    (unmarshal : Bytes → Option SuckerPayload) (p : SuckerPayload)
    → Reports (handle_payload unmarshal (some p)) (wanted p)
unfolding titles messages
handle-Reports unmarshal p = ground arith

append-Reports :
    (xs ys : List Act) (ts us : List Bytes)
    → Reports xs ts
    → Reports ys us
    → Reports (xs ++ ys) (ts ++ us)
append-Reports xs ys ts us (a, b) (c, d) =
    (titles-append xs ys ∙ (λ i. a i ++ c i), messages-append xs ys ∙ (λ i. b i ++ d i))

upbit_titles_cons :
    (p : SuckerPayload) (ps : List SuckerPayload)
    → wanted p ++ upbit_titles ps ≡ upbit_titles (p ∷ ps)
unfolding upbit_titles
upbit_titles_cons p ps = ground arith

after_text-Reports :
    (unmarshal : Bytes → Option SuckerPayload) (o : Option SuckerPayload) (acts : List Act)
    (ps : List SuckerPayload)
    → Reports acts (upbit_titles ps)
    → Reports
        (handle_payload unmarshal o ++ acts)
        (upbit_titles (elim o [ none ↦ ps | some p ↦ p ∷ ps ]))
after_text-Reports unmarshal none acts ps h = h
after_text-Reports unmarshal (some p) acts ps h =
    subst (Reports (handle_payload unmarshal (some p) ++ acts)) (upbit_titles_cons p ps)
      (append-Reports _ acts (wanted p) (upbit_titles ps) (handle-Reports unmarshal p) h)

-- The titles on the channel of news are the original titles of the payloads of this exchange, of those
-- that can be decoded and arrive before the context is done, in their order; a message goes out for
-- each; errors of reading, after which the connection is made anew, lose and repeat none.
pub read-Reports :
    (unmarshal : Bytes → Option SuckerPayload) (es : List Event)
    → Reports (read unmarshal es) (upbit_titles (payloads unmarshal es))
unfolding read titles messages payloads upbit_titles
read-Reports unmarshal [] = (refl, refl)
read-Reports unmarshal (context_done ∷ es) = (refl, refl)
read-Reports unmarshal (read_fails ∷ es) = read-Reports unmarshal es
read-Reports unmarshal (arrives text ∷ es) =
    after_text-Reports unmarshal (unmarshal text) (read unmarshal es) (payloads unmarshal es)
      (read-Reports unmarshal es)
