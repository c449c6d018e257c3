-- ===== src/Client/Dial/Closing.antt =====
-- The connection to a proxy is closed on every error.
use api_poll.Prelude.{ℕ, ◌+◌, ◌≡◌, refl, List, [], ◌∷◌, Option, none, some, Bytes, arith, if_cases}
use api_poll.Prelude.Int.{ℤ, pos, eqb_ℤ}
use api_poll.Prelude.Trim.{fields}
use api_poll.Prelude.Decimal.{atoi}
use api_poll.Client.Dial.{
  Connection, Network, DialError, proxy_url_invalid, connect_failed, Act, connects, writes, closes,
  Dialled, act, close_with, proxy_target, connect_request, skip_headers, unauthorized,
  conclude_dial, after_code, after_status, read_answer, tunnel, dial_target, dial,
}

unfoldable pub closings : List Act → ℕ
closings [] = 0
closings (connects h ∷ acts) = closings acts
closings (writes r ∷ acts) = closings acts
closings (closes ∷ acts) = closings acts + 1

-- The connections that an error leaves behind if nobody closes them.
abbrev pub connections : DialError → ℕ
connections proxy_url_invalid = 0
connections connect_failed = 0
connections _ = 1

-- A connection that is returned is open, and one that is not returned has been closed, once.
abbrev pub Tidy : Dialled → Type 0
Tidy (none, acts) = closings acts ≡ 0
Tidy (some e, acts) = closings acts ≡ connections e

unauthorized-Tidy : (auth : Bytes) → Tidy (close_with (unauthorized auth))
unfolding closings
unauthorized-Tidy [] = refl
unauthorized-Tidy (c ∷ cs) = refl

conclude_dial-Tidy : (auth : Bytes) (code : ℤ) → Tidy (conclude_dial auth code)
unfolding conclude_dial closings
conclude_dial-Tidy auth code =
    if_cases Tidy (eqb_ℤ code (pos 200)) _ _ (λ e. refl)
      (λ e.
        if_cases Tidy (eqb_ℤ code (pos 407)) _ _ (λ e. unauthorized-Tidy auth)
          (λ e.
            if_cases Tidy (eqb_ℤ code (pos 403)) _ _ (λ e. refl)
              (λ e.
                if_cases Tidy (eqb_ℤ code (pos 404)) _ _ (λ e. refl)
                  (λ e. if_cases Tidy (eqb_ℤ code (pos 502)) _ _ (λ e. refl) (λ e. refl)))))

after_code-Tidy :
    (auth : Bytes) (headers : List Bytes) (code : Option ℤ) → Tidy (after_code auth headers code)
unfolding after_code closings
after_code-Tidy auth headers none = refl
after_code-Tidy auth headers (some code) =
    if_cases Tidy (skip_headers headers) _ _ (λ ends. conclude_dial-Tidy auth code)
      (λ endless. refl)

after_status-Tidy :
    (auth : Bytes) (parts headers : List Bytes) → Tidy (after_status auth parts headers)
unfolding after_status closings
after_status-Tidy auth [] headers = refl
after_status-Tidy auth (version ∷ []) headers = refl
after_status-Tidy auth (version ∷ status ∷ rest) headers =
    after_code-Tidy auth headers (atoi status)

read_answer-Tidy : (auth : Bytes) (lines : List Bytes) → Tidy (read_answer auth lines)
unfolding read_answer closings
read_answer-Tidy auth [] = refl
read_answer-Tidy auth (status_line ∷ headers) = after_status-Tidy auth (fields status_line) headers

-- The acts before the last do not close.
act-Tidy : (a : Act) (d : Dialled) → closings (a ∷ []) ≡ 0 → Tidy d → Tidy (act a d)
unfolding closings
act-Tidy (connects h) (none, acts) quiet t = t
act-Tidy (connects h) (some e, acts) quiet t = t
act-Tidy (writes r) (none, acts) quiet t = t
act-Tidy (writes r) (some e, acts) quiet t = t
act-Tidy closes d quiet t = let no : ⊥ = omega (arith, quiet) in elim no [ ]

tunnel-Tidy :
    (net : Network) (auth addr : Bytes) (link : Option Connection)
    → Tidy (tunnel net auth addr link)
unfolding tunnel closings
tunnel-Tidy net auth addr none = refl
tunnel-Tidy net auth addr (some link) =
    let request = connect_request net auth addr in
    act-Tidy (writes request) _ refl (
      if_cases Tidy (link.writable request) _ _ (λ yes. read_answer-Tidy auth link.lines)
        (λ no. refl))

dial_target-Tidy :
    (net : Network) (addr : Bytes) (target : Option (Bytes × Bytes))
    → Tidy (dial_target net addr target)
unfolding dial_target closings
dial_target-Tidy net addr none = refl
dial_target-Tidy net addr (some (auth, host)) =
    act-Tidy (connects host) _ refl (tunnel-Tidy net auth addr (net.connect host))

-- Whatever the proxy answers, the connection to it is closed once when an error is returned after it
-- was made, and it is not closed when it is returned.
pub dial-Tidy : (net : Network) (proxy_addr addr : Bytes) → Tidy (dial net proxy_addr addr)
unfolding dial
dial-Tidy net proxy_addr addr = dial_target-Tidy net addr (proxy_target net proxy_addr)
