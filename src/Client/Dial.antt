-- ===== src/Client/Dial.antt =====
-- `FasthttpHTTPDialer` of pkg/httptools/client_fasthttp.go: the tunnel through a proxy. What the network
-- and net/url answer is a parameter; of the connection the acts are logged.
pub mod Tunnel
pub mod Closing
use api_poll.Prelude.{
  ℕ, Bool, true, false, List, [], ◌∷◌, ◌++◌, Option, none, some, Bytes, utf8, contains, length,
  ◌==◌, if◌then◌else◌,
}
use api_poll.Prelude.Int.{ℤ, pos, eqb_ℤ}
use api_poll.Prelude.Split.{split}
use api_poll.Prelude.Trim.{fields}
use api_poll.Prelude.Decimal.{atoi}

pub record UserInfo : Type 0 where
  pub username : Bytes
  pub password : Option Bytes

-- A connection: whether a text can be written to it, and the lines that can be read until reading
-- fails.
pub record Connection : Type 0 where
  pub writable : Bytes → Bool
  pub lines : List Bytes

pub record Network : Type 0 where
  pub parse_url : Bytes → Option (Bytes × Option UserInfo)
  pub connect : Bytes → Option Connection
  pub base64 : Bytes → Bytes

pub data DialError : Type 0 where
  proxy_url_invalid connect_failed write_failed status_unreadable response_invalid : DialError
  status_invalid headers_unreadable no_credentials authentication_failed forbidden : DialError
  not_found bad_gateway : DialError
  connect_rejected : ℤ → DialError

pub data Act : Type 0 where
  connects writes : Bytes → Act
  closes : Act

-- The error, if there is one, and the acts. Without an error the connection is returned.
abbrev pub Dialled : Type 0
Dialled = Option DialError × List Act

abbrev pub act : Act → Dialled → Dialled
act a (e, acts) = (e, a ∷ acts)

abbrev pub close_with : DialError → Dialled
close_with e = (some e, closes ∷ [])

-- The credentials of a URL.
abbrev pub auth_of : Option UserInfo → Bytes
auth_of none = []
auth_of (some u) = elim u.password [
  | none ↦ u.username
  | some password ↦ u.username ++ utf8 ":" ++ password
]

-- The two sides of an `@`, when there is one only.
unfoldable pub two_parts : Bytes → List Bytes → Bytes × Bytes
two_parts proxy_addr [] = ([], proxy_addr)
two_parts proxy_addr (a ∷ []) = ([], proxy_addr)
two_parts proxy_addr (a ∷ b ∷ []) = (a, b)
two_parts proxy_addr (a ∷ b ∷ c ∷ ps) = ([], proxy_addr)

-- The credentials and the address of the proxy.
unfoldable pub proxy_target : Network → Bytes → Option (Bytes × Bytes)
unfolding contains split two_parts
proxy_target net proxy_addr =
    if contains proxy_addr (utf8 "://")
    then elim (net.parse_url proxy_addr) [ none ↦ none | some u ↦ some (auth_of u.1, u.0) ]
    else if contains proxy_addr (utf8 "@")
    then some (two_parts proxy_addr (split b'@' proxy_addr))
    else some ([], proxy_addr)

unfoldable pub auth_header : Network → Bytes → Bytes
auth_header net [] = []
auth_header net (c ∷ cs) = utf8 "Proxy-Authorization: Basic " ++ net.base64 (c ∷ cs) ++ utf8 "\r\n"

-- The request for a tunnel to an address.
unfoldable pub connect_request : Network → Bytes → Bytes → Bytes
unfolding auth_header
connect_request net auth addr =
    utf8 "CONNECT "
    ++ addr
    ++ utf8 " HTTP/1.1\r\nHost: "
    ++ addr
    ++ utf8 "\r\nUser-Agent: Mozilla/5.0 (Windows NT 10.0; Win64; x64) AppleWebKit/537.36\r\n"
    ++ utf8 "Proxy-Connection: keep-alive\r\n"
    ++ auth_header net auth
    ++ utf8 "\r\n"

-- Whether the header lines end.
unfoldable pub skip_headers : List Bytes → Bool
skip_headers [] = false
skip_headers ([] ∷ ls) = true
skip_headers ((c ∷ cs) ∷ ls) = skip_headers ls

abbrev pub unauthorized : Bytes → DialError
unauthorized [] = no_credentials
unauthorized (c ∷ cs) = authentication_failed

-- The switch over the status.
unfoldable pub conclude_dial : Bytes → ℤ → Dialled
conclude_dial auth code =
    if eqb_ℤ code (pos 200)
    then (none, [])
    else if eqb_ℤ code (pos 407)
    then close_with (unauthorized auth)
    else if eqb_ℤ code (pos 403)
    then close_with forbidden
    else if eqb_ℤ code (pos 404)
    then close_with not_found
    else if eqb_ℤ code (pos 502)
    then close_with bad_gateway
    else close_with (connect_rejected code)

-- The status, from its number on.
unfoldable pub after_code : Bytes → List Bytes → Option ℤ → Dialled
unfolding skip_headers conclude_dial
after_code auth headers none = close_with status_invalid
after_code auth headers (some code) =
    if skip_headers headers then conclude_dial auth code else close_with headers_unreadable

-- The status, from the fields of its line on.
unfoldable pub after_status : Bytes → List Bytes → List Bytes → Dialled
unfolding atoi after_code
after_status auth [] headers = close_with response_invalid
after_status auth (version ∷ []) headers = close_with response_invalid
after_status auth (version ∷ status ∷ rest) headers = after_code auth headers (atoi status)

unfoldable pub read_answer : Bytes → List Bytes → Dialled
unfolding fields after_status
read_answer auth [] = close_with status_unreadable
read_answer auth (status_line ∷ headers) = after_status auth (fields status_line) headers

unfoldable pub tunnel : Network → Bytes → Bytes → Option Connection → Dialled
unfolding connect_request read_answer
tunnel net auth addr none = (some connect_failed, [])
tunnel net auth addr (some link) =
    let request = connect_request net auth addr in
    act (writes request)
      (if link.writable request then read_answer auth link.lines else close_with write_failed)

unfoldable pub dial_target : Network → Bytes → Option (Bytes × Bytes) → Dialled
unfolding tunnel
dial_target net addr none = (some proxy_url_invalid, [])
dial_target net addr (some (auth, host)) =
    act (connects host) (tunnel net auth addr (net.connect host))

unfoldable pub dial : Network → Bytes → Bytes → Dialled
unfolding proxy_target dial_target
dial net proxy_addr addr = dial_target net addr (proxy_target net proxy_addr)
