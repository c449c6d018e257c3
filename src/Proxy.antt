-- ===== src/Proxy.antt =====
-- pkg/httptools/proxy.go, and the tools of cmd/clear-proxy-duplicates and cmd/reformat-proxies as
-- functions from what they read to what they write. The flags, the files and the configuration that
-- they read from are left out.
pub mod Lines
pub mod Duplicates
mod Tests
use api_poll.Prelude.{
  ℕ, zero, suc, ◌+◌, Bool, true, false, ◌&&◌, ◌||◌, List, [], ◌∷◌, ◌++◌, Bytes, utf8, bytes_eq,
  length, map, if◌then◌else◌,
}
use api_poll.Prelude.Int.{ℤ, eqb_ℤ}
use api_poll.Prelude.Split.{split, join, write_lines}
use api_poll.Prelude.Trim.{trim_space}
use api_poll.Prelude.Decimal.{itoa}

pub record Proxy : Type 0 where
  pub username : Bytes
  pub password : Bytes
  pub host : Bytes
  pub port : ℤ

-- The method `String`.
unfoldable pub proxy_string : Proxy → Bytes
unfolding itoa
proxy_string p =
    utf8 "http://"
    ++ p.username
    ++ utf8 ":"
    ++ p.password
    ++ utf8 "@"
    ++ p.host
    ++ utf8 ":"
    ++ itoa p.port

-- `==` on proxies.
unfoldable pub proxy_eq : Proxy → Proxy → Bool
unfolding bytes_eq
proxy_eq p q =
    bytes_eq p.username q.username
    && bytes_eq p.password q.password
    && bytes_eq p.host q.host
    && eqb_ℤ p.port q.port

-- `proxyMap[proxy]`, over the proxies that were set to true.
unfoldable pub seen_in : Proxy → List Proxy → Bool
unfolding proxy_eq
seen_in p [] = false
seen_in p (q ∷ qs) = proxy_eq q p || seen_in p qs

-- The loop of clear-proxy-duplicates.
unfoldable pub clear_duplicates : List Proxy → List Proxy → List Proxy
unfolding seen_in
clear_duplicates seen [] = []
clear_duplicates seen (p ∷ ps) =
    let rest = clear_duplicates (p ∷ seen) ps in if seen_in p seen then rest else p ∷ rest

-- A line of its output.
unfoldable pub proxy_line : Proxy → Bytes
unfolding join itoa
proxy_line p = join b':' (p.host ∷ itoa p.port ∷ p.username ∷ p.password ∷ [])

unfoldable pub cleared_file : List Proxy → Bytes
unfolding clear_duplicates proxy_line write_lines
cleared_file ps = write_lines (map proxy_line (clear_duplicates [] ps))

-- What reformat-proxies has written and counted.
pub record Reformatted : Type 0 where
  pub lines : List Bytes
  pub success_count : ℕ
  pub fail_count : ℕ

-- A line that does not have four parts is counted and left out.
unfoldable pub entry : Bytes → Bytes → Bytes → Bytes → Bytes → Bytes
entry prefix host port username password =
    prefix
    ++ prefix
    ++ utf8 "- { host: \""
    ++ host
    ++ utf8 "\", port: "
    ++ port
    ++ utf8 ", username: \""
    ++ username
    ++ utf8 "\", password: \""
    ++ password
    ++ utf8 "\" }"

unfoldable pub reformat_line : Bytes → List Bytes → Reformatted → Reformatted
unfolding entry
reformat_line prefix (host ∷ port ∷ username ∷ password ∷ []) r = record r {
  lines = entry prefix host port username password ∷ r.lines;
  success_count = r.success_count + 1;
}
reformat_line prefix parts r = record r { fail_count = r.fail_count + 1 }

unfoldable pub reformat_lines : Bytes → List Bytes → Reformatted
unfolding split trim_space reformat_line
reformat_lines prefix [] = record { lines = []; success_count = 0; fail_count = 0 }
reformat_lines prefix (l ∷ ls) =
    reformat_line prefix (split b':' (trim_space l)) (reformat_lines prefix ls)

-- The whole tool on the text of a file.
unfoldable pub reformat : Bytes → Bytes → Reformatted
unfolding reformat_lines
reformat prefix text =
    let r = reformat_lines prefix (split 10 text) in
    record r { lines = (prefix ++ utf8 "proxies:") ∷ r.lines }
