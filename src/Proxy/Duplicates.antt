-- ===== src/Proxy/Duplicates.antt =====
-- What is left of a list of proxies.
use api_poll.Prelude.{
  ℕ, ◌≡◌, ap, Bool, true, false, List, [], ◌∷◌, bytes_eq→eq, sum_of, min, arith, if◌then◌else◌,
}
use api_poll.Prelude.Int.{ℤ, eqb_ℤ}
use api_poll.Proxy.{Proxy, proxy_eq, seen_in, clear_duplicates}

abbrev pub tally : Bool → ℕ
tally true = 1
tally false = 0

-- Whether a proxy is the given one, as a number.
abbrev pub is_proxy : Proxy → Proxy → ℕ
is_proxy q p = tally (proxy_eq p q)

proxy_eq→eq : (p q : Proxy) → proxy_eq p q ≡ true → p ≡ q
unfolding proxy_eq
proxy_eq→eq p q h = (λ i. record {
  username = bytes_eq→eq p.username q.username (ground (arith, h)) i;
  password = bytes_eq→eq p.password q.password (ground (arith, h)) i;
  host = bytes_eq→eq p.host q.host (ground (arith, h)) i;
  port = same_port p.port q.port (ground (arith, h)) i;
})
  where
    same_port : (m n : ℤ) → eqb_ℤ m n ≡ true → m ≡ n
    same_port m n e = ground (arith, e)

count_cleared :
    (q : Proxy) (seen ps : List Proxy)
    → sum_of (is_proxy q) (clear_duplicates seen ps)
      ≡ (if seen_in q seen then 0 else min 1 (sum_of (is_proxy q) ps))
unfolding clear_duplicates seen_in sum_of
count_cleared q seen [] = ground arith
count_cleared q seen (p ∷ ps) = ground (arith, count_cleared q (p ∷ seen) ps, same)
  where
    same : proxy_eq p q ≡ true → seen_in p seen ≡ seen_in q seen
    same e = ap (λ x. seen_in x seen) (proxy_eq→eq p q e)

-- Every proxy of the list is left, once, and no other.
pub clear_duplicates-counts :
    (q : Proxy) (ps : List Proxy)
    → sum_of (is_proxy q) (clear_duplicates [] ps) ≡ min 1 (sum_of (is_proxy q) ps)
unfolding seen_in
clear_duplicates-counts q ps = count_cleared q [] ps
