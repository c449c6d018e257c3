-- ===== src/Monitor/Forward.antt =====
-- What is passed on of the titles of a fetcher.
use api_poll.Prelude.{
  ◌≡◌, ◌≢◌, refl, false, List, [], ◌∷◌, Bytes, bytes_eq, bytes_eq→eq, Bool-cases, inl, inr, map, ap,
  sym,
}
use api_poll.Prelude.Int.{ℤ}
use api_poll.Notice.{Fetcher, populate}
use api_poll.Notice.News.{IsNews, populate-IsNews}
use api_poll.Monitor.{received, forward}

differs : (t last : Bytes) → last ≢ t → bytes_eq t last ≡ false
differs t last h = elim (Bool-cases (bytes_eq t last)) [
  | inl same ↦ absurd (h (sym (bytes_eq→eq t last same)))
  | inr other ↦ other
]

-- News is passed on as it is.
forward-IsNews :
    (last : Bytes) (ts : List Bytes) → IsNews last ts → forward last (map received ts) ≡ ts
unfolding forward
forward-IsNews last [] h = refl
forward-IsNews last (t ∷ ts) h =
    simp (differs t last h.1) (ap (λ us. t ∷ us) (forward-IsNews t ts h.2))

-- The first title is compared with the empty one.
begin_empty :
    (last : Bytes) (ts : List Bytes)
    → IsNews last ts
    → ((us : List Bytes) → ts ≢ [] ∷ us)
    → IsNews [] ts
begin_empty last [] h n = tt
begin_empty last (t ∷ ts) h n = (h.0, (λ e. n ts (ap (λ u. u ∷ ts) (sym e))), h.2)

-- When it receives all titles that the fetcher of notices has sent, the goroutine sends the monitor exactly
-- these, unless the first is empty:
-- the check for repeated titles between them never drops one.
pub forward-populate :
    (notice_url : ℤ → Bytes) (es : List api_poll.Notice.Event) (f : Fetcher)
    → f.news ≡ []
    → ((us : List Bytes) → (populate notice_url es f).0.news ≢ [] ∷ us)
    → forward [] (map received (populate notice_url es f).0.news)
      ≡ (populate notice_url es f).0.news
forward-populate notice_url es f h n = forward-IsNews [] (populate notice_url es f).0.news (
    begin_empty f.last_news_title (populate notice_url es f).0.news
      (populate-IsNews notice_url es f h) n)
