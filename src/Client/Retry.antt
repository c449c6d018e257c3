-- ===== src/Client/Retry.antt =====
-- How the retries of a request end.
use api_poll.Prelude.{
  ℕ, zero, suc, ◌+◌, ◌≤◌, ◌<◌, ◌≡◌, ◌⊎◌, refl, Bool, true, false, List, [], ◌∷◌, Option, none, some,
  Bytes, arith, ap, ◌∙◌, Option-cases, inl, inr,
}
use api_poll.Client.{
  Raw, Decompressors, Tried, Result, Count, failed, request_failed, requests_total, failed_request,
  decode_response_body, try_from, conclude, request, decoded,
}

module _ (attempt : ℕ → Option Raw) (longer : ℕ → ℕ) where
  -- Each delay is made from the one before it.
  abbrev pub delays : ℕ → ℕ → List ℕ
  delays zero d = []
  delays (suc n) d = d ∷ delays n (longer d)

  success_ends :
      (left i delay : ℕ) (err : Bool) (r : Raw)
      → attempt i ≡ some r
      → try_from attempt longer left i delay err
        ≡ record { last_err = err; response = some r; calls = 1; sleeps = [] }
  unfolding try_from
  success_ends zero i delay err r e = rw (e, try_from) refl
  success_ends (suc left) i delay err r e = rw (e, try_from) refl

  -- Whether `lastErr` is set after `k` failures.
  abbrev pub after_failures : ℕ → Bool → Bool
  after_failures zero err = err
  after_failures (suc k) err = true

  shifted : (i j : ℕ) → attempt (suc i + j) ≡ attempt (i + suc j)
  shifted i j = let e : suc i + j ≡ i + suc j = omega arith in ap attempt e

  one_more : (k : ℕ) → suc k + 1 ≡ suc (suc k)
  one_more k = omega arith

  after_true : (k : ℕ) → after_failures k true ≡ true
  after_true zero = refl
  after_true (suc k) = refl

  stops_at :
      (k left i delay : ℕ) (err : Bool) (r : Raw)
      → k ≤ left
      → ((j : ℕ) → j < k → attempt (i + j) ≡ none)
      → attempt (i + k) ≡ some r
      → try_from attempt longer left i delay err ≡ record {
        last_err = after_failures k err;
        response = some r;
        calls = suc k;
        sleeps = delays k delay;
      }
  unfolding try_from
  stops_at zero left i delay err r h f s =
      let e : i ≡ i + 0 = omega arith in success_ends left i delay err r (ap attempt e ∙ s)
  stops_at (suc k) zero i delay err r h f s = let no : ⊥ = omega arith in elim no [ ]
  stops_at (suc k) (suc left) i delay err r h f s =
      let first : i ≡ i + 0 = omega arith in
      let here : suc i + k ≡ i + suc k = omega arith in
      let ih =
        stops_at k left (suc i) (longer delay) true r (omega (arith, h))
          (λ j l. shifted i j ∙ f (suc j) (omega (arith, l))) (ap attempt here ∙ s) in
      rw (ap attempt first ∙ f 0 (omega arith), try_from)
        (ap (λ (t : Tried). record t { calls = t.calls + 1; sleeps = delay ∷ t.sleeps }) ih ∙ (λ a.
          record {
            last_err = after_true k a;
            response = some r;
            calls = one_more k a;
            sleeps = delay ∷ delays k (longer delay);
          }))

  all_fail :
      (left i delay : ℕ) (err : Bool)
      → ((j : ℕ) → j ≤ left → attempt (i + j) ≡ none)
      → try_from attempt longer left i delay err
        ≡ record { last_err = true; response = none; calls = suc left; sleeps = delays left delay }
  unfolding try_from
  all_fail zero i delay err f =
      let first : i ≡ i + 0 = omega arith in
      rw (ap attempt first ∙ f 0 (omega arith), try_from) refl
  all_fail (suc left) i delay err f =
      let first : i ≡ i + 0 = omega arith in
      let ih =
        all_fail left (suc i) (longer delay) true
          (λ j l. shifted i j ∙ f (suc j) (omega (arith, l))) in
      rw (ap attempt first ∙ f 0 (omega arith), try_from)
        (ap (λ (t : Tried). record t { calls = t.calls + 1; sleeps = delay ∷ t.sleeps }) ih ∙ (λ a.
          record {
            last_err = true;
            response = none;
            calls = one_more left a;
            sleeps = delay ∷ delays left (longer delay);
          }))

  -- Either an attempt up to `n` succeeds, and there is a first one, or none does.
  first_success :
      (n : ℕ)
      → ((k : ℕ) × (r : Raw) × (k ≤ n)
          × ((j : ℕ) → j < k → attempt j ≡ none)
          × (attempt k ≡ some r))
        ⊎ ((j : ℕ) → j ≤ n → attempt j ≡ none)
  first_success zero = elim (Option-cases (attempt 0)) [
    | inl e ↦ inr λ j l. let z : j ≡ 0 = omega (arith, l) in ap attempt z ∙ e
    | inr (r, e) ↦ inl (0, r, omega arith, (λ j l. absurd (omega (arith, l))), e)
  ]
  first_success (suc n) = elim (first_success n) [
    | inl (k, r, l, f, e) ↦ inl (k, r, omega (arith, l), f, e)
    | inr f ↦ elim (Option-cases (attempt (suc n))) [
      | inl e ↦ inr λ j l. up_to n f e j (≤-cases j (suc n) l)
      | inr (r, e) ↦ inl (suc n, r, omega arith, (λ j l. f j (omega (arith, l))), e)
    ]
  ]
    where
      ≤-cases : (j m : ℕ) → j ≤ m → (j < m) ⊎ (j ≡ m)
      ≤-cases j m h = ground (arith, h)

      up_to :
          (n : ℕ)
          → ((j : ℕ) → j ≤ n → attempt j ≡ none)
          → attempt (suc n) ≡ none
          → (j : ℕ) → (j < suc n) ⊎ (j ≡ suc n)
          → attempt j ≡ none
      up_to n f e j (inl l) = f j (omega (arith, l))
      up_to n f e j (inr q) = ap attempt q ∙ e

module _ (d : Decompressors) (canonical : Bytes → Bytes) (id requested_at received_at : ℕ)
    (proxy_addr : Bytes) (attempt : ℕ → Option Raw) (longer : ℕ → ℕ) where
  -- What the caller gets after `k` failures and then the answer `r`.
  abbrev pub returns : ℕ → Raw → Result × List Count
  returns zero r =
      decoded d canonical id requested_at received_at proxy_addr r (decode_response_body d r)
  returns (suc k) r = (failed request_failed, requests_total ∷ failed_request ∷ [])

  stops :
      (k max_retries delay : ℕ) (r : Raw)
      → k ≤ max_retries
      → ((j : ℕ) → j < k → attempt j ≡ none)
      → attempt k ≡ some r
      → try_from attempt longer max_retries 0 delay false ≡ record {
        last_err = after_failures attempt longer k false;
        response = some r;
        calls = suc k;
        sleeps = delays attempt longer k delay;
      }
  stops k max_retries delay r h f s =
      let from_zero = λ (j : ℕ). let e : 0 + j ≡ j = omega arith in ap attempt e in
      stops_at attempt longer k max_retries 0 delay false r h (λ j l. from_zero j ∙ f j l)
        (from_zero k ∙ s)

  concluded :
      (max_retries delay : ℕ) (t : Tried)
      → try_from attempt longer max_retries 0 delay false ≡ t
      → request d canonical id requested_at received_at proxy_addr attempt longer max_retries delay
        ≡ (conclude d canonical id requested_at received_at proxy_addr t.last_err t.response, t)
  unfolding request
  concluded max_retries delay t = ap (λ (t : Tried).
      (conclude d canonical id requested_at received_at proxy_addr t.last_err t.response, t))

  conclude-returns :
      (k : ℕ) (r : Raw)
      → conclude d canonical id requested_at received_at proxy_addr
          (after_failures attempt longer k false)
          (some r)
        ≡ returns k r
  unfolding conclude
  conclude-returns zero r = refl
  conclude-returns (suc k) r = refl

  -- Every request ends in one of two ways. Either one of its attempts, which are at most one more than
  -- `max_retries`, succeeds: when the first that does comes after `k` failures, it has called the
  -- transport `k + 1` times and slept `k` times, and the caller gets, if `k` is zero, the response with
  -- its decoded body or an error if that can not be decoded, and otherwise the error of a failed request.
  -- Or every attempt fails: it has called the transport `max_retries + 1` times, slept `max_retries`
  -- times, and the caller gets the error of a failed request. Each delay is made from the one before it.
  pub request_ends :
      (max_retries delay : ℕ)
      → let q =
          request d canonical id requested_at received_at proxy_addr attempt longer max_retries
            delay in
        ((k : ℕ) × (r : Raw) × (k ≤ max_retries)
          × ((j : ℕ) → j < k → attempt j ≡ none)
          × (attempt k ≡ some r)
          × (q ≡ (
            returns k r,
            record {
              last_err = after_failures attempt longer k false;
              response = some r;
              calls = suc k;
              sleeps = delays attempt longer k delay;
            },
          )))
        ⊎ (((j : ℕ) → j ≤ max_retries → attempt j ≡ none)
            × (q ≡ (
              (failed request_failed, requests_total ∷ failed_request ∷ []),
              record {
                last_err = true;
                response = none;
                calls = suc max_retries;
                sleeps = delays attempt longer max_retries delay;
              },
            )))
  unfolding conclude
  request_ends max_retries delay = elim (first_success attempt longer max_retries) [
    | inl (k, r, l, f, e) ↦ inl (
      k,
      r,
      l,
      f,
      e,
      concluded max_retries delay _ (stops k max_retries delay r l f e) ∙ (λ i. (
        conclude-returns k r i,
        record {
          last_err = after_failures attempt longer k false;
          response = some r;
          calls = suc k;
          sleeps = delays attempt longer k delay;
        },
      )),
    )
    | inr f ↦ inr (
      f,
      concluded max_retries delay _
          (all_fail attempt longer max_retries 0 delay false (λ j l. from_zero j ∙ f j l)),
    )
  ]
    where
      from_zero : (j : ℕ) → attempt (0 + j) ≡ attempt j
      from_zero j = let e : 0 + j ≡ j = omega arith in ap attempt e
