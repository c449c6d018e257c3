-- ===== src/Rate/Tests.antt =====
-- A run of four requests.
use api_poll.Prelude.{◌≡◌, refl, [], ◌∷◌}
use api_poll.Rate.{not_executed, answered, make_requests}
use api_poll.Rate.Counts.{no_requests}

four_requests :
    make_requests (answered 200 ∷ answered 429 ∷ not_executed ∷ answered 200 ∷ []) no_requests
    ≡ record { total_requests = 4; success_count = 2; error_429_count = 1 }
unfolding make_requests
four_requests = refl
