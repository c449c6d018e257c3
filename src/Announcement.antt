-- ===== src/Announcement.antt =====
-- internal/core/announcement_by_id_fetcher.go and internal/core/announcements_fetcher.go: two other
-- sources of titles, over the JSON endpoints. Their loops differ in what they decode and in what they
-- keep; both stop at the first 429. The decoder is a parameter of each.
pub mod Changes
pub mod ById
pub mod Start
pub mod Latest
mod Tests
use api_poll.Prelude.{Bool, List}
use api_poll.Entity.{Response}

-- What the `select` of the goroutine picks.
pub data Event : Type 0 where
  cancelled : Event
  responded : Response → Event

-- How far the goroutine is: in its loop, or returned with an error.
pub data Stop : Type 0 where
  running context_done too_many_requests : Stop

-- One turn of the loop.
pub data Turn (F : Type 0) : Type 0 where
  goes_on : F → Turn F
  stops : F → Turn F
