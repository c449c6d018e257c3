-- ===== src/Message.antt =====
-- `SendMessage` of internal/di/container.go after the text has been formatted: the chunks that go to
-- Telegram. An error of a send is only logged.
pub mod Chunks
mod Tests
use api_poll.Prelude.{ℕ, ◌+◌, List, [], ◌∷◌, ◌++◌, Bytes, length, leb, ltb, if◌then◌else◌}
use api_poll.Prelude.Split.{split}

abbrev pub limit : ℕ
limit = 4096

-- The loop over the parts, from what the builder holds.
unfoldable pub pack : Bytes → List Bytes → List Bytes
pack held [] = if ltb 0 (length held) then held ∷ [] else []
pack held (p ∷ ps) =
    let skipped = pack held ps in
    let fresh = pack (p ++ 10 ∷ []) ps in
    let longer = pack (held ++ (p ++ 10 ∷ [])) ps in
    if leb limit (length p)
    then skipped
    else if leb limit (length held + length p)
    then held ∷ fresh
    else longer

unfoldable pub send_message : Bytes → List Bytes
unfolding pack split
send_message body = pack [] (split 10 body)
