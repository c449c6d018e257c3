-- ===== src/Announcement/Changes.antt =====
-- The announcements that change the title, in order: what both fetchers send.
use api_poll.Prelude.{◌≡◌, refl, true, false, List, [], ◌∷◌, Bytes, bytes_eq}
use api_poll.Entity.{Notice}

unfoldable pub changes : Bytes → List Notice → List Notice
changes last [] = []
changes last (n ∷ ns) = elim (bytes_eq last n.title) [
  | true ↦ changes last ns
  | false ↦ n ∷ changes n.title ns
]

-- The title that stands after the changes.
unfoldable pub last_title : Bytes → List Notice → Bytes
last_title last [] = last
last_title last (n ∷ ns) = last_title n.title ns

-- The last of the announcements, or a given one.
unfoldable pub last_or : {A : Type 0} → (Notice → A) → A → List Notice → A
last_or f a [] = a
last_or f a (n ∷ ns) = last_or f (f n) ns

pub changes_same :
    (last : Bytes) (n : Notice) (ns : List Notice)
    → bytes_eq last n.title ≡ true
    → changes last (n ∷ ns) ≡ changes last ns
unfolding changes
changes_same last n ns e = rw (e, changes) refl

pub changes_new :
    (last : Bytes) (n : Notice) (ns : List Notice)
    → bytes_eq last n.title ≡ false
    → changes last (n ∷ ns) ≡ n ∷ changes n.title ns
unfolding changes
changes_new last n ns e = rw (e, changes) refl
