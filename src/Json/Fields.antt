-- ===== src/Json/Fields.antt =====
-- What the decoders make of a JSON value, without a lexer: the members in their order, each by the case
-- of its key. `none` is a value of another shape than the case reads.
use api_poll.Prelude.{
  ℕ, Bool, List, [], ◌∷◌, ◌++◌, Option, none, some, Bytes, bytes_eq, if◌then◌else◌,
}
use api_poll.Prelude.Int.{ℤ}
use api_poll.Json.{
  Json, null, boolean, number, text, list, object, Items, no_items, item, Members, no_members,
  member, is_int64,
}

abbrev pub Update : Type 0 → Type 0
Update T = Json → T → Option T

abbrev pub Row : Type 0 → Type 0
Row T = Bytes × Update T

abbrev pub bind {ℓ} : {A B : Type ℓ} → (A → Option B) → Option A → Option B
bind f none = none
bind f (some a) = f a

unfoldable pub look_up : {T : Type 0} → List (Row T) → Bytes → Update T
unfolding bytes_eq
look_up [] key j v = some v
look_up ((k, update) ∷ rows) key j v = if bytes_eq key k then update j v else look_up rows key j v

-- A null changes nothing.
unfoldable pub put_members : {T : Type 0} → List (Row T) → Members → T → Option T
unfolding look_up
put_members rows no_members v = some v
put_members rows (member k null ms) v = put_members rows ms v
put_members rows (member k j ms) v = bind (λ w. put_members rows ms w) (look_up rows k j v)

abbrev pub put_object : {T : Type 0} → List (Row T) → Update T
put_object rows null v = some v
put_object rows (object ms) v = put_members rows ms v
put_object rows _ v = none

unfoldable pub put_items : {A : Type 0} → (Json → Option A) → Items → List A → Option (List A)
put_items read no_items as' = some as'
put_items read (item j xs) as' = bind (λ a. put_items read xs (as' ++ a ∷ [])) (read j)

module _ {T : Type 0} where
  abbrev pub put_number : (ℤ → T → T) → Update T
  put_number put (number n) v = if is_int64 n then some (put n v) else none
  put_number put _ v = none

  abbrev pub put_text : (Bytes → T → T) → Update T
  put_text put (text s) v = some (put s v)
  put_text put _ v = none

  abbrev pub put_boolean : (Bool → T → T) → Update T
  put_boolean put (boolean b) v = some (put b v)
  put_boolean put _ v = none

  -- A time is a text that its own decoder takes.
  abbrev pub put_time : (Bytes → Bytes) → (Bytes → ℕ × Bool) → (ℕ → T → T) → Update T
  put_time quoted unmarshal put (text s) v =
      if (unmarshal (quoted s)).1 then none else some (put (unmarshal (quoted s)).0 v)
  put_time quoted unmarshal put _ v = none

  unfoldable pub put_field : {A : Type 0} → List (Row A) → (T → A) → (A → T → T) → Update T
  unfolding put_members
  put_field rows field put j v = bind (λ a. some (put a v)) (put_object rows j (field v))

  unfoldable pub put_list : {A : Type 0} → List (Row A) → A → (List A → T → T) → Update T
  unfolding put_members put_items
  put_list rows empty put (list xs) v =
      bind (λ as'. some (put as' v)) (put_items (λ j. put_object rows j empty) xs [])
  put_list rows empty put _ v = none
