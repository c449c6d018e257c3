-- ===== src/Settings/Mappings.antt =====
-- The bindings of a struct type are those of its leaves.
use api_poll.Prelude.{
  ◌≡◌, refl, ap, sym, ◌∙◌, Bool, true, false, ◌||◌, ◌&&◌, not, List, [], ◌∷◌, ◌++◌, Option, none,
  some, Bytes, utf8, bytes_eq, if◌then◌else◌,
}
use api_poll.Settings.{
  Fields, no_fields, plain, struct, EnvMappings, joined, prefix_of, create_env_mappings,
}

-- The path of every field that is no struct, with its variable.
unfoldable pub leaves : Bytes → Fields → List (Bytes × Bytes)
unfolding prefix_of
leaves prefix no_fields = []
leaves prefix (plain tag env rest) = (joined prefix tag, env) ∷ leaves prefix rest
leaves prefix (struct tag env inner rest) =
    leaves (prefix_of prefix tag) inner ++ leaves prefix rest

-- Every field, at any depth, has a name.
unfoldable pub all_named : Fields → Bool
unfolding bytes_eq
all_named no_fields = true
all_named (plain tag env rest) = not (bytes_eq tag []) && all_named rest
all_named (struct tag env inner rest) = not (bytes_eq tag []) && (all_named inner && all_named rest)

-- To bind paths to their variables, one after another; a path without a variable is left out.
abbrev pub bind : Bytes × Bytes → EnvMappings → EnvMappings
bind (path, env) mappings =
    if bytes_eq env [] || bytes_eq env (utf8 "-") then mappings else (path, env) ∷ mappings

unfoldable pub bind_all : List (Bytes × Bytes) → EnvMappings → EnvMappings
bind_all [] mappings = mappings
bind_all (l ∷ ls) mappings = bind_all ls (bind l mappings)

bind_all-append :
    (ls ms : List (Bytes × Bytes)) (mappings : EnvMappings)
    → bind_all (ls ++ ms) mappings ≡ bind_all ms (bind_all ls mappings)
unfolding bind_all
bind_all-append [] ms mappings = refl
bind_all-append (l ∷ ls) ms mappings = bind_all-append ls ms (bind l mappings)

-- To go on after a step that succeeds either way, and after one that may fail.
then_go :
    {A : Type 0} (b : Bool) (x y : A) (f : A → Option A)
    → (elim (if b then some x else some y) [ none ↦ none | some z ↦ f z ]) ≡ f (if b then x else y)
then_go true x y f = refl
then_go false x y f = refl

both :
    {A : Type 0} (b c : Bool) (x y : A) (f : A → Option A)
    → f x ≡ (if c then some y else none)
    → (elim (if b then some x else none) [ none ↦ none | some z ↦ f z ])
      ≡ (if b && c then some y else none)
both true c x y f h = h
both false c x y f h = refl

-- The bindings exist just when every field has a name, and they are those of the leaves in the order of
-- the fields: the variable of a field that is a struct is never bound.
pub create_env_mappings-bind_all :
    (fields : Fields) (mappings : EnvMappings) (prefix : Bytes)
    → create_env_mappings fields mappings prefix
      ≡ (if all_named fields then some (bind_all (leaves prefix fields) mappings) else none)
unfolding create_env_mappings all_named leaves bind_all
create_env_mappings-bind_all no_fields mappings prefix = refl
create_env_mappings-bind_all (plain [] env rest) mappings prefix = refl
create_env_mappings-bind_all (plain (c ∷ cs) env rest) mappings prefix =
    let path = joined prefix (c ∷ cs) in
    then_go (bytes_eq env [] || bytes_eq env (utf8 "-")) mappings ((path, env) ∷ mappings)
      (λ more. create_env_mappings rest more prefix)
    ∙ create_env_mappings-bind_all rest (bind (path, env) mappings) prefix
create_env_mappings-bind_all (struct [] env inner rest) mappings prefix = refl
create_env_mappings-bind_all (struct (c ∷ cs) env inner rest) mappings prefix =
    let below = leaves (prefix_of prefix (c ∷ cs)) inner in
    let go : EnvMappings → Option EnvMappings = λ more. create_env_mappings rest more prefix in
    ap (λ o. elim o [ none ↦ none | some more ↦ go more ])
      (create_env_mappings-bind_all inner mappings (prefix_of prefix (c ∷ cs)))
    ∙ both (all_named inner) (all_named rest) (bind_all below mappings)
        (bind_all (below ++ leaves prefix rest) mappings) go
        (create_env_mappings-bind_all rest (bind_all below mappings) prefix
          ∙ ap (λ m. if all_named rest then some m else none)
              (sym (bind_all-append below (leaves prefix rest) mappings)))
