-- ===== src/Json/Writes.antt =====
-- The text of a JSON value, and steps of a writer that write it.
use api_poll.Prelude.{
  ℕ, ◌≡◌, refl, sym, ap, ◌∙◌, subst, Bool, true, false, ◌&&◌, not, List, [], ◌∷◌, ◌++◌, append-nil,
  Bytes, utf8, if◌then◌else◌, if_true, if_false, Bool-cases, inl, inr, arith,
}
use api_poll.Prelude.Int.{ℤ}
use api_poll.Json.{
  Json, null, boolean, number, text, list, object, Items, no_items, item, Members, no_members,
  member,
}
use api_poll.Json.Encode.{output, Writer, steps, is_nil, write_items, write_slice}

-- How values without parts are written.
pub record Texts : Type 0 where
  pub quoted : Bytes → Bytes
  pub decimal : ℤ → Bytes
  pub truth : Bool → Bytes

abbrev pub comma_unless : Bool → Bytes → Bytes
comma_unless true s = s
comma_unless false s = b',' ∷ s

module _ (texts : Texts) where
  -- The text of a value before another text.
  unfoldable mutual
    pub render : Json → Bytes → Bytes
    render null s = utf8 "null" ++ s
    render (boolean b) s = texts.truth b ++ s
    render (number n) s = texts.decimal n ++ s
    render (text t) s = texts.quoted t ++ s
    render (list xs) s = b'[' ∷ render_items xs true s
    render (object ms) s = b'{' ∷ render_members ms true s

    pub render_items : Items → Bool → Bytes → Bytes
    render_items no_items first s = b']' ∷ s
    render_items (item j xs) first s = comma_unless first (render j (render_items xs false s))

    pub render_members : Members → Bool → Bytes → Bytes
    render_members no_members first s = b'}' ∷ s
    render_members (member k j ms) first s =
        comma_unless first (b'"' ∷ (k ++ b'"' ∷ b':' ∷ render j (render_members ms false s)))

-- A writer that has not failed, and writes a nil slice as null.
abbrev pub IsReady : {W : Type 0} → Writer W → W → Type 0
IsReady writer w = (writer.failed w ≡ false) × (writer.nil_slice_as_empty w ≡ false)

-- A step writes a text, here as the text `g s` in place of any text `s` that follows.
pub record Writes {W : Type 0} (writer : Writer W) (f : W → W) (g : Bytes → Bytes) : Type 0 where
  pub still_ready : (w : W) → IsReady writer w → IsReady writer (f w)
  pub adds :
      (w : W) → IsReady writer w → (s : Bytes) → writer.written (f w) ++ s ≡ writer.written w ++ g s

-- What the writer documents.
pub record IsWriter {W : Type 0} (texts : Texts) (writer : Writer W) : Type 0 where
  pub writes_raw_string : (t : Bytes) → Writes writer (writer.raw_string t) (λ s. t ++ s)
  pub writes_int : (n : ℤ) → Writes writer (writer.int n) (λ s. texts.decimal n ++ s)
  pub writes_int64 : (n : ℤ) → Writes writer (writer.int64 n) (λ s. texts.decimal n ++ s)
  pub writes_string : (t : Bytes) → Writes writer (writer.string t) (λ s. texts.quoted t ++ s)
  pub writes_bool : (b : Bool) → Writes writer (writer.bool b) (λ s. texts.truth b ++ s)
  pub writes_raw :
      (c : ℕ) (t : Bytes) → Writes writer (writer.raw (c ∷ t, false)) (λ s. (c ∷ t) ++ s)

abbrev pub Each : {A : Type 0} → (A → Type 0) → List A → Type 0
Each Fits [] = Unit
Each Fits (a ∷ as') = Fits a × Each Fits as'

abbrev pub items_of : {A : Type 0} → (A → Json) → List A → Items
items_of tree [] = no_items
items_of tree (a ∷ as') = item (tree a) (items_of tree as')

abbrev pub slice_tree : {A : Type 0} → (A → Json) → Bool → List A → Json
slice_tree tree nil as' = if is_nil nil as' then null else list (items_of tree as')

both : {b c : Bool} → b ≡ true → c ≡ false → (b && not c) ≡ true
both {b = b} {c = c} p q = let all : (b && not c) ≡ true = ground (arith, p, q) in all

first_false : {b : Bool} (c : Bool) → b ≡ false → (b && c) ≡ false
first_false {b = b} c p = let all : (b && c) ≡ false = ground (arith, p) in all

module _ {W : Type 0} {writer : Writer W} where
  when_ready :
      {f f' : W → W} {g : Bytes → Bytes}
      → ((w : W) → IsReady writer w → f' w ≡ f w)
      → Writes writer f g
      → Writes writer f' g
  when_ready {f = f} {f' = f'} same f-Writes = record {
    still_ready =
        λ w ready. subst (IsReady writer) (sym (same w ready)) (f-Writes.still_ready w ready);
    adds = λ w ready s. ap (λ x. writer.written x ++ s) (same w ready) ∙ f-Writes.adds w ready s;
  }

  -- Two steps, one after the other.
  pub then_step :
      {f f' : W → W} {g h : Bytes → Bytes}
      → Writes writer f g
      → Writes writer f' h
      → Writes writer (λ w. f' (f w)) (λ s. g (h s))
  then_step {f = f} {h = h} first others = record {
    still_ready = λ w ready. others.still_ready (f w) (first.still_ready w ready);
    adds = λ w ready s. others.adds (f w) (first.still_ready w ready) s ∙ first.adds w ready (h s);
  }

  -- From a new writer.
  pub all-written :
      {f : W → W} {g : Bytes → Bytes}
      → Writes writer f g
      → (w : W) → IsReady writer w
      → writer.written w ≡ []
      → output writer (f w) ≡ (g [], false)
  all-written {f = f} {g = g} f-Writes w ready nothing =
      let bytes =
        sym (append-nil (writer.written (f w)))
        ∙ f-Writes.adds w ready []
        ∙ ap (λ s. s ++ g []) nothing in
      ap (λ b. (b, writer.failed (f w))) bytes
      ∙ ap (λ b. (g [], b)) (f-Writes.still_ready w ready).0

  module _ {texts : Texts} (laws : IsWriter texts writer) where
    -- The comma before an item, where one stands before it.
    comma-Writes :
        (first : Bool)
        → Writes writer
            (λ w. if first then w else writer.raw_string (utf8 ",") w)
            (comma_unless first)
    comma-Writes true = record { still_ready = λ w ready. ready; adds = λ w ready s. refl }
    comma-Writes false = laws.writes_raw_string (utf8 ",")

    module _ {A : Type 0} (tree : A → Json) (one : A → W → W) (Fits : A → Type 0)
        (one_writes : (a : A) → Fits a → Writes writer (one a) (render texts (tree a))) where
      write_items-Writes :
          (first : Bool) (as' : List A)
          → Each Fits as'
          → Writes writer
              (steps (write_items writer one first as' ∷ writer.raw_string (utf8 "]") ∷ []))
              (render_items texts (items_of tree as') first)
      unfolding write_items render_items steps
      write_items-Writes first [] h = laws.writes_raw_string (utf8 "]")
      write_items-Writes first (a ∷ as') (fits, others) =
          let before = comma-Writes first in
          let here = one_writes a fits in
          let later = write_items-Writes false as' others in
          record {
            still_ready =
                λ w ready. later.still_ready _ (here.still_ready _ (before.still_ready w ready));
            adds = λ w ready s.
                let ready1 = before.still_ready w ready in
                later.adds _ (here.still_ready _ ready1) s
                ∙ here.adds _ ready1 (render_items texts (items_of tree as') false s)
                ∙ before.adds w ready _;
          }

      pub write_slice-Writes :
          (nil : Bool) (as' : List A)
          → Each Fits as'
          → Writes writer (write_slice writer one nil as') (render texts (slice_tree tree nil as'))
      unfolding write_slice render steps
      write_slice-Writes nil as' h =
          let items = steps (
            writer.raw_string (utf8 "[")
            ∷ write_items writer one true as'
            ∷ writer.raw_string (utf8 "]")
            ∷ []) in
          elim (Bool-cases (is_nil nil as')) [
            | inl none_yet ↦
                when_ready (λ w ready. if_true _ (items w) (both none_yet ready.1))
                  (subst
                    (λ b.
                      Writes writer (writer.raw_string (utf8 "null"))
                        (render texts (if b then null else list (items_of tree as'))))
                    (sym none_yet) (laws.writes_raw_string (utf8 "null")))
            | inr some_items ↦
                when_ready
                  (λ w ready.
                    if_false (writer.raw_string (utf8 "null") w) _ (first_false _ some_items))
                  (subst
                    (λ b.
                      Writes writer items
                        (render texts (if b then null else list (items_of tree as'))))
                    (sym some_items)
                    (then_step (laws.writes_raw_string (utf8 "[")) (write_items-Writes true as' h)))
          ]
