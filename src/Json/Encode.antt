-- ===== src/Json/Encode.antt =====
-- The shape of every generated encoder: calls of the writer of mailru/easyjson, one after the other. The
-- writer is a parameter, as a state that each method reads and changes.
use api_poll.Prelude.{Bool, true, false, ◌&&◌, not, List, [], ◌∷◌, Bytes, utf8, if◌then◌else◌}
use api_poll.Prelude.Int.{ℤ}

-- `jwriter.Writer`. `raw` takes what the own encoder of a value gives, with whether it failed.
pub record Writer (W : Type 0) : Type 0 where
  pub nil_slice_as_empty : W → Bool
  pub written : W → Bytes
  pub failed : W → Bool
  pub raw_string : Bytes → W → W
  pub int : ℤ → W → W
  pub int64 : ℤ → W → W
  pub string : Bytes → W → W
  pub bool : Bool → W → W
  pub raw : Bytes × Bool → W → W

unfoldable pub steps : {W : Type 0} → List (W → W) → W → W
steps [] w = w
steps (f ∷ fs) w = steps fs (f w)

-- An empty slice may be nil, which the flag says of it.
abbrev pub is_nil : {A : Type 0} → Bool → List A → Bool
is_nil nil [] = nil
is_nil nil (a ∷ as') = false

module _ {W : Type 0} (writer : Writer W) where
  unfoldable pub write_items : {A : Type 0} → (A → W → W) → Bool → List A → W → W
  write_items one first [] w = w
  write_items one first (a ∷ as') w =
      write_items one false as' (one a (if first then w else writer.raw_string (utf8 ",") w))

  unfoldable pub write_slice : {A : Type 0} → (A → W → W) → Bool → List A → W → W
  unfolding write_items steps
  write_slice one nil as' w =
      if is_nil nil as' && not (writer.nil_slice_as_empty w)
      then writer.raw_string (utf8 "null") w
      else steps
          (writer.raw_string (utf8 "[")
            ∷ write_items one true as'
            ∷ writer.raw_string (utf8 "]")
            ∷ [])
          w

  -- What a marshaller gives: the bytes, and whether the writer has an error.
  abbrev pub output : W → Bytes × Bool
  output w = (writer.written w, writer.failed w)
