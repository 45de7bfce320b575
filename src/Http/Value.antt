-- ===== src/Http/Value.antt =====
-- `Value` and `Values` of http/value.go: texts, and what they are read as. The readings of
-- `strconv` and `strings.ToUpper` are parameters; an error of `strconv` is dropped, so a reading is
-- the number that comes with it. A `Value` is none when its pointer is nil.
use lemo.Base.{Bytes, codes, Bool, List, [], ◌∷◌, Option, none, some, str_eq}

unfoldable pub to_text : Option Bytes → Bytes
to_text none = []
to_text (some v) = v

-- `Int` and `Float64`, by `strconv.Atoi` and `strconv.ParseFloat`.
unfoldable pub to_number : {A : Type 0} → (read : Bytes → A) → (zero_value : A) → Option Bytes → A
to_number read zero_value none = zero_value
to_number read zero_value (some v) = read v

module _ (to_upper : Bytes → Bytes) where
  unfoldable pub to_bool : Option Bytes → Bool
  unfolding to_text
  to_bool v = str_eq (to_upper (to_text v)) (codes "TRUE")

  -- `Values.Bool`
  unfoldable pub to_bools : List Bytes → List Bool
  to_bools [] = []
  to_bools (v ∷ vs) = str_eq (to_upper v) (codes "TRUE") ∷ to_bools vs

-- `Values.Int` and `Values.Float64`
unfoldable pub to_numbers : {A : Type 0} → (read : Bytes → A) → List Bytes → List A
to_numbers read [] = []
to_numbers read (v ∷ vs) = read v ∷ to_numbers read vs

-- `Values.String` and `Values.Bytes`: Go's strings are byte sequences here.
unfoldable pub to_texts : List Bytes → List Bytes
to_texts vs = vs

unfoldable pub to_byte_slices : List Bytes → List Bytes
to_byte_slices [] = []
to_byte_slices (v ∷ vs) = v ∷ to_byte_slices vs

-- `Value.Bytes`
unfoldable pub to_bytes : Option Bytes → Bytes
unfolding to_text
to_bytes v = to_text v
