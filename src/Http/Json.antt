-- ===== src/Http/Json.antt =====
-- `Json` of http/json.go and `Array` of http/array.go: a value of the JSON library, got from nothing
-- when there is none yet. The library is a parameter.
use lemo.Base.{
  ◌⊎◌, inl, inr, ℕ, zero, suc, not, if◌then◌else◌, Bool, List, [], ◌∷◌, Bytes, true, false, Option,
  none, some, ◌≡◌, refl,
}

-- What is used of the library: `Get` of a text or of nil, and of a value its part at a path, whether
-- it is an error (`LastError`), its text, its size and its elements.
pub record JsonLibrary (J P X : Type 0) : Type 0 where
  pub parse : Option Bytes → J
  pub part : J → P → J
  pub is_error : J → Bool
  pub text : J → Bytes
  pub size : J → ℕ
  pub element : J → ℕ → J
  pub marshal : X → Bytes ⊎ Bytes

-- The bytes of `Marshal`, nil with an error.
abbrev pub bytes_of : Bytes ⊎ Bytes → Option Bytes
bytes_of (inl err) = none
bytes_of (inr b) = some b

-- `Json`, whose `any` may be nil.
pub record Json (J : Type 0) : Type 0 where
  pub any : Option J

module _ {J P X : Type 0} (library : JsonLibrary J P X) where
  -- `Reset`, which drops the error of `Marshal`.
  unfoldable pub reset : Json J → X → J × Json J
  reset j value =
      let v = library.parse (bytes_of (library.marshal value)) in (v, record { any = some v })

  unfoldable pub get_any : Json J → J × Json J
  get_any j = elim j.any [
    | some v ↦ (v, j)
    | none ↦ let v = library.parse none in (v, record { any = some v })
  ]

  -- The `Value` of a part, which is nil for an error.
  abbrev pub value_of : J → Option Bytes
  value_of v = if library.is_error v then none else some (library.text v)

  unfoldable pub get : Json J → P → Option Bytes × Json J
  unfolding get_any
  get j path = let (v, j') = get_any j in (value_of (library.part v path), j')

  unfoldable pub has : Json J → P → Bool × Json J
  unfolding get_any
  has j path = let (v, j') = get_any j in (not (library.is_error (library.part v path)), j')

  abbrev pub is_empty : Bytes → Bool
  is_empty [] = true
  is_empty (c ∷ s) = false

  unfoldable pub empty : Json J → P → Bool × Json J
  unfolding get_any
  empty j path = let (v, j') = get_any j in (is_empty (library.text (library.part v path)), j')

  unfoldable pub to_string : Json J → Bytes × Json J
  unfolding get_any
  to_string j = let (v, j') = get_any j in (library.text v, j')

  -- `Iter` and `Path`
  unfoldable pub iter : Json J → J × Json J
  unfolding get_any
  iter j = get_any j

  unfoldable pub at_path : Json J → P → J × Json J
  unfolding get_any
  at_path j path = let (v, j') = get_any j in (library.part v path, j')

  -- `Bytes`, which calls itself: none is a call that is left when the fuel has run out.
  unfoldable pub bytes : ℕ → Json J → Option (Bytes × Json J)
  bytes zero j = none
  bytes (suc fuel) j = bytes fuel j

  -- No fuel is enough.
  bytes_never : (fuel : ℕ) (j : Json J) → bytes fuel j ≡ none
  unfolding bytes
  bytes_never zero j = refl
  bytes_never (suc fuel) j = bytes_never fuel j

  -- The elements of a value from the index `i` on, `n` of them.
  unfoldable pub elements : J → (i n : ℕ) → List J
  elements v i zero = []
  elements v i (suc n) = library.element v i ∷ elements v (suc i) n

  -- `Array`
  unfoldable pub array : Json J → P → List J × Json J
  unfolding get_any elements
  array j path =
      let (v, j') = get_any j in let a = library.part v path in (elements a 0 (library.size a), j')

-- `Array.String`, `Array.Int` and `Array.Float64`, by the reading of one element.
unfoldable pub array_values : {J A : Type 0} → (read : J → A) → List J → List A
array_values read [] = []
array_values read (v ∷ vs) = read v ∷ array_values read vs
