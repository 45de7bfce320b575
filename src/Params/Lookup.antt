-- ===== src/Params/Lookup.antt =====
-- `ByName` against an association list.
use lemo.Base.{
  Bytes, ℕ, zero, suc, ◌≡◌, refl, List, [], ◌∷◌, arith, str_eq, if◌then◌else◌, length, get_elem?,
  drop, Bool-cases, inl, inr, ok, some,
}
use lemo.Params.{Params, index, by_name_from, by_name}

-- The value beside the first key that is `name`, or "".
unfoldable pub first_value : Bytes → List Bytes → List Bytes → Bytes
first_value name [] values = []
first_value name (key ∷ keys) [] = []
first_value name (key ∷ keys) (value ∷ values) =
    if str_eq key name then value else first_value name keys values

tail_of_drop :
    (i : ℕ) (xs : List Bytes) {y : Bytes} {ys : List Bytes}
    → drop i xs ≡ y ∷ ys
    → (get_elem? xs i ≡ some y) × (drop (suc i) xs ≡ ys)
tail_of_drop zero [] e = cc
tail_of_drop zero (x ∷ xs) e = (cc, cc)
tail_of_drop (suc i) [] e = cc
tail_of_drop (suc i) (x ∷ xs) e = tail_of_drop i xs e

by_name_from-first_value :
    (values : List Bytes) (name : Bytes) (i : ℕ) (keys rest : List Bytes)
    → drop i values ≡ rest
    → length keys ≡ length rest
    → by_name_from values name i keys ≡ ok (first_value name keys rest)
unfolding by_name_from first_value
by_name_from-first_value values name i [] rest e h = refl
by_name_from-first_value values name i (key ∷ keys) [] e h = absurd (omega arith)
by_name_from-first_value values name i (key ∷ keys) (v ∷ rest) e h =
    let (here, next) = tail_of_drop i values e in
    elim (Bool-cases (str_eq key name)) [
      | inl same ↦ rw same (rw (here, index))
      | inr other ↦
          rw other (by_name_from-first_value values name (suc i) keys rest next (omega arith))
    ]

-- With as many values as keys, `ByName` never panics and gives the value of the first key that
-- matches, or "" when none does.
pub by_name-first_value :
    (ps : Params) (name : Bytes)
    → length ps.keys ≡ length ps.values
    → by_name ps name ≡ ok (first_value name ps.keys ps.values)
unfolding by_name
by_name-first_value ps name h = by_name_from-first_value ps.values name 0 ps.keys ps.values refl h
