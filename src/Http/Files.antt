-- ===== src/Http/Files.antt =====
-- `Files` of http/files.go: the files of a form by name, as an association list. An index past the
-- end of the files of a name panics.
use lemo.Base.{
  Bytes, ℕ, List, [], ◌∷◌, Option, none, some, str_eq, if◌then◌else◌, Outcome, ok, ◌>>=◌,
}
use lemo.Params.{index}

module _ {F : Type 0} where
  unfoldable pub all : List (Bytes × List F) → Bytes → Option (List F)
  all [] name = none
  all ((k, fs) ∷ rest) name = let found = all rest name in if str_eq k name then some fs else found

  -- `Index`; it and `First` give nil for a name that is not there.
  unfoldable pub index_of : List (Bytes × List F) → Bytes → ℕ → Outcome (Option F)
  unfolding all
  index_of files name i = elim (all files name) [
    | none ↦ ok none
    | some fs ↦ index fs i >>= λ f. ok (some f)
  ]

  unfoldable pub first : List (Bytes × List F) → Bytes → Outcome (Option F)
  unfolding index_of
  first files name = index_of files name 0
