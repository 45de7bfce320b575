-- ===== src/Http/Store.antt =====
-- `Store` of http/store.go: keys and their values in two slices, walked together. A value that is
-- read past the end of its slice panics. `Struct`, which fills a struct by reflection, is not here.
pub mod Entries
pub mod Struct
use lemo.Base.{
  Bytes, codes, ℕ, suc, ◌+◌, Bool, true, false, List, [], ◌∷◌, ◌++◌, Option, none, some, str_eq,
  length, drop, slice, if◌then◌else◌, Outcome, ok, panic, ◌>>=◌,
}
use lemo.Params.{index}

pub record Store : Type 0 where
  pub keys : List Bytes
  pub values : List (List Bytes)

abbrev pub empty_store : Store
empty_store = record { keys = []; values = [] }

-- `s.values[i]` at the first of the values that are left, and those behind it.
abbrev pub head_of : List (List Bytes) → Outcome (List Bytes)
head_of [] = panic
head_of (v ∷ vs) = ok v

unfoldable pub has_in : Bytes → List Bytes → Bool
has_in key [] = false
has_in key (k ∷ ks) = let rest = has_in key ks in if str_eq k key then true else rest

unfoldable pub has : Store → Bytes → Bool
unfolding has_in
has s key = has_in key s.keys

-- The loop of `First` and `Index`, up to the values beside the first key that matches.
unfoldable pub find_in : Bytes → List Bytes → List (List Bytes) → Outcome (Option (List Bytes))
find_in key [] vs = ok none
find_in key (k ∷ ks) vs =
    let rest = find_in key ks (drop 1 vs) in
    if str_eq k key then (head_of vs >>= λ v. ok (some v)) else rest

abbrev pub at_index : ℕ → Option (List Bytes) → Outcome (Option Bytes)
at_index i none = ok none
at_index i (some v) = index v i >>= λ x. ok (some x)

-- `Index`, and `First`, which is `Index` at 0. A `Value` is none when its pointer is nil.
unfoldable pub index_of : Store → Bytes → ℕ → Outcome (Option Bytes)
unfolding find_in
index_of s key i = find_in key s.keys s.values >>= at_index i

unfoldable pub first : Store → Bytes → Outcome (Option Bytes)
unfolding index_of
first s key = index_of s key 0

abbrev pub is_empty_value : Option Bytes → Bool
is_empty_value none = true
is_empty_value (some []) = true
is_empty_value (some (c ∷ v)) = false

unfoldable pub empty : Store → Bytes → Outcome Bool
unfolding first
empty s key = first s key >>= λ v. ok (is_empty_value v)

unfoldable pub all_in : Bytes → List Bytes → List (List Bytes) → Outcome (List Bytes)
all_in key [] vs = ok []
all_in key (k ∷ ks) vs =
    let rest = all_in key ks (drop 1 vs) in
    if str_eq k key then (head_of vs >>= λ v. rest >>= λ r. ok (v ++ r)) else rest

-- `All`
unfoldable pub all : Store → Bytes → Outcome (List Bytes)
unfolding all_in
all s key = all_in key s.keys s.values

unfoldable pub add : Store → Bytes → List Bytes → Store
add s key value = record { keys = s.keys ++ (key ∷ []); values = s.values ++ (value ∷ []) }

unfoldable pub position : Bytes → List Bytes → Option ℕ
position key [] = none
position key (k ∷ ks) =
    let rest = position key ks in
    if str_eq k key then some 0 else elim rest [ none ↦ none | some i ↦ some (suc i) ]

-- `append(xs[0:i], xs[i+1:]...)`
unfoldable pub without : {A : Type 0} → ℕ → List A → Outcome (List A)
unfolding slice
without i xs =
    slice 0 i xs >>= λ before. slice (i + 1) (length xs) xs >>= λ after. ok (before ++ after)

unfoldable pub remove : Store → Bytes → Outcome Store
unfolding position without
remove s key = elim (position key s.keys) [
  | none ↦ ok s
  | some i ↦
      without i s.keys >>= λ ks. without i s.values >>= λ vs. ok (record { keys = ks; values = vs })
]

abbrev pub commas : List Bytes → Bytes
commas [] = []
commas (v ∷ []) = v
commas (v ∷ w ∷ vs) = v ++ (codes "," ++ commas (w ∷ vs))

-- What the loop of `String` writes: each key with its values, and a space.
unfoldable pub write_all : List Bytes → List (List Bytes) → Outcome Bytes
write_all [] vs = ok []
write_all (k ∷ ks) vs = head_of vs >>= λ v.
    write_all ks (drop 1 vs) >>= λ rest. ok (k ++ (codes ":" ++ (commas v ++ (codes " " ++ rest))))

abbrev pub drop_last : Bytes → Bytes
drop_last [] = []
drop_last (c ∷ []) = []
drop_last (c ∷ d ∷ s) = c ∷ drop_last (d ∷ s)

-- `String`
unfoldable pub to_string : Store → Outcome Bytes
unfolding write_all
to_string s = write_all s.keys s.values >>= λ written. ok (drop_last written)
