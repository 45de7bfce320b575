-- ===== src/Http/Store/Entries.antt =====
-- A `Store` against the association list of its entries.
use lemo.Base.{
  Bytes, ℕ, zero, suc, ◌+◌, ◌≡◌, refl, sym, ap, Bool, true, false, List, [], ◌∷◌, ◌++◌, concat,
  Option, none, some, str_eq, Bool-cases, ◌⊎◌, inl, inr, length, length-drop, slice-eq-ok, subst,
  ◌-◌, ◌<◌, take, drop, if◌then◌else◌, ok, ◌>>=◌, arith,
}
use lemo.Http.Store.{
  Store, has, has_in, find_in, index_of, at_index, all, all_in, add, position, without, remove,
}

abbrev pub Entry : Type 0
Entry = Bytes × List Bytes

-- The store that holds the entries, and the entries of a store.
abbrev pub keys_of : List Entry → List Bytes
keys_of [] = []
keys_of ((k, v) ∷ es) = k ∷ keys_of es

abbrev pub values_of : List Entry → List (List Bytes)
values_of [] = []
values_of ((k, v) ∷ es) = v ∷ values_of es

abbrev pub of_entries : List Entry → Store
of_entries es = record { keys = keys_of es; values = values_of es }

-- What a multi-map promises: the values under a key, in order, and the entry that `Remove` drops.
unfoldable pub under : Bytes → List Entry → List (List Bytes)
under key [] = []
under key ((k, v) ∷ es) = let rest = under key es in if str_eq k key then v ∷ rest else rest

unfoldable pub without_first : Bytes → List Entry → List Entry
without_first key [] = []
without_first key ((k, v) ∷ es) =
    let rest = without_first key es in if str_eq k key then es else (k, v) ∷ rest

abbrev pub is_some_list : List (List Bytes) → Bool
is_some_list [] = false
is_some_list (v ∷ vs) = true

abbrev pub first_of : List (List Bytes) → Option (List Bytes)
first_of [] = none
first_of (v ∷ vs) = some v

pub has-under :
    (es : List Entry) (key : Bytes) → has_in key (keys_of es) ≡ is_some_list (under key es)
unfolding has_in under
has-under [] key = refl
has-under ((k, v) ∷ es) key = ground (arith, has-under es key)

pub find-under :
    (es : List Entry) (key : Bytes)
    → find_in key (keys_of es) (values_of es) ≡ ok (first_of (under key es))
unfolding find_in under
find-under [] key = refl
find-under ((k, v) ∷ es) key = ground (arith, find-under es key)

all-under :
    (es : List Entry) (key : Bytes)
    → all_in key (keys_of es) (values_of es) ≡ ok (concat (under key es))
unfolding all_in under
all-under [] key = refl
all-under ((k, v) ∷ es) key = elim (Bool-cases (str_eq k key)) [
  | inl same ↦ rw same (rw (all-under es key) refl)
  | inr other ↦ rw other (all-under es key)
]

take_all : {A : Type 0} (n : ℕ) (xs : List A) → n ≡ length xs → take n xs ≡ xs
take_all zero [] h = refl
take_all zero (x ∷ xs) h = absurd (omega arith)
take_all (suc n) [] h = refl
take_all (suc n) (x ∷ xs) h = ap (λ l. x ∷ l) (take_all n xs (omega arith))

without_lem :
    {A : Type 0} (i : ℕ) (xs : List A)
    → i < length xs
    → without i xs ≡ ok (take i xs ++ drop (suc i) xs)
unfolding without
without_lem i xs h =
    let next : i + 1 ≡ suc i = omega arith in
    let same : i - 0 ≡ i = omega arith in
    rw (slice-eq-ok 0 i xs (omega arith) (omega arith), next)
      (rw (slice-eq-ok (suc i) (length xs) xs (omega arith) (omega arith), same)
        (rw (take_all (length xs - suc i) (drop (suc i) xs) (omega (arith, length-drop (suc i) xs)))
          refl))

-- Where the first entry with the key stands, and what the two slices are without it.
abbrev IsAt : Bytes → List Entry → ℕ → Type 0
IsAt key es i =
    (i < length (keys_of es))
    × (i < length (values_of es))
    × (take i (keys_of es) ++ drop (suc i) (keys_of es) ≡ keys_of (without_first key es))
    × (take i (values_of es) ++ drop (suc i) (values_of es) ≡ values_of (without_first key es))

position_lem :
    (es : List Entry) (key : Bytes)
    → ((position key (keys_of es) ≡ none) × (without_first key es ≡ es))
      ⊎ ((i : ℕ) × (position key (keys_of es) ≡ some i) × IsAt key es i)
unfolding position without_first
position_lem [] key = inl (refl, refl)
position_lem ((k, v) ∷ es) key = elim (Bool-cases (str_eq k key)) [
  | inl same ↦ inr (0, rw same refl, (omega arith, omega arith, rw same refl, rw same refl))
  | inr other ↦ elim (position_lem es key) [
    | inl (p, w) ↦ inl (rw other (rw p refl), rw other (rw w refl))
    | inr (i, p, at) ↦ inr (
      suc i,
      rw other (rw p refl),
      (
        omega (arith, at.0),
        omega (arith, at.1),
        rw other (ap (λ l. k ∷ l) at.2),
        rw other (ap (λ l. v ∷ l) at.3),
      ),
    )
  ]
]

remove-without_first :
    (es : List Entry) (key : Bytes)
    → remove (of_entries es) key ≡ ok (of_entries (without_first key es))
unfolding remove
remove-without_first es key = elim (position_lem es key) [
  | inl (p, w) ↦ rw (p, remove) (rw w refl)
  | inr (i, p, at) ↦
      rw (p, remove)
        (rw (without_lem i (keys_of es) at.0)
          (rw (without_lem i (values_of es) at.1) (rw at.2 (rw at.3 refl))))
]

keys_of-append : (es fs : List Entry) → keys_of (es ++ fs) ≡ keys_of es ++ keys_of fs
keys_of-append [] fs = refl
keys_of-append ((k, v) ∷ es) fs = ap (λ l. k ∷ l) (keys_of-append es fs)

values_of-append : (es fs : List Entry) → values_of (es ++ fs) ≡ values_of es ++ values_of fs
values_of-append [] fs = refl
values_of-append ((k, v) ∷ es) fs = ap (λ l. v ∷ l) (values_of-append es fs)

-- A store whose two slices have the same length is the store of its entries.
pub aligned-of_entries :
    (ks : List Bytes) (vs : List (List Bytes))
    → length ks ≡ length vs
    → (es : List Entry) × (of_entries es ≡ record { keys = ks; values = vs })
aligned-of_entries [] [] h = ([], refl)
aligned-of_entries [] (v ∷ vs) h = absurd (omega arith)
aligned-of_entries (k ∷ ks) [] h = absurd (omega arith)
aligned-of_entries (k ∷ ks) (v ∷ vs) h =
    let (es, e) = aligned-of_entries ks vs (omega arith) in
    ((k, v) ∷ es, ap (λ (s : Store). record { keys = k ∷ s.keys; values = v ∷ s.values }) e)

-- A store whose two slices have the same length is a multi-map, for its list of entries `es`:
-- `Has` says whether the key has an entry, `All` gives the values of all entries under it, in
-- order, `Index` gives one value of the first of them, or nil when there is none, and panics beyond
-- its end, `Add` adds an entry at the end, `Remove` drops the first entry under the key, and none of
-- the others panics.
pub store_refines :
    (s : Store) (key : Bytes)
    → length s.keys ≡ length s.values
    → (es : List Entry) × (s ≡ of_entries es)
      × (has s key ≡ is_some_list (under key es))
      × (all s key ≡ ok (concat (under key es)))
      × ((i : ℕ) → index_of s key i ≡ at_index i (first_of (under key es)))
      × ((value : List Bytes) → add s key value ≡ of_entries (es ++ ((key, value) ∷ [])))
      × (remove s key ≡ ok (of_entries (without_first key es)))
unfolding has all index_of add
store_refines s key h =
    let (es, e) = aligned-of_entries s.keys s.values h in
    (
      es,
      sym e,
      subst (λ (t : Store). has t key ≡ is_some_list (under key es)) e (has-under es key),
      subst (λ (t : Store). all t key ≡ ok (concat (under key es))) e (all-under es key),
      λ i.
          subst (λ (t : Store). index_of t key i ≡ at_index i (first_of (under key es))) e
            (ap (λ r. r >>= at_index i) (find-under es key)),
      λ value.
          subst (λ (t : Store). add t key value ≡ of_entries (es ++ ((key, value) ∷ []))) e
            (rw (keys_of-append es ((key, value) ∷ []), values_of-append es ((key, value) ∷ []))
              refl),
      subst (λ (t : Store). remove t key ≡ ok (of_entries (without_first key es))) e
          (remove-without_first es key),
    )
