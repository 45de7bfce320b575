-- ===== src/Http/Store/Struct/Filled.antt =====
-- What `Struct` of http/store.go does, field by field.
use lemo.Base.{
  Bytes, ℕ, ◌≡◌, refl, sym, ap, ◌∙◌, Bool, true, false, List, [], ◌∷◌, str_eq, eq_of_str_eq,
  Bool-cases, Option-cases, ◌⊎◌, inl, inr, length, if◌then◌else◌, Outcome, ok, panic, ◌>>=◌, subst,
}
use lemo.Protocol.Words.{ℤ}
use lemo.Http.Store.{Store}
use lemo.Http.Store.Entries.{Entry, keys_of, values_of, of_entries, under, aligned-of_entries}
use lemo.Http.Store.Struct.{
  Cell, Field, Input, assign, assign_field, assign_at, find_index, set_field, fill, fill_struct,
}

unfoldable pub is_among : Bytes → List Bytes → Bool
is_among key [] = false
is_among key (k ∷ ks) = let rest = is_among key ks in if str_eq key k then true else rest

module _ {A B C : Type 0} where
  >>=_assoc :
      (r : Outcome A) (k : A → Outcome B) (l : B → Outcome C)
      → (r >>= k >>= l) ≡ (r >>= λ a. k a >>= l)
  >>=_assoc panic k l = refl
  >>=_assoc (ok a) k l = refl

  -- The two panics are the same.
  >>=_comm :
      (r : Outcome A) (q : Outcome B) (k : A → B → Outcome C)
      → (r >>= λ a. q >>= λ b. k a b) ≡ (q >>= λ b. r >>= λ a. k a b)
  >>=_comm panic panic k = refl
  >>=_comm panic (ok b) k = refl
  >>=_comm (ok a) panic k = refl
  >>=_comm (ok a) (ok b) k = refl

>>=-cong :
    {A B : Type 0} (r : Outcome A) (k l : A → Outcome B)
    → ((a : A) → k a ≡ l a)
    → (r >>= k) ≡ (r >>= l)
>>=-cong panic k l h = refl
>>=-cong (ok a) k l h = h a

module _ {F : Type 0} (parse_int : Bytes → ℤ) (parse_uint : Bytes → ℕ) (parse_float : Bytes → F)
    (round32 : F → F) where
  abbrev pub set_one : List Bytes → Field F → Outcome (Field F)
  set_one = assign_field parse_int parse_uint parse_float round32

  abbrev set_key : Bytes → List Bytes → List (Field F) → Outcome (List (Field F))
  set_key = set_field parse_int parse_uint parse_float round32

  abbrev fill_all : List Entry → List (Field F) → Outcome (List (Field F))
  fill_all es = fill parse_int parse_uint parse_float round32 (keys_of es) (values_of es)

  -- The field after all the values under its key, in order.
  unfoldable pub set_each : List (List Bytes) → Field F → Outcome (Field F)
  set_each [] f = ok f
  set_each (v ∷ vs) f = set_one v f >>= set_each vs

  abbrev field_with : List Entry → List Bytes → Field F → Outcome (Field F)
  field_with es seen f = if is_among f.tag seen then ok f else set_each (under f.tag es) f

  -- Each field by itself: one with the tag of an earlier field, of those in `seen` or in front of
  -- it, stays as it is; any other takes the values under its tag.
  unfoldable pub filled : List Entry → List Bytes → List (Field F) → Outcome (List (Field F))
  filled es seen [] = ok []
  filled es seen (f ∷ fs) =
      field_with es seen f >>= λ f'. filled es (f.tag ∷ seen) fs >>= λ fs'. ok (f' ∷ fs')

  set_key_here :
      (key : Bytes) (v : List Bytes) (f : Field F) (fs : List (Field F))
      → str_eq key f.tag ≡ true
      → set_key key v (f ∷ fs) ≡ (set_one v f >>= λ f'. ok (f' ∷ fs))
  unfolding set_field find_index assign_at
  set_key_here key v f fs same = rw (same, set_field) refl

  set_key_later :
      (key : Bytes) (v : List Bytes) (f : Field F) (fs : List (Field F))
      → str_eq key f.tag ≡ false
      → set_key key v (f ∷ fs) ≡ (set_key key v fs >>= λ fs'. ok (f ∷ fs'))
  unfolding set_field find_index assign_at
  set_key_later key v f fs other =
      elim (Option-cases (find_index parse_int parse_uint parse_float round32 key fs)) [
        | inl e ↦ rw (other, set_field) (rw (e, set_field) refl)
        | inr (i, e) ↦ rw (other, set_field) (rw (e, set_field) refl)
      ]

  -- An assignment panics, or changes the value of the field only.
  set_one_cases :
      (v : List Bytes) (f : Field F)
      → (set_one v f ≡ panic) ⊎ ((c : Cell F) × (set_one v f ≡ ok (record f { cell = c })))
  set_one_cases v f = elim (Bool-cases f.exported) [
    | inr hidden ↦ inl (rw hidden refl)
    | inl seen ↦
        elim (assign parse_int parse_uint parse_float round32 v f.cell)
          as (λ r.
            ((if f.exported then (r >>= λ c. ok (record f { cell = c })) else panic) ≡ panic)
            ⊎ ((c : Cell F) × ((if f.exported
                    then (r >>= λ c. ok (record f { cell = c }))
                    else panic)
                  ≡ ok (record f { cell = c })))) [
                    | panic ↦ inl (rw seen refl)
                    | ok c ↦ inr (c, rw seen refl)
                  ]
  ]

  module _ (es : List Entry) (seen : List Bytes) (f : Field F) (fs : List (Field F)) where
    abbrev then_rest : Field F → Outcome (List (Field F))
    then_rest f' = filled es (f.tag ∷ seen) fs >>= λ fs'. ok (f' ∷ fs')

    filled_seen : is_among f.tag seen ≡ true → filled es seen (f ∷ fs) ≡ then_rest f
    unfolding filled
    filled_seen old = rw old refl

    filled_new :
        is_among f.tag seen ≡ false
        → filled es seen (f ∷ fs) ≡ (set_each (under f.tag es) f >>= then_rest)
    unfolding filled
    filled_new new = rw new refl

  module _ (es : List Entry) (key : Bytes) (v : List Bytes) (seen : List Bytes) (f : Field F)
      (fs : List (Field F)) where
    abbrev longer : List Entry
    longer = (key, v) ∷ es

    keep_seen :
        is_among f.tag seen ≡ true
        → filled es (f.tag ∷ seen) fs ≡ filled longer (f.tag ∷ seen) fs
        → filled es seen (f ∷ fs) ≡ filled longer seen (f ∷ fs)
    keep_seen old ih =
        filled_seen es seen f fs old
        ∙ ap (λ r. r >>= λ fs'. ok (f ∷ fs')) ih
        ∙ sym (filled_seen longer seen f fs old)

    under_here : str_eq key f.tag ≡ true → under f.tag longer ≡ v ∷ under f.tag es
    unfolding under
    under_here same = rw same refl

    under_later : str_eq key f.tag ≡ false → under f.tag longer ≡ under f.tag es
    unfolding under
    under_later other = rw other refl

    -- The first field with the tag.
    set_here :
        str_eq key f.tag ≡ true
        → is_among f.tag seen ≡ false
        → filled es (f.tag ∷ seen) fs ≡ filled longer (f.tag ∷ seen) fs
        → (set_key key v (f ∷ fs) >>= filled es seen) ≡ filled longer seen (f ∷ fs)
    unfolding set_each
    set_here same new ih =
        let whole : filled longer seen (f ∷ fs)
            ≡ (set_one v f >>= set_each (under f.tag es) >>= then_rest longer seen f fs) =
          filled_new longer seen f fs new
          ∙ ap (λ vs. set_each vs f >>= then_rest longer seen f fs) (under_here same) in
        ap (λ r. r >>= filled es seen) (set_key_here key v f fs same) ∙ elim (set_one_cases v f) [
          | inl e ↦ rw e (
              sym (
                whole ∙ ap (λ r. r >>= set_each (under f.tag es) >>= then_rest longer seen f fs) e))
          | inr (c, e) ↦
              let f' : Field F = record f { cell = c } in
              rw e (
                filled_new es seen f' fs new
                ∙ ap (λ r. set_each (under f.tag es) f' >>= λ x. r >>= λ fs'. ok (x ∷ fs')) ih
                ∙ sym (
                    whole
                    ∙ ap (λ r. r >>= set_each (under f.tag es) >>= then_rest longer seen f fs) e))
        ]

    same_field : str_eq key f.tag ≡ false → field_with es seen f ≡ field_with longer seen f
    same_field other =
        ap (λ vs. if is_among f.tag seen then ok f else set_each vs f) (sym (under_later other))

    -- A field with another tag, when an earlier field has taken the values.
    keep_other :
        str_eq key f.tag ≡ false
        → filled es (f.tag ∷ seen) fs ≡ filled longer (f.tag ∷ seen) fs
        → filled es seen (f ∷ fs) ≡ filled longer seen (f ∷ fs)
    unfolding filled
    keep_other other ih =
        ap (λ r. r >>= then_rest es seen f fs) (same_field other)
        ∙ ap (λ r. field_with longer seen f >>= λ x. r >>= λ fs'. ok (x ∷ fs')) ih

    -- A field with another tag, when one behind it takes the values.
    set_later :
        str_eq key f.tag ≡ false
        → (set_key key v fs >>= filled es (f.tag ∷ seen)) ≡ filled longer (f.tag ∷ seen) fs
        → (set_key key v (f ∷ fs) >>= filled es seen) ≡ filled longer seen (f ∷ fs)
    unfolding filled
    set_later other ih =
        let with_field : List (Field F) → Field F → Outcome (List (Field F)) =
          λ gs x. filled es (f.tag ∷ seen) gs >>= λ fs'. ok (x ∷ fs') in
        ap (λ r. r >>= filled es seen) (set_key_later key v f fs other)
        ∙ >>=_assoc (set_key key v fs) _ (filled es seen)
        ∙ >>=_comm (set_key key v fs) (field_with es seen f) with_field
        ∙ >>=-cong (field_with es seen f) _ _ (λ x.
          sym (>>=_assoc (set_key key v fs) (filled es (f.tag ∷ seen)) (λ fs'. ok (x ∷ fs')))
          ∙ ap (λ r. r >>= λ fs'. ok (x ∷ fs')) ih)
        ∙ ap (λ r. r >>= then_rest longer seen f fs) (same_field other)

  -- One more entry in front.
  filled-set_key :
      (es : List Entry) (key : Bytes) (v : List Bytes) (seen : List Bytes) (fields : List (Field F))
      → (if is_among key seen
          then filled es seen fields
          else (set_key key v fields >>= filled es seen))
        ≡ filled ((key, v) ∷ es) seen fields
  unfolding filled set_field find_index
  filled-set_key es key v seen [] = elim (Bool-cases (is_among key seen)) [
    | inl e ↦ rw e refl
    | inr e ↦ rw e refl
  ]
  filled-set_key es key v seen (f ∷ fs) =
      let behind : List Bytes = f.tag ∷ seen in
      let ih : (b : Bool)
          → is_among key behind ≡ b
          → (if b then filled es behind fs else (set_key key v fs >>= filled es behind))
            ≡ filled ((key, v) ∷ es) behind fs =
        λ b e.
          ap (λ b. if b then filled es behind fs else (set_key key v fs >>= filled es behind))
            (sym e)
          ∙ filled-set_key es key v behind fs in
      elim (Bool-cases (str_eq key f.tag)) [
        | inl same ↦
            let tag : is_among f.tag seen ≡ is_among key seen =
              ap (λ k. is_among k seen) (sym (eq_of_str_eq key f.tag same)) in
            let found : is_among key behind ≡ true = unfold is_among in rw same refl in
            elim (Bool-cases (is_among key seen)) [
              | inl old ↦ rw old (keep_seen es key v seen f fs (tag ∙ old) (ih true found))
              | inr new ↦ rw new (set_here es key v seen f fs same (tag ∙ new) (ih true found))
            ]
        | inr other ↦ elim (Bool-cases (is_among key seen)) [
          | inl old ↦
              let found : is_among key behind ≡ true = unfold is_among in rw other old in
              rw old (keep_other es key v seen f fs other (ih true found))
          | inr new ↦
              let missing : is_among key behind ≡ false = unfold is_among in rw other new in
              rw new (set_later es key v seen f fs other (ih false missing))
        ]
      ]

  filled-no_entries :
      (seen : List Bytes) (fields : List (Field F)) → filled [] seen fields ≡ ok fields
  unfolding filled set_each under
  filled-no_entries seen [] = refl
  filled-no_entries seen (f ∷ fs) = elim (Bool-cases (is_among f.tag seen)) [
    | inl e ↦ rw (e, filled-no_entries (f.tag ∷ seen) fs) refl
    | inr e ↦ rw (e, filled-no_entries (f.tag ∷ seen) fs) refl
  ]

  fill-filled :
      (es : List Entry) (fields : List (Field F)) → fill_all es fields ≡ filled es [] fields
  unfolding fill is_among
  fill-filled [] fields = sym (filled-no_entries [] fields)
  fill-filled ((k, v) ∷ es) fields =
      >>=-cong (set_key k v fields) _ _ (λ gs. fill-filled es gs) ∙ filled-set_key es k v [] fields

  -- For a store with as many values as keys, `es` being its entries: the loop of `Struct` over the
  -- keys does to a struct what a loop over its fields does. A field with the `json` tag of an earlier
  -- field stays as it is; any other takes the values of the entries under its tag, in order, so the
  -- last one stands; and the whole panics when one of these assignments does.
  pub fill_struct-filled :
      (s : Store) (fields : List (Field F))
      → length s.keys ≡ length s.values
      → (es : List Entry) × (s ≡ of_entries es)
        × (fill_struct parse_int parse_uint parse_float round32 s (Input.struct fields)
            ≡ filled es [] fields)
  unfolding fill_struct
  fill_struct-filled s fields h =
      let (es, e) = aligned-of_entries s.keys s.values h in
      (
        es,
        sym e,
        subst
            (λ (t : Store).
              fill_struct parse_int parse_uint parse_float round32 t (Input.struct fields)
              ≡ filled es [] fields)
            e (fill-filled es fields),
      )
