-- ===== src/Http/Store/Struct/Misfits.antt =====
-- The types of fields that `Struct` of http/store.go cannot fill.
use lemo.Base.{
  Bytes, ℕ, ◌≡◌, ◌≢◌, refl, sym, ap, ◌∙◌, true, false, List, [], ◌∷◌, ◌++◌, str_eq, eq_of_str_eq,
  Bool-cases, inl, inr, length, Outcome, ok, panic, ◌>>=◌, All, subst,
}
use lemo.Protocol.Words.{ℤ}
use lemo.Http.Store.{Store, has}
use lemo.Http.Store.Entries.{Entry, under, is_some_list, has-under}
use lemo.Http.Store.Struct.{
  Size, word, bits8, bits16, bits32, bits64, Cell, ints, uints, floats32, Field, Input, assign,
  set_ints, set_uints, fill_struct,
}
use lemo.Http.Store.Struct.Filled.{set_one, set_each, is_among, filled, fill_struct-filled}

-- A slice of integers that is no `[]int64`, one of unsigned integers that is no `[]uint64`, or a
-- `[]float32`.
pub data Misfits {F : Type 0} : Cell F → Type 0 where
  no_int64 : (size : Size) (ns : List ℤ) → size ≢ bits64 → Misfits (ints size ns)
  no_uint64 : (size : Size) (ns : List ℕ) → size ≢ bits64 → Misfits (uints size ns)
  no_float64 : (fs : List F) → Misfits (floats32 fs)

>>=_panic :
    {A B : Type 0} (r : Outcome A) (k : A → Outcome B) → ((a : A) → k a ≡ panic) → (r >>= k) ≡ panic
>>=_panic panic k h = refl
>>=_panic (ok a) k h = h a

module _ {F : Type 0} (parse_int : Bytes → ℤ) (parse_uint : Bytes → ℕ) (parse_float : Bytes → F)
    (round32 : F → F) where
  assign-panics :
      (v : List Bytes) {c : Cell F}
      → Misfits c
      → assign parse_int parse_uint parse_float round32 v c ≡ panic
  unfolding assign set_ints set_uints
  assign-panics v (no_int64 word ns h) = refl
  assign-panics v (no_int64 bits8 ns h) = refl
  assign-panics v (no_int64 bits16 ns h) = refl
  assign-panics v (no_int64 bits32 ns h) = refl
  assign-panics v (no_int64 bits64 ns h) = absurd (h refl)
  assign-panics v (no_uint64 word ns h) = refl
  assign-panics v (no_uint64 bits8 ns h) = refl
  assign-panics v (no_uint64 bits16 ns h) = refl
  assign-panics v (no_uint64 bits32 ns h) = refl
  assign-panics v (no_uint64 bits64 ns h) = absurd (h refl)
  assign-panics v (no_float64 fs) = refl

  set_one-panics :
      (v : List Bytes) (f : Field F)
      → Misfits f.cell
      → set_one parse_int parse_uint parse_float round32 v f ≡ panic
  set_one-panics v f m = elim (Bool-cases f.exported) [
    | inl seen ↦ rw seen (rw (assign-panics v m) refl)
    | inr hidden ↦ rw hidden refl
  ]

  set_each-panics :
      (vs : List (List Bytes)) (f : Field F)
      → Misfits f.cell
      → is_some_list vs ≡ true
      → set_each parse_int parse_uint parse_float round32 vs f ≡ panic
  unfolding set_each
  set_each-panics [] f m h = cc
  set_each-panics (v ∷ vs) f m h = rw (set_one-panics v f m) refl

  filled-panics :
      (es : List Entry) (before after : List (Field F)) (f : Field F) (seen : List Bytes)
      → Misfits f.cell
      → is_some_list (under f.tag es) ≡ true
      → is_among f.tag seen ≡ false
      → All (λ (g : Field F). g.tag ≢ f.tag) before
      → filled parse_int parse_uint parse_float round32 es seen (before ++ (f ∷ after)) ≡ panic
  unfolding filled is_among
  filled-panics es [] after f seen m given new others =
      rw new (rw (set_each-panics (under f.tag es) f m given) refl)
  filled-panics es (g ∷ before) after f seen m given new (other, others) =
      let differs : str_eq f.tag g.tag ≡ false = elim (Bool-cases (str_eq f.tag g.tag)) [
        | inl same ↦ absurd (other (sym (eq_of_str_eq f.tag g.tag same)))
        | inr e ↦ e
      ] in
      >>=_panic _ _ (λ g'.
        ap (λ r. r >>= λ fs'. ok (g' ∷ fs'))
          (filled-panics es before after f (g.tag ∷ seen) m given (rw differs new) others))

  -- For a store with as many values as keys: `Struct` panics on every struct whose first field with
  -- some `json` tag is a slice of integers that is no `[]int64`, one of unsigned integers, not
  -- bytes, that is no `[]uint64`, or a `[]float32`, as soon as the store has that tag as a key.
  pub fill_struct-panics :
      (s : Store) (before after : List (Field F)) (f : Field F)
      → length s.keys ≡ length s.values
      → Misfits f.cell
      → has s f.tag ≡ true
      → All (λ (g : Field F). g.tag ≢ f.tag) before
      → fill_struct parse_int parse_uint parse_float round32 s
          (Input.struct (before ++ (f ∷ after)))
        ≡ panic
  unfolding is_among has
  fill_struct-panics s before after f h m given others =
      let (es, e, same) =
        fill_struct-filled parse_int parse_uint parse_float round32 s (before ++ (f ∷ after)) h in
      let under_tag : is_some_list (under f.tag es) ≡ true =
        sym (has-under es f.tag) ∙ subst (λ (t : Store). has t f.tag ≡ true) e given in
      same ∙ filled-panics es before after f [] m under_tag refl others
