-- ===== src/Tests/Structs.antt =====
-- `Struct` of http/store.go at concrete structs; a float is a number, and a number is read as the
-- length of its text, in one digit.
use lemo.Base.{
  Bytes, codes, ℕ, ◌≡◌, ◌≢◌, refl, true, [], ◌∷◌, ◌++◌, List, length, ok, panic, str_eq, ◌%◌,
}
use lemo.Protocol.Words.{ℤ, pos}
use lemo.Http.Store.{Store, has}
use lemo.Http.Store.Entries.{Entry, of_entries}
use lemo.Http.Store.Struct.{word, bits8, bits64, text, int, ints, Field, Input, fill_struct}
use lemo.Http.Store.Struct.Filled.{filled, fill_struct-filled}
use lemo.Http.Store.Struct.Misfits.{no_int64, fill_struct-panics}

abbrev read_int : Bytes → ℤ
read_int v = pos (length v % 10)

abbrev read_uint : Bytes → ℕ
read_uint v = length v % 10

abbrev read_float : Bytes → ℕ
read_float v = length v

abbrev store : Store
store = record {
  keys = codes "name" ∷ codes "age" ∷ codes "name" ∷ [];
  values = (codes "ann" ∷ []) ∷ (codes "forty" ∷ []) ∷ (codes "bob" ∷ []) ∷ [];
}

abbrev name_field : Field ℕ
name_field = record { tag = codes "name"; exported = true; cell = text [] }

abbrev age_field : Field ℕ
age_field = record { tag = codes "age"; exported = true; cell = int bits8 (pos 0) }

abbrev ages_field : Field ℕ
ages_field = record { tag = codes "age"; exported = true; cell = ints word [] }

-- The last value under a tag stands.
filled_person :
    fill_struct read_int read_uint read_float
      (λ f. f)
      store
      (Input.struct (name_field ∷ age_field ∷ []))
    ≡ ok (
        record name_field { cell = text (codes "bob") }
        ∷ record age_field { cell = int bits8 (pos 5) }
        ∷ [])
unfolding fill_struct str_eq
filled_person = refl

fill_struct-filled_example :
    (es : List Entry) × (store ≡ of_entries es)
    × (fill_struct read_int read_uint read_float
          (λ f. f)
          store
          (Input.struct (name_field ∷ age_field ∷ []))
        ≡ filled read_int read_uint read_float (λ f. f) es [] (name_field ∷ age_field ∷ []))
fill_struct-filled_example =
    fill_struct-filled read_int read_uint read_float (λ f. f) store (name_field ∷ age_field ∷ [])
      refl

other_type : word ≢ bits64
other_type e = cc

has_age : has store (codes "age") ≡ true
unfolding has str_eq
has_age = refl

other_tag : codes "name" ≢ codes "age"
other_tag e = cc

fill_struct-panics_example :
    fill_struct read_int read_uint read_float
      (λ f. f)
      store
      (Input.struct ((name_field ∷ []) ++ (ages_field ∷ [])))
    ≡ panic
fill_struct-panics_example =
    fill_struct-panics read_int read_uint read_float (λ f. f) store (name_field ∷ []) [] ages_field
      refl (no_int64 word [] other_type) has_age (other_tag, tt)
