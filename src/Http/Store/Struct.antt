-- ===== src/Http/Store/Struct.antt =====
-- `Struct` of http/store.go, which fills the fields of a struct from the store by reflection. The
-- struct is the list of its fields, each with its `json` tag, its type and its value in a cell. The
-- readings of `strconv`, whose errors are dropped, and the rounding to a float32 are parameters.
-- Fields of an interface type, whose type is that of the value inside, are not in the model.
pub mod Filled
pub mod Misfits
use lemo.Base.{
  Bytes, codes, ℕ, zero, suc, ◌-◌, ◌%◌, ◌^◌, Bool, true, false, not, ◌&&◌, List, [], ◌∷◌, map,
  Option, none, some, str_eq, ltb, drop, if◌then◌else◌, Outcome, ok, panic, ◌>>=◌,
}
use lemo.Params.{index}
use lemo.Protocol.Words.{ℤ, pos, negsuc}
use lemo.Http.Store.{Store, head_of}

-- The sizes of `int` and `uint` types: `int` and `uint` have 64 bits and are types of their own.
pub data Size : Type 0 where
  word : Size
  bits8 : Size
  bits16 : Size
  bits32 : Size
  bits64 : Size

abbrev pub width : Size → ℕ
width word = 64
width bits8 = 8
width bits16 = 16
width bits32 = 32
width bits64 = 64

-- `uint(i)` and `int(u)` at a width.
abbrev pub to_unsigned : ℕ → ℤ → ℕ
to_unsigned w (pos n) = n % 2 ^ w
to_unsigned w (negsuc n) = 2 ^ w - 1 - n % 2 ^ w

abbrev pub to_signed : ℕ → ℕ → ℤ
to_signed w u = if ltb u (2 ^ (w - 1)) then pos u else negsuc (2 ^ w - 1 - u)

-- `F` holds the floats. A `[]uint8` is a `[]byte`.
pub data Cell (F : Type 0) : Type 0 where
  flag : Bool → Cell F
  int : Size → ℤ → Cell F
  uint : Size → ℕ → Cell F
  float32 : F → Cell F
  float64 : F → Cell F
  text : Bytes → Cell F
  flags : List Bool → Cell F
  ints : Size → List ℤ → Cell F
  uints : Size → List ℕ → Cell F
  floats32 : List F → Cell F
  floats64 : List F → Cell F
  texts : List Bytes → Cell F
  byte_slice : Bytes → Cell F
  byte_slices : List Bytes → Cell F
  other : Cell F

pub record Field (F : Type 0) : Type 0 where
  pub tag : Bytes
  pub exported : Bool
  pub cell : Cell F

-- `input`: nil, a value that is no pointer, a pointer to something else, a nil pointer, or a pointer
-- to a struct.
pub data Input (F : Type 0) : Type 0 where
  nothing : Input F
  value : Input F
  pointer : Input F
  nil_pointer : Input F
  struct : List (Field F) → Input F

module _ {F : Type 0} (parse_int : Bytes → ℤ) (parse_uint : Bytes → ℕ) (parse_float : Bytes → F)
    (round32 : F → F) where
  abbrev pub is_true : Bytes → Bool
  is_true v = str_eq v (codes "TRUE")

  -- `vv.SetInt(r)` and `vv.SetUint(r)` keep the low bits.
  abbrev pub set_int : Size → ℤ → Cell F
  set_int size r = int size (to_signed (width size) (to_unsigned (width size) r))

  -- `vv.Set(reflect.ValueOf(res))`, which panics unless the types are the same.
  unfoldable pub set_ints : Size → List ℤ → Outcome (Cell F)
  set_ints bits64 res = ok (ints bits64 res)
  set_ints size res = panic

  unfoldable pub set_uints : Size → List ℕ → Outcome (Cell F)
  set_uints bits64 res = ok (uints bits64 res)
  set_uints size res = panic

  -- The `switch` of the loop, at the values of a key.
  unfoldable pub assign : List Bytes → Cell F → Outcome (Cell F)
  unfolding set_ints set_uints
  assign v (flag b) = index v 0 >>= λ x. ok (flag (is_true x))
  assign v (int size n) = index v 0 >>= λ x. ok (set_int size (parse_int x))
  assign v (uint size n) = index v 0 >>= λ x. ok (uint size (parse_uint x % 2 ^ width size))
  assign v (float32 f) = index v 0 >>= λ x. ok (float32 (round32 (parse_float x)))
  assign v (float64 f) = index v 0 >>= λ x. ok (float64 (parse_float x))
  assign v (text t) = index v 0 >>= λ x. ok (text x)
  assign v (flags bs) = ok (flags (map is_true v))
  assign v (ints size ns) = set_ints size (map parse_int v)
  assign v (uints size ns) = set_uints size (map parse_uint v)
  assign v (floats32 fs) = panic
  assign v (floats64 fs) = ok (floats64 (map parse_float v))
  assign v (texts ts) = ok (texts v)
  assign v (byte_slice b) = index v 0 >>= λ x. ok (byte_slice x)
  assign v (byte_slices bs) = ok (byte_slices v)
  assign v other = ok other

  -- `findIndex`
  unfoldable pub find_index : Bytes → List (Field F) → Option ℕ
  find_index key [] = none
  find_index key (f ∷ fs) =
      let rest = find_index key fs in
      if str_eq key f.tag then some 0 else elim rest [ none ↦ none | some i ↦ some (suc i) ]

  -- `vv.Interface()` panics at a field that is not exported.
  abbrev pub assign_field : List Bytes → Field F → Outcome (Field F)
  assign_field v f =
      if f.exported then (assign v f.cell >>= λ c. ok (record f { cell = c })) else panic

  unfoldable pub assign_at : ℕ → List Bytes → List (Field F) → Outcome (List (Field F))
  unfolding assign
  assign_at i v [] = panic
  assign_at zero v (f ∷ fs) = assign_field v f >>= λ f'. ok (f' ∷ fs)
  assign_at (suc i) v (f ∷ fs) = assign_at i v fs >>= λ fs'. ok (f ∷ fs')

  -- The body of the loop.
  unfoldable pub set_field : Bytes → List Bytes → List (Field F) → Outcome (List (Field F))
  unfolding find_index assign_at
  set_field key v fields = elim (find_index key fields) [
    | none ↦ ok fields
    | some i ↦ assign_at i v fields
  ]

  unfoldable pub fill : List Bytes → List (List Bytes) → List (Field F) → Outcome (List (Field F))
  unfolding set_field
  fill [] vs fields = ok fields
  fill (k ∷ ks) vs fields = head_of vs >>= λ v. set_field k v fields >>= fill ks (drop 1 vs)

  -- `Struct`, with the fields as it leaves them.
  unfoldable pub fill_struct : Store → Input F → Outcome (List (Field F))
  unfolding fill
  fill_struct s nothing = panic
  fill_struct s value = panic
  fill_struct s pointer = panic
  fill_struct s nil_pointer = panic
  fill_struct s (struct fields) = fill s.keys s.values fields
