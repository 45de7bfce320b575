-- ===== src/Protocol/Words.antt =====
-- The integers of a header: `binary.BigEndian` at 32 and 64 bits, and Go's conversions between
-- `int64` and `uint64`, which keep the bit pattern.
use lemo.Base.{
  ℕ, ◌+◌, ◌-◌, ◌*◌, ◌/◌, ◌%◌, ◌^◌, ◌<◌, ◌≡◌, refl, All, List, [], ◌∷◌, ◌++◌, arith, ltb,
  if◌then◌else◌, get_or, length, take, drop,
}

-- `negsuc n` is -(n + 1).
pub data ℤ : Type 0 where
  pos : ℕ → ℤ
  negsuc : ℕ → ℤ

abbrev pub IsInt64 : ℤ → Type 0
IsInt64 (pos n) = n < 2 ^ 63
IsInt64 (negsuc n) = n < 2 ^ 63

-- `uint64(id)`
unfoldable pub to_uint64 : ℤ → ℕ
to_uint64 (pos n) = n % 2 ^ 64
to_uint64 (negsuc n) = 2 ^ 64 - 1 - n % 2 ^ 64

-- `int64(x)`
unfoldable pub to_int64 : ℕ → ℤ
to_int64 x = if ltb x (2 ^ 63) then pos x else negsuc (2 ^ 64 - 1 - x)

pub to_int64-to_uint64 : (id : ℤ) → IsInt64 id → to_int64 (to_uint64 id) ≡ id
unfolding to_int64 to_uint64
to_int64-to_uint64 (pos n) h = ground arith
to_int64-to_uint64 (negsuc n) h = ground arith

pub to_uint64-to_int64 : (x : ℕ) → x < 2 ^ 64 → to_uint64 (to_int64 x) ≡ x
unfolding to_int64 to_uint64
to_uint64-to_int64 x h = ground arith

pub to_uint64-lt : (id : ℤ) → to_uint64 id < 2 ^ 64
unfolding to_uint64
to_uint64-lt (pos n) = omega arith
to_uint64-lt (negsuc n) = omega arith

-- `binary.BigEndian.PutUint32`
unfoldable pub put_uint32 : ℕ → List ℕ
put_uint32 v = (v / 2 ^ 24 % 256) ∷ (v / 2 ^ 16 % 256) ∷ (v / 2 ^ 8 % 256) ∷ (v % 256) ∷ []

-- `binary.BigEndian.Uint32`
unfoldable pub uint32 : List ℕ → ℕ
uint32 b = get_or b 3 0 + get_or b 2 0 * 2 ^ 8 + get_or b 1 0 * 2 ^ 16 + get_or b 0 0 * 2 ^ 24

-- `binary.BigEndian.PutUint64` and `Uint64`, by halves.
unfoldable pub put_uint64 : ℕ → List ℕ
put_uint64 v = put_uint32 (v / 2 ^ 32) ++ put_uint32 (v % 2 ^ 32)

unfoldable pub uint64 : List ℕ → ℕ
uint64 b = uint32 (take 4 b) * 2 ^ 32 + uint32 (drop 4 b)

pub uint32-put_uint32 : (v : ℕ) → v < 2 ^ 32 → uint32 (put_uint32 v) ≡ v
unfolding uint32 put_uint32
uint32-put_uint32 v h = omega arith

put_uint32_halves :
    (a b : ℕ)
    → (take 4 (put_uint32 a ++ put_uint32 b) ≡ put_uint32 a)
      × (drop 4 (put_uint32 a ++ put_uint32 b) ≡ put_uint32 b)
unfolding put_uint32
put_uint32_halves a b = (refl, refl)

pub uint64-put_uint64 : (v : ℕ) → v < 2 ^ 64 → uint64 (put_uint64 v) ≡ v
unfolding uint64 put_uint64
uint64-put_uint64 v h =
    let (high, low) = put_uint32_halves (v / 2 ^ 32) (v % 2 ^ 32) in
    rw (high, low)
      (omega (
        arith,
        uint32-put_uint32 (v / 2 ^ 32) (omega arith),
        uint32-put_uint32 (v % 2 ^ 32) (omega arith),
      ))

-- Four bytes are the encoding of the word that they hold.
pub put_uint32-uint32 :
    (a b c d : ℕ)
    → a < 256
    → b < 256
    → c < 256
    → d < 256
    → put_uint32 (uint32 (a ∷ b ∷ c ∷ d ∷ [])) ≡ a ∷ b ∷ c ∷ d ∷ []
unfolding uint32 put_uint32
put_uint32-uint32 a b c d ha hb hc hd = ground arith

pub length-put_uint64 : (v : ℕ) → length (put_uint64 v) ≡ 8
unfolding put_uint64 put_uint32
length-put_uint64 v = refl

pub uint32-lt : (b : List ℕ) → All (λ x. x < 256) b → uint32 b < 2 ^ 32
unfolding uint32
uint32-lt [] h = omega arith
uint32-lt (x ∷ []) h = omega arith
uint32-lt (x ∷ y ∷ []) h = omega arith
uint32-lt (x ∷ y ∷ z ∷ []) h = omega arith
uint32-lt (x ∷ y ∷ z ∷ w ∷ r) h = omega arith
