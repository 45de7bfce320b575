-- ===== src/Slices.antt =====
-- Go slices over a store of arrays, as the built-in `append` of the router files uses them: an
-- append in place writes into the array that other slices may share. The size of a new array is
-- the Go runtime's choice, `grow`, which takes the old capacity and the length that is needed.
pub mod Laws
use lemo.Base.{ℕ, zero, suc, ◌+◌, ◌&&◌, List, [], ◌∷◌, ◌++◌, leb, ◌==◌, if◌then◌else◌, length}

pub record Slice : Type 0 where
  pub array : ℕ
  pub len : ℕ
  pub capacity : ℕ

abbrev pub nil : Slice
nil = record { array = 0; len = 0; capacity = 0 }

-- The arrays below `next` are in use; `cell a i` is the value at index `i` of the array `a`.
pub record Memory (A : Type 0) : Type 0 where
  pub next : ℕ
  pub cell : ℕ → ℕ → A

module _ {A : Type 0} where
  unfoldable pub read_from : (ℕ → ℕ → A) → ℕ → ℕ → ℕ → List A
  read_from cell a i zero = []
  read_from cell a i (suc n) = cell a i ∷ read_from cell a (suc i) n

  abbrev pub update : (ℕ → ℕ → A) → ℕ → ℕ → A → ℕ → ℕ → A
  update cell a i x b j = if a == b && i == j then x else cell b j

  unfoldable pub write_from : (ℕ → ℕ → A) → ℕ → ℕ → List A → ℕ → ℕ → A
  write_from cell a i [] = cell
  write_from cell a i (x ∷ xs) = write_from (update cell a i x) a (suc i) xs

  -- What a loop over the slice sees.
  unfoldable pub contents : Memory A → Slice → List A
  unfolding read_from
  contents mem s = read_from mem.cell s.array 0 s.len

module _ (grow : ℕ → ℕ → ℕ) {A : Type 0} where
  -- `append(s, xs...)`
  unfoldable pub append : Memory A → Slice → List A → Memory A × Slice
  append mem s [] = (mem, s)
  append mem s (x ∷ xs) =
      let n = s.len + length (x ∷ xs) in
      if leb n s.capacity
      then (record mem { cell = write_from mem.cell s.array s.len (x ∷ xs) }, record s { len = n })
      else (
        record mem {
          next = suc mem.next;
          cell = write_from mem.cell mem.next 0 (contents mem s ++ (x ∷ xs));
        },
        record { array = mem.next; len = n; capacity = grow s.capacity n },
      )
