-- ===== src/Slices/Laws.antt =====
-- What an append does to the slice, and to the other slices of the store.
use lemo.Base.{
  ℕ, zero, suc, ◌+◌, ◌≤◌, ◌<◌, ◌≡◌, ◌≢◌, ◌⊎◌, inl, inr, refl, sym, ap, ◌∙◌, true, false, List, [],
  ◌∷◌, ◌++◌, arith, leb, le→leb, length, length-append, Bool-cases,
}
use native.Mathlib.Nat.{add-zero, zero-add, suc-add, add-suc}
use mathlib.Core.List.{append-nil}
use lemo.Slices.{Slice, Memory, read_from, write_from, update, contents, append}

module _ {A : Type 0} where
  pub write_from-other :
      (cell : ℕ → ℕ → A) (a i : ℕ) (xs : List A) (b j : ℕ)
      → (a ≢ b) ⊎ (j < i)
      → write_from cell a i xs b j ≡ cell b j
  unfolding write_from
  write_from-other cell a i [] b j h = refl
  write_from-other cell a i (x ∷ xs) b j h =
      write_from-other (update cell a i x) a (suc i) xs b j (ground arith) ∙ ground arith

  -- A range that no write touches reads the same.
  pub read_from-write_from_other :
      (cell : ℕ → ℕ → A) (a i : ℕ) (xs : List A) (b j n : ℕ)
      → (a ≢ b) ⊎ (j + n ≤ i)
      → read_from (write_from cell a i xs) b j n ≡ read_from cell b j n
  unfolding read_from
  read_from-write_from_other cell a i xs b j zero h = refl
  read_from-write_from_other cell a i xs b j (suc n) h =
      rw (write_from-other cell a i xs b j (ground arith))
        (rw (read_from-write_from_other cell a i xs b (suc j) n (ground arith)))

  pub length-read_from : (cell : ℕ → ℕ → A) (a i n : ℕ) → length (read_from cell a i n) ≡ n
  unfolding read_from
  length-read_from cell a i zero = refl
  length-read_from cell a i (suc n) = ap suc (length-read_from cell a (suc i) n)

  read_from-write_from :
      (cell : ℕ → ℕ → A) (a i : ℕ) (xs : List A)
      → read_from (write_from cell a i xs) a i (length xs) ≡ xs
  unfolding read_from write_from
  read_from-write_from cell a i [] = refl
  read_from-write_from cell a i (x ∷ xs) =
      rw (write_from-other (update cell a i x) a (suc i) xs a i (inr (omega arith)))
        (rw (read_from-write_from (update cell a i x) a (suc i) xs) (ground arith))

  read_from-add :
      (cell : ℕ → ℕ → A) (a i m n : ℕ)
      → read_from cell a i (m + n) ≡ read_from cell a i m ++ read_from cell a (i + m) n
  unfolding read_from
  read_from-add cell a i zero n = rw (zero-add n, add-zero i)
  read_from-add cell a i (suc m) n =
      rw (suc-add m n)
        (ap (◌∷◌ (cell a i)) (read_from-add cell a (suc i) m n ∙ rw (suc-add i m, ← add-suc i m)))

module _ (grow : ℕ → ℕ → ℕ) {A : Type 0} where
  in_place :
      (mem : Memory A) (s : Slice) (x : A) (xs : List A)
      → leb (s.len + length (x ∷ xs)) s.capacity ≡ true
      → append grow mem s (x ∷ xs) ≡ (
        record mem { cell = write_from mem.cell s.array s.len (x ∷ xs) },
        record s { len = s.len + length (x ∷ xs) },
      )
  unfolding append
  in_place mem s x xs h = rw h

  abbrev moved : Memory A → Slice → List A → Memory A
  moved mem s ys = record mem {
    next = suc mem.next;
    cell = write_from mem.cell mem.next 0 (contents mem s ++ ys);
  }

  in_new_array :
      (mem : Memory A) (s : Slice) (x : A) (xs : List A)
      → leb (s.len + length (x ∷ xs)) s.capacity ≡ false
      → append grow mem s (x ∷ xs) ≡ (
        moved mem s (x ∷ xs),
        record {
          array = mem.next;
          len = s.len + length (x ∷ xs);
          capacity = grow s.capacity (s.len + length (x ∷ xs));
        },
      )
  unfolding append
  in_new_array mem s x xs h = rw h

  contents-in_place :
      (mem : Memory A) (s : Slice) (ys : List A)
      → contents
          (record mem { cell = write_from mem.cell s.array s.len ys })
          (record s { len = s.len + length ys })
        ≡ contents mem s ++ ys
  unfolding contents
  contents-in_place mem s ys =
      let cell = write_from mem.cell s.array s.len ys in
      read_from-add cell s.array 0 s.len (length ys)
      ∙ rw
          (
            read_from-write_from_other mem.cell s.array s.len ys s.array 0 s.len
                (inr (omega arith)),
            zero-add s.len,
          )
          (rw (read_from-write_from mem.cell s.array s.len ys))

  contents-moved :
      (mem : Memory A) (s : Slice) (ys : List A) (n : ℕ)
      → contents
          (moved mem s ys)
          (record { array = mem.next; len = s.len + length ys; capacity = n })
        ≡ contents mem s ++ ys
  unfolding contents
  contents-moved mem s ys n =
      let whole = contents mem s ++ ys in
      let size : length whole ≡ s.len + length ys =
        omega
          (arith, length-append (contents mem s) ys, length-read_from mem.cell s.array 0 s.len) in
      rw (← size) (read_from-write_from mem.cell mem.next 0 whole)

  -- The slice that `append` returns holds the old contents and the new values, in either case.
  pub contents-append :
      (mem : Memory A) (s : Slice) (xs : List A)
      → let (mem', s') = append grow mem s xs in contents mem' s' ≡ contents mem s ++ xs
  contents-append mem s [] = unfold append in sym (append-nil (contents mem s))
  contents-append mem s (x ∷ xs) = elim (Bool-cases (leb (s.len + length (x ∷ xs)) s.capacity)) [
    | inl h ↦ rw (in_place mem s x xs h) (contents-in_place mem s (x ∷ xs))
    | inr h ↦
        rw (in_new_array mem s x xs h)
          (contents-moved mem s (x ∷ xs) (grow s.capacity (s.len + length (x ∷ xs))))
  ]

  -- Another slice of the store keeps its contents if it lies in another array, or ends before the
  -- first free place of `s`, or if `s` has too few free places.
  pub contents-append_other :
      (mem : Memory A) (s : Slice) (xs : List A) (t : Slice)
      → t.array < mem.next
      → (s.array ≢ t.array) ⊎ (t.len ≤ s.len) ⊎ (s.capacity < s.len + length xs)
      → contents (append grow mem s xs).0 t ≡ contents mem t
  contents-append_other mem s [] t h k = unfold append in refl
  contents-append_other mem s (x ∷ xs) t h k =
      elim (Bool-cases (leb (s.len + length (x ∷ xs)) s.capacity)) [
        | inl e ↦ rw (in_place mem s x xs e) (
            unfold contents in
            read_from-write_from_other mem.cell s.array s.len (x ∷ xs) t.array 0 t.len
              (ground arith))
        | inr e ↦ rw (in_new_array mem s x xs e) (
            unfold contents in
            read_from-write_from_other mem.cell mem.next 0 (contents mem s ++ (x ∷ xs)) t.array 0
              t.len (inl (omega arith)))
      ]

  -- With room, the slice stays in its array.
  pub slice-append :
      (mem : Memory A) (s : Slice) (xs : List A)
      → s.len + length xs ≤ s.capacity
      → (append grow mem s xs).1 ≡ record s { len = s.len + length xs }
  slice-append mem s [] h = unfold append in ap (λ n. record s { len = n }) (sym (add-zero s.len))
  slice-append mem s (x ∷ xs) h = rw (in_place mem s x xs (le→leb _ s.capacity h))

  pub next-append :
      (mem : Memory A) (s : Slice) (xs : List A) → mem.next ≤ (append grow mem s xs).0.next
  unfolding append
  next-append mem s [] = omega arith
  next-append mem s (x ∷ xs) = ground arith

  -- Without room, it moves to a new array.
  pub array-append :
      (mem : Memory A) (s : Slice) (xs : List A)
      → ((append grow mem s xs).1.array ≡ s.array)
        ⊎ (((append grow mem s xs).1.array ≡ mem.next) × (mem.next < (append grow mem s xs).0.next))
  unfolding append
  array-append mem s [] = inl refl
  array-append mem s (x ∷ xs) = ground arith

  pub array-append_moved :
      (mem : Memory A) (s : Slice) (xs : List A)
      → s.capacity < s.len + length xs
      → 0 < length xs
      → (append grow mem s xs).1.array ≡ mem.next
  unfolding append
  array-append_moved mem s [] h k = absurd (omega arith)
  array-append_moved mem s (x ∷ xs) h k = ground arith

  pub slice-append_nil :
      (mem : Memory A) (s : Slice) (xs : List A) → length xs ≡ 0 → (append grow mem s xs).1 ≡ s
  unfolding append
  slice-append_nil mem s [] h = refl
  slice-append_nil mem s (x ∷ xs) h = absurd (omega arith)
