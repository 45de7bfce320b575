-- ===== src/Tests/Trees.antt =====
-- A concrete prefix tree for literal paths, an association list, with the laws that the routers ask
-- of one, and a lower case for ASCII letters.
use lemo.Base.{
  Bytes, ℕ, ◌+◌, ◌≡◌, ◌≢◌, refl, sym, ◌∙◌, inl, inr, List, [], ◌∷◌, map, Option, none, some,
  Outcome, ok, panic, arith, str_eq, eq_of_str_eq, str_eq_refl, Bool-cases, if◌then◌else◌, leb,
  ◌&&◌,
}
use lemo.Router.{Hit, Tire, Node}
use lemo.Router.Lookup.{IsTire}

module _ {H : Type 0} where
  abbrev pub hit : Node H → Hit (Node H)
  hit n = record { entry = n; keys = []; parse_params = λ path. [] }

  unfoldable pub get : List (Bytes × Node H) → Bytes → Option (Hit (Node H))
  get [] path = none
  get ((key, n) ∷ t) path = let rest = get t path in if str_eq key path then some (hit n) else rest

  unfoldable pub remove : List (Bytes × Node H) → Bytes → List (Bytes × Node H)
  remove [] path = []
  remove ((key, n) ∷ t) path =
      let rest = remove t path in if str_eq key path then rest else (key, n) ∷ rest

  abbrev pub remove_in :
      Option (List (Bytes × Node H)) → Bytes → Outcome (Option (List (Bytes × Node H)))
  remove_in none path = panic
  remove_in (some t) path = ok (some (remove t path))

  abbrev pub tire : Tire (Node H)
  tire = record {
    Tree = List (Bytes × Node H);
    new_tree = [];
    insert = λ t path n. (path, n) ∷ t;
    delete = remove_in;
    get_value = get;
    get_all_value = λ t. ok [];
  }

  get-remove : (t : List (Bytes × Node H)) (path : Bytes) → get (remove t path) path ≡ none
  unfolding get remove
  get-remove [] path = refl
  get-remove ((key, n) ∷ t) path = ground (arith, get-remove t path)

  get-remove_other :
      (t : List (Bytes × Node H)) (path other : Bytes)
      → other ≢ path
      → get (remove t path) other ≡ get t other
  unfolding get remove
  get-remove_other [] path other h = refl
  get-remove_other ((key, n) ∷ t) path other h = elim (Bool-cases (str_eq key path)) [
    | inr differs ↦ ground (arith, get-remove_other t path other h)
    | inl same ↦ elim (Bool-cases (str_eq key other)) [
      | inl clash ↦ absurd (h (sym (eq_of_str_eq key other clash) ∙ eq_of_str_eq key path same))
      | inr differs ↦ ground (arith, get-remove_other t path other h)
    ]
  ]

  get-insert_other :
      (t : List (Bytes × Node H)) (path other : Bytes) (n : Node H)
      → other ≢ path
      → get ((path, n) ∷ t) other ≡ get t other
  unfolding get
  get-insert_other t path other n h = elim (Bool-cases (str_eq path other)) [
    | inl clash ↦ absurd (h (sym (eq_of_str_eq path other clash)))
    | inr differs ↦ rw differs refl
  ]

  pub laws : IsTire tire (λ t. Unit {0})
  unfolding get
  laws = record {
    plain_new = tt;
    get_value-insert = λ t path n plain lit. (hit n, rw (str_eq_refl path) refl, refl);
    plain-insert = λ t path n plain lit. tt;
    get_value-insert_other = λ t path other n plain lit h. get-insert_other t path other n h;
    delete_ok = λ t path plain lit.
        (remove t path, refl, get-remove t path, λ other h. get-remove_other t path other h);
  }

abbrev pub to_lower : Bytes → Bytes
to_lower = map (λ c. if leb 65 c && leb c 90 then c + 32 else c)

abbrev pub grow : ℕ → ℕ → ℕ
grow old n = n + n
