-- ===== src/Params.antt =====
-- params.go: the parameters that a route captured, as two slices of the same length.
pub mod Lookup
use lemo.Base.{
  Bytes, ℕ, zero, suc, List, [], ◌∷◌, str_eq, if◌then◌else◌, get_elem?, Option, none, some, Outcome,
  ok, panic,
}

pub record Params : Type 0 where
  pub keys : List Bytes
  pub values : List Bytes

-- `values[i]`
abbrev pub index {ℓ} : {A : Type ℓ} → List A → ℕ → Outcome A
index xs i = elim (get_elem? xs i) [ none ↦ panic | some x ↦ ok x ]

unfoldable pub by_name_from : List Bytes → Bytes → ℕ → List Bytes → Outcome Bytes
unfolding str_eq
by_name_from values name i [] = ok []
by_name_from values name i (key ∷ keys) =
    let rest = by_name_from values name (suc i) keys in
    if str_eq key name then index values i else rest

unfoldable pub by_name : Params → Bytes → Outcome Bytes
unfolding by_name_from
by_name ps name = by_name_from ps.values name 0 ps.keys
