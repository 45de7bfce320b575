-- ===== src/Http/Stream/Branches.antt =====
-- The tests of `AutoParse` and `AutoGet` of http/http_stream.go, and the branches behind them.
use lemo.Base.{
  Bytes, codes, ◌≡◌, ◌≢◌, refl, sym, ap, ◌∙◌, true, false, ◌++◌, Option, none, ◌⊎◌, inl, inr,
  str_eq, str_eq_refl, eq_of_str_eq, Bool-cases, Outcome, ok, length, drop, take-length-append,
  take-append-drop,
}
use lemo.Http.Store
use lemo.Http.Store.{Store}
use lemo.Http.Json
use lemo.Http.Stream.{
  Request, Library, Stream, parse_query, parse_form, parse_multipart, parse_files, parse_json,
  auto_parse, auto_get, starts, is_get, content_type, with_store, with_json,
}

abbrev pub HasPrefix : Bytes → Bytes → Type 0
HasPrefix s prefix = (rest : Bytes) × (s ≡ prefix ++ rest)

pub starts_cases :
    (s prefix : Bytes)
    → ((starts s prefix ≡ true) × HasPrefix s prefix)
      ⊎ ((starts s prefix ≡ false) × ¬ HasPrefix s prefix)
starts_cases s prefix = elim (Bool-cases (starts s prefix)) [
  | inl h ↦ inl (
    h,
    (
      drop (length prefix) s,
      sym (take-append-drop (length prefix) s)
          ∙ ap (λ t. t ++ drop (length prefix) s) (eq_of_str_eq _ prefix h),
    ),
  )
  | inr h ↦ inr (
    h,
    λ (rest, e).
        (let same : starts (prefix ++ rest) prefix ≡ true =
            rw (take-length-append prefix rest) (str_eq_refl prefix) in
          let other : starts (prefix ++ rest) prefix ≡ false = rw e at h in cc),
  )
]

module _ {W F J X : Type 0} (library : Library W F J X) where
  pub is_get_cases :
      (r : Request)
      → ((is_get library r ≡ true) × (library.to_upper r.method ≡ codes "GET"))
        ⊎ ((is_get library r ≡ false) × (library.to_upper r.method ≢ codes "GET"))
  is_get_cases r = elim (Bool-cases (is_get library r)) [
    | inl h ↦ inl (h, eq_of_str_eq _ _ h)
    | inr h ↦ inr (
      h,
      λ e.
          (let same : str_eq (library.to_upper r.method) (codes "GET") ≡ true =
              rw e (str_eq_refl (codes "GET")) in
            cc),
    )
  ]

  abbrev pub first_at :
      Bytes → Option Store → Stream library → Outcome (Option Bytes × Stream library)
  first_at key = with_store library (λ st. Store.first st key)

  -- The branches of the two functions, on any stream.
  module _ (s : Stream library) (w : W) (key : Bytes) where
    pub on_get :
        is_get library s.request ≡ true
        → (auto_parse library s w ≡ parse_query library s w)
          × (auto_get library s key ≡ first_at key s.query s)
    unfolding auto_parse auto_get
    on_get get = (rw get refl, rw get refl)

    module _ (other : is_get library s.request ≡ false) where
      pub on_multipart :
          starts (content_type library s.request) (codes "multipart/form-data") ≡ true
          → (auto_parse library s w
              ≡ (let (s', w') = parse_multipart library s w in parse_files library s' w'))
            × (auto_get library s key ≡ first_at key s.form s)
      unfolding auto_parse auto_get
      on_multipart m = (rw (other, m) refl, rw (other, m) refl)

      module _
          (not_multipart : starts (content_type library s.request) (codes "multipart/form-data")
            ≡ false) where
        pub on_form :
            starts (content_type library s.request) (codes "application/x-www-form-urlencoded")
              ≡ true
            → (auto_parse library s w ≡ parse_form library s w)
              × (auto_get library s key ≡ first_at key s.form s)
        unfolding auto_parse auto_get
        on_form f = (rw (other, not_multipart, f) refl, rw (other, not_multipart, f) refl)

        module _
            (not_form : starts
                (content_type library s.request)
                (codes "application/x-www-form-urlencoded")
              ≡ false) where
          pub on_json :
              starts (content_type library s.request) (codes "application/json") ≡ true
              → (auto_parse library s w ≡ parse_json library s w)
                × (auto_get library s key ≡ with_json library (λ j. Json.get library.json j key) s)
          unfolding auto_parse auto_get
          on_json j = (
            rw (other, not_multipart, not_form, j) refl,
            rw (other, not_multipart, not_form, j) refl,
          )

          pub on_nothing :
              starts (content_type library s.request) (codes "application/json") ≡ false
              → (auto_parse library s w ≡ (s, w)) × (auto_get library s key ≡ ok (none, s))
          unfolding auto_parse auto_get
          on_nothing j = (
            rw (other, not_multipart, not_form, j) refl,
            rw (other, not_multipart, not_form, j) refl,
          )
