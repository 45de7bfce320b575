-- ===== src/Http/Stream/Parsed.antt =====
-- `AutoParse` and `AutoGet` of http/http_stream.go.
use lemo.Base.{
  Bytes, codes, ℕ, ◌≡◌, ◌≢◌, refl, ap, ◌∙◌, true, false, List, [], ◌∷◌, Option, none, some, ◌⊎◌,
  inl, inr, str_eq, Bool-cases, ok, All,
}
use lemo.Http.Store
use lemo.Http.Store.{Store}
use lemo.Http.Store.Entries.{Entry, of_entries, under, first_of, find-under}
use lemo.Http.Json
use lemo.Http.Json.{Json}
use lemo.Http.Stream.{
  Request, Library, Stream, new_stream, parse_query, parse_form, parse_multipart, parse_files,
  parse_json, auto_parse, auto_get, filled, values_part, json_of, starts, is_get, content_type,
  with_store, with_json,
}
use lemo.Http.Stream.Branches.{
  HasPrefix, starts_cases, is_get_cases, on_get, on_multipart, on_form, on_json, on_nothing,
}

abbrev pub HasValue : List Bytes → Type 0
HasValue vs = (v : Bytes) × (rest : List Bytes) × (vs ≡ v ∷ rest)

-- The first value of the first of the lists.
abbrev pub first_value : List (List Bytes) → Option Bytes
first_value [] = none
first_value ([] ∷ vs) = none
first_value ((v ∷ rest) ∷ vs) = some v

abbrev pub or_empty : Option (List Entry) → List Entry
or_empty none = []
or_empty (some es) = es

-- Every key of a map that the libraries parse has a value.
abbrev pub HasValues : List Entry → Type 0
HasValues = All (λ e. HasValue e.1)

under-HasValue : (es : List Entry) (key : Bytes) → HasValues es → All HasValue (under key es)
unfolding under
under-HasValue [] key h = tt
under-HasValue ((k, vs) ∷ es) key (v, h) = elim (Bool-cases (str_eq k key)) [
  | inl same ↦ rw same (v, under-HasValue es key h)
  | inr other ↦ rw other (under-HasValue es key h)
]

first_value_lem :
    (vs : List (List Bytes))
    → All HasValue vs
    → Store.at_index 0 (first_of vs) ≡ ok (first_value vs)
first_value_lem [] h = refl
first_value_lem (v ∷ vs) ((x, rest, e), h) = rw e refl

first-under :
    (es : List Entry) (key : Bytes)
    → HasValues es
    → Store.first (of_entries es) key ≡ ok (first_value (under key es))
unfolding Store.first Store.index_of
first-under es key h =
    rw (find-under es key) (first_value_lem (under key es) (under-HasValue es key h))

module _ {W F J X : Type 0} (library : Library W F J X) where
  pub record IsParser : Type 0 where
    pub query_values : (s : Bytes) → HasValues (or_empty (library.parse_query s))
    pub form_values : (w : W) → HasValues (or_empty (library.parse_form w).0)
    pub multipart_values :
        (n : ℕ) (w : W) → HasValues (or_empty (values_part library (library.parse_multipart n w).0))

  -- The value under a key that a request carries: of a GET, the first one in the query; of any
  -- other, by its content type, the first one in the multipart form or in the form, or the part of
  -- the JSON body; nil for any other content type.
  pub Carries : Request → W → Bytes → Option Bytes → Type 0
  Carries r w key v =
      let first = λ (o : Option (List Entry)). first_value (under key (or_empty o)) in
      let header = r.header (codes "Content-Type") in
      let other = library.to_upper r.method ≢ codes "GET" in
      let multipart = HasPrefix header (codes "multipart/form-data") in
      let form = HasPrefix header (codes "application/x-www-form-urlencoded") in
      let json = HasPrefix header (codes "application/json") in
      ((library.to_upper r.method ≡ codes "GET") × (v ≡ first (library.parse_query r.raw_query)))
      ⊎ (other × multipart × (v ≡ first (values_part library (library.parse_multipart 0 w).0)))
      ⊎ (other × form × (v ≡ first (library.parse_form w).0))
      ⊎ (other
          × json
          × (v
              ≡ Json.value_of library.json
                  (library.json.part (library.json.parse (library.read_body w).0) key)))
      ⊎ (other × (¬ multipart) × (¬ form) × (¬ json) × (v ≡ none))

  filled-or_empty : (o : Option (List Entry)) → filled library o ≡ of_entries (or_empty o)
  filled-or_empty none = refl
  filled-or_empty (some es) = refl

  first-filled :
      (o : Option (List Entry)) (key : Bytes)
      → HasValues (or_empty o)
      → Store.first (filled library o) key ≡ ok (first_value (under key (or_empty o)))
  first-filled o key h =
      ap (λ s. Store.first s key) (filled-or_empty o) ∙ first-under (or_empty o) key h

  get-json_of :
      (body : Option Bytes) (key : Bytes)
      → (Json.get library.json (json_of library body) key).0
        ≡ Json.value_of library.json (library.json.part (library.json.parse body) key)
  unfolding Json.get Json.get_any
  get-json_of none key = refl
  get-json_of (some b) key = refl

  first_ok :
      (o : Option (List Entry)) (s : Stream library) (key : Bytes)
      → HasValues (or_empty o)
      → (s' : Stream library) × (with_store library
            (λ st. Store.first st key)
            (some (filled library o))
            s
          ≡ ok (first_value (under key (or_empty o)), s'))
  first_ok o s key h = (s, rw (first-filled o key h) refl)

  json_ok :
      (body : Option Bytes) (s : Stream library) (key : Bytes)
      → (s' : Stream library) × (with_json library
            (λ j. Json.get library.json j key)
            (record s { json = some (json_of library body) })
          ≡ ok (Json.value_of library.json (library.json.part (library.json.parse body) key), s'))
  json_ok body s key = (
    record s { json = some (Json.get library.json (json_of library body) key).1 },
    rw (get-json_of body key) refl,
  )

  module _ (parser : IsParser) where
    abbrev Gets : Request → W → Bytes → Type 0
    Gets r w key =
        (v : Option Bytes) × (s' : Stream library) × Carries r w key v
        × (auto_get library (auto_parse library (new_stream library r) w).0 key ≡ ok (v, s'))

    module _ (r : Request) (w : W) (key : Bytes) (other : is_get library r ≡ false)
        (ne : library.to_upper r.method ≢ codes "GET") where
      abbrev start : Stream library
      start = new_stream library r

      read_multipart :
          starts (content_type library r) (codes "multipart/form-data") ≡ true
          → HasPrefix (content_type library r) (codes "multipart/form-data")
          → Gets r w key
      unfolding new_stream Carries parse_multipart parse_files
      read_multipart multi has =
          let after = parse_multipart library start w in
          let parsed = (parse_files library after.0 after.1).0 in
          let values = values_part library (library.parse_multipart 0 w).0 in
          let found = first_ok values parsed key (parser.multipart_values 0 w) in
          (
            _,
            found.0,
            inr (inl (ne, has, refl)),
            rw ((on_multipart library start w key other multi).0)
                ((on_multipart library parsed w key other multi).1 ∙ found.1),
          )

      module _ (m : starts (content_type library r) (codes "multipart/form-data") ≡ false) where
        read_form :
            starts (content_type library r) (codes "application/x-www-form-urlencoded") ≡ true
            → HasPrefix (content_type library r) (codes "application/x-www-form-urlencoded")
            → Gets r w key
        unfolding new_stream Carries parse_form
        read_form form has =
            let parsed = (parse_form library start w).0 in
            let found = first_ok (library.parse_form w).0 parsed key (parser.form_values w) in
            (
              _,
              found.0,
              inr (inr (inl (ne, has, refl))),
              rw ((on_form library start w key other m form).0)
                  ((on_form library parsed w key other m form).1 ∙ found.1),
            )

        read_json :
            starts (content_type library r) (codes "application/x-www-form-urlencoded") ≡ false
            → starts (content_type library r) (codes "application/json") ≡ true
            → HasPrefix (content_type library r) (codes "application/json")
            → Gets r w key
        unfolding new_stream Carries parse_json
        read_json f json has =
            let parsed = (parse_json library start w).0 in
            let found = json_ok (library.read_body w).0 parsed key in
            (
              _,
              found.0,
              inr (inr (inr (inl (ne, has, refl)))),
              rw ((on_json library start w key other m f json).0)
                  ((on_json library parsed w key other m f json).1 ∙ found.1),
            )

      read_other : Gets r w key
      unfolding new_stream Carries
      read_other = elim (starts_cases (content_type library r) (codes "multipart/form-data")) [
        | inl (multi, has) ↦ read_multipart multi has
        | inr (m, no_multi) ↦
            elim (starts_cases (content_type library r)
              (codes "application/x-www-form-urlencoded")) [
                | inl (form, has) ↦ read_form m form has
                | inr (f, no_form) ↦
                    elim (starts_cases (content_type library r) (codes "application/json")) [
                      | inl (json, has) ↦ read_json m f json has
                      | inr (j, no_json) ↦ (
                        none,
                        start,
                        inr (inr (inr (inr (ne, no_multi, no_form, no_json, refl)))),
                        rw ((on_nothing library start w key other m f j).0)
                            (on_nothing library start w key other m f j).1,
                      )
                    ]
              ]
      ]

    -- Every key of a map that the libraries parse has a value. `AutoGet` after `AutoParse` on a new
    -- stream does not panic, and gives the value under the key that the request carries. Of a GET,
    -- whatever the case of the method, that is the first one in the query. Of any other request it
    -- goes by the beginning of `Content-Type`: the first one in the multipart form or in the form,
    -- or the part of the JSON body, and nil if the header begins with none of the three types.
    pub auto_get-auto_parse :
        (r : Request) (w : W) (key : Bytes)
        → let (s, w') = auto_parse library (new_stream library r) w in
          (v : Option Bytes) × (s' : Stream library) × Carries r w key v
          × (auto_get library s key ≡ ok (v, s'))
    unfolding new_stream Carries parse_query
    auto_get-auto_parse r w key = elim (is_get_cases library r) [
      | inl (get, e) ↦
          (let start = new_stream library r in
            let parsed = (parse_query library start w).0 in
            let found =
              first_ok (library.parse_query r.raw_query) parsed key
                (parser.query_values r.raw_query) in
            (
              _,
              found.0,
              inl (e, refl),
              rw ((on_get library start w key get).0)
                  ((on_get library parsed w key get).1 ∙ found.1),
            ))
      | inr (other, ne) ↦ read_other r w key other ne
    ]
