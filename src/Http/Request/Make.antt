-- ===== src/Http/Request/Make.antt =====
-- `getRequest` and the functions it chooses from, http/client/do.go, and the calls of info.go that
-- come to it.
use lemo.Base.{
  Bytes, codes, List, [], ◌∷◌, ◌++◌, Option, none, some, str_eq, if◌then◌else◌, ◌⊎◌, inl, inr,
  concat,
}
use lemo.Http.Store.{drop_last}
use lemo.Http.Request.{
  Library, Info, Body, no_body, things, maps, content_type, form_type, json_type, multipart_type,
  set_header, get_content_type,
}

module _ {X V Q U M C : Type 0} (library : Library X V Q U M C) where
  open library use {to_lower, text}

  -- What `doPostFormData` and the others give: an error, or the request, which is nil where `doUrl`
  -- returns three times nil; and the `info`, which they change.
  abbrev pub Made : Type 0
  Made = (Bytes ⊎ Option Q) × Info X V C

  abbrev pub some_request : Bytes ⊎ Q → Bytes ⊎ Option Q
  some_request (inl e) = inl e
  some_request (inr q) = inr (some q)

  -- A nil body becomes the empty list of maps.
  abbrev pub filled_body : Info X V C → Info X V C
  filled_body h = elim h.body [
    | no_body ↦ record h { body = maps [] }
    | things xs ↦ h
    | maps ms ↦ h
  ]

  abbrev pub body_maps : Body X V → Option (List (List (Bytes × V)))
  body_maps no_body = some []
  body_maps (things xs) = none
  body_maps (maps ms) = some ms

  unfoldable pub form_text : List (Bytes × V) → Bytes
  form_text [] = []
  form_text ((k, v) ∷ kvs) = k ++ (codes "=" ++ (text v ++ (codes "&" ++ form_text kvs)))

  unfoldable pub do_post_form_urlencoded : Info X V C → Made
  unfolding form_text
  do_post_form_urlencoded h = elim (body_maps h.body) [
    | none ↦ (inl (codes "application/x-www-form-urlencoded body must be map[string]interface"), h)
    | some ms ↦ (
      some_request (library.new_request h.method h.url (drop_last (form_text (concat ms)))),
      filled_body h,
    )
  ]

  unfoldable pub marshal_all : List X → Bytes ⊎ Bytes
  marshal_all [] = inr []
  marshal_all (x ∷ xs) = elim (library.marshal x) [
    | inl e ↦ inl e
    | inr b ↦ elim (marshal_all xs) [ inl e ↦ inl e | inr bs ↦ inr (b ++ bs) ]
  ]

  abbrev pub body_things : Body X V → Option (List X)
  body_things no_body = none
  body_things (things xs) = some xs
  body_things (maps ms) = none

  abbrev pub with_body : Bytes → Bytes → Bytes ⊎ Bytes → Bytes ⊎ Option Q
  with_body method url (inl e) = inl e
  with_body method url (inr b) = some_request (library.new_request method url b)

  unfoldable pub do_post_json : Info X V C → Made
  unfolding marshal_all
  do_post_json h = elim (body_things h.body) [
    | none ↦ (inl (codes "application/json body must be interface"), h)
    | some xs ↦ (with_body h.method h.url (marshal_all xs), h)
  ]

  unfoldable pub write_fields : List (Bytes × V) → M → Bytes ⊎ M
  write_fields [] m = library.close_writer m
  write_fields ((k, v) ∷ kvs) m = elim (library.write_field k v m) [
    | inl e ↦ inl e
    | inr m' ↦ write_fields kvs m'
  ]

  unfoldable pub do_post_form_data : Info X V C → Made
  unfolding write_fields set_header
  do_post_form_data h = elim (body_maps h.body) [
    | none ↦ (inl (codes "application/x-www-form-urlencoded body must be map[string]interface"), h)
    | some ms ↦ elim (write_fields (concat ms) library.new_writer) [
      | inl e ↦ (inl e, filled_body h)
      | inr m ↦ elim (library.new_request h.method h.url (library.written m)) [
        | inl e ↦ (inl e, filled_body h)
        | inr q ↦ (
          inr (some q),
          set_header library (filled_body h) content_type (library.form_data_content_type m),
        )
      ]
    ]
  ]

  -- `Values.Set` for each pair.
  unfoldable pub set_param : Bytes → Bytes → List (Bytes × Bytes) → List (Bytes × Bytes)
  set_param key value [] = (key, value) ∷ []
  set_param key value ((k, v) ∷ ps) =
      let rest = set_param key value ps in if str_eq k key then (key, value) ∷ ps else (k, v) ∷ rest

  unfoldable pub set_all : List (Bytes × V) → List (Bytes × Bytes) → List (Bytes × Bytes)
  unfolding set_param
  set_all [] ps = ps
  set_all ((k, v) ∷ kvs) ps = set_all kvs (set_param k (text v) ps)

  abbrev pub add_query : U → Bytes → U
  add_query u [] = u
  add_query u (c ∷ s) = library.with_raw_query u (library.raw_query u ++ (codes "&" ++ (c ∷ s)))

  unfoldable pub do_url : Info X V C → Made
  unfolding set_all
  do_url h = elim (library.parse_url h.url) [
    | inl e ↦ (inl e, h)
    | inr u ↦ elim (body_maps h.body) [
      | none ↦ (inr none, h)
      | some ms ↦ (
        some_request (
            library.new_request h.method
              (library.url_text (add_query u (library.encode (set_all (concat ms) [])))) []),
        filled_body h,
      )
    ]
  ]

  abbrev pub request_as : Bytes → Info X V C → Made
  request_as kind h =
      if str_eq kind form_type
      then do_post_form_urlencoded h
      else (if str_eq kind json_type
          then do_post_json h
          else (if str_eq kind multipart_type then do_post_form_data h else do_url h))

  unfoldable pub get_request : Info X V C → Made
  unfolding get_content_type do_post_form_urlencoded do_post_json do_post_form_data do_url
  get_request h = request_as (to_lower (get_content_type library h)) h

  -- `Json`, `Query`, `Form` and `Multipart`; `params` is an error or the request with its `info`.
  unfoldable pub json : Info X V C → List X → Made
  unfolding get_request set_header
  json h xs =
      get_request (record (set_header library h content_type json_type) { body = things xs })

  unfoldable pub query : Info X V C → List (List (Bytes × V)) → Made
  unfolding get_request
  query h ms = get_request (record h { body = maps ms })

  unfoldable pub form : Info X V C → List (List (Bytes × V)) → Made
  unfolding get_request set_header
  form h ms = get_request (record (set_header library h content_type form_type) { body = maps ms })

  unfoldable pub multipart : Info X V C → List (List (Bytes × V)) → Made
  unfolding get_request set_header
  multipart h ms =
      get_request (record (set_header library h content_type multipart_type) { body = maps ms })
