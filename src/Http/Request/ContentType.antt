-- ===== src/Http/Request/ContentType.antt =====
-- `SetHeader`, `getContentType`, `Json` and `Form` of http/client: the content type that is set is
-- the one that is read, and the body that the request gets.
use lemo.Base.{
  Bytes, ℕ, codes, ◌≡◌, refl, sym, ap, ◌∙◌, true, List, [], ◌∷◌, ◌++◌, inl, inr, str_eq,
  str_eq_refl, eq_of_str_eq, Bool-cases, All, concat, map,
}
use mathlib.Core.List.{append_assoc, append-nil}
use lemo.Http.Store.{drop_last}
use lemo.Http.Request.{
  Library, Info, things, maps, content_type, form_type, json_type, set_in, set_header, type_in,
  get_content_type,
}
use lemo.Http.Request.Make.{
  get_request, do_post_json, do_post_form_urlencoded, form_text, marshal_all, json, form,
  some_request, with_body, request_as,
}

-- The texts, one after the other with the separator between them.
unfoldable pub join : Bytes → List Bytes → Bytes
join sep [] = []
join sep (s ∷ []) = s
join sep (s ∷ t ∷ ss) = s ++ (sep ++ join sep (t ∷ ss))

drop_last-append :
    (xs : Bytes) (c : ℕ) (s : Bytes) → drop_last (xs ++ (c ∷ s)) ≡ xs ++ drop_last (c ∷ s)
drop_last-append [] c s = refl
drop_last-append (x ∷ []) c s = refl
drop_last-append (x ∷ y ∷ xs) c s = ap (λ l. x ∷ l) (drop_last-append (y ∷ xs) c s)

drop_last-cons :
    (c : ℕ) (xs : Bytes) (d : ℕ) (s : Bytes)
    → drop_last (c ∷ (xs ++ (d ∷ s))) ≡ c ∷ drop_last (xs ++ (d ∷ s))
drop_last-cons c [] d s = refl
drop_last-cons c (x ∷ xs) d s = refl

module _ {X V Q U M C : Type 0} (library : Library X V Q U M C) where
  -- The content type is under no other spelling of its name.
  abbrev pub IsWritten : List (Bytes × Bytes) → Type 0
  IsWritten = All (λ e. library.canonical e.0 ≡ library.canonical content_type → e.0 ≡ content_type)

  type_in-set_in :
      (hs : List (Bytes × Bytes)) (v : Bytes)
      → IsWritten hs
      → type_in library (set_in library content_type v hs) ≡ v
  unfolding type_in set_in
  type_in-set_in [] v h = rw (str_eq_refl content_type) refl
  type_in-set_in ((k, u) ∷ hs) v (e, h) =
      elim (Bool-cases (str_eq (library.canonical k) (library.canonical content_type))) [
        | inl same ↦ rw same (rw (e (eq_of_str_eq _ _ same)) (rw (str_eq_refl content_type) refl))
        | inr other ↦ elim (Bool-cases (str_eq k content_type)) [
          | inl s ↦
              (let same : str_eq (library.canonical k) (library.canonical content_type) ≡ true =
                  rw (eq_of_str_eq k _ s) (str_eq_refl _) in
                cc)
          | inr o ↦ rw other (rw o (type_in-set_in hs v h))
        ]
      ]

  -- A pair as the body has it: nothing in it is escaped.
  abbrev pub pair_text : Bytes × V → Bytes
  pair_text (k, v) = k ++ (codes "=" ++ library.text v)

  pair-append :
      (k t rest : Bytes) → k ++ (codes "=" ++ (t ++ rest)) ≡ (k ++ (codes "=" ++ t)) ++ rest
  pair-append k t rest = sym (append_assoc k (codes "=" ++ t) rest)

  form_text-join :
      (kvs : List (Bytes × V))
      → drop_last (form_text library kvs) ≡ join (codes "&") (map pair_text kvs)
  unfolding form_text join
  form_text-join [] = refl
  form_text-join ((k, v) ∷ []) =
      ap drop_last (pair-append k (library.text v) (codes "&"))
      ∙ drop_last-append (pair_text (k, v)) b'&' []
      ∙ append-nil (pair_text (k, v))
  form_text-join ((k, v) ∷ (k', v') ∷ kvs) =
      let rest = form_text library ((k', v') ∷ kvs) in
      ap drop_last (pair-append k (library.text v) (b'&' ∷ rest))
      ∙ drop_last-append (pair_text (k, v)) b'&' rest
      ∙ ap (λ s. pair_text (k, v) ++ s)
          (drop_last-cons b'&' k' b'=' _ ∙ ap (λ s. b'&' ∷ s) (form_text-join ((k', v') ∷ kvs)))

  -- `strings.ToLower` keeps the two content types. `Form` and `Json` on an `info` whose headers have the content type under no other spelling make
  -- a request with its method and URL, or give the error of a library: the body of `Form` is the
  -- pairs `key=text` of its maps with `&` between them, that of `Json` the JSON texts of its
  -- arguments one after the other. Neither gives a nil request.
  pub form_and_json :
      (h : Info X V C) (ms : List (List (Bytes × V))) (xs : List X)
      → IsWritten h.headers
      → (library.to_lower form_type ≡ form_type) × (library.to_lower json_type ≡ json_type)
      → ((form library h ms).0
          ≡ some_request library
              (library.new_request h.method h.url (join (codes "&") (map pair_text (concat ms)))))
        × ((json library h xs).0 ≡ with_body library h.method h.url (marshal_all library xs))
  unfolding form json get_request get_content_type set_header do_post_form_urlencoded do_post_json
      str_eq
  form_and_json h ms xs written lowered = (
    ap
          (λ k.
            (request_as library k
              (record (set_header library h content_type form_type) { body = maps ms })).0)
          (ap library.to_lower (type_in-set_in h.headers form_type written) ∙ lowered.0)
        ∙ ap (λ b. some_request library (library.new_request h.method h.url b))
            (form_text-join (concat ms)),
    ap
        (λ k.
          (request_as library k
            (record (set_header library h content_type json_type) { body = things xs })).0)
        (ap library.to_lower (type_in-set_in h.headers json_type written) ∙ lowered.1),
  )
