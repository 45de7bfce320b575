-- ===== src/Http/Server/Files.antt =====
-- `ServeHTTP` and `staticHandler` of http/server/server.go: which file answers a request, and how.
use lemo.Base.{
  Bytes, ◌≡◌, refl, sym, ap, ◌∙◌, Bool, true, false, ◌++◌, Option, none, some, ◌⊎◌, inl, inr,
  str_eq_refl, eq_of_str_eq, length, drop, take-length-append, drop-length-append, take-append-drop,
  Bool-cases, Option-cases, ◌≢◌, ok,
}
use lemo.Http.Server.{
  Site, FileSystem, StaticRouter, Request, has_prefix, static_file, file_or_index, serve_http,
  middleware, is_empty,
}
use lemo.Http.Server.Response.{Client, IsResponse, fresh, response_for, serve_file_lem}

file_or_index_sound :
    (file index f : Bytes) (st st' : Option Bool)
    → file_or_index file index st st' ≡ some f
    → ((st ≡ some false) × (f ≡ file)) ⊎ ((st ≡ some true) × (f ≡ index) × (st' ≢ none))
file_or_index_sound file index f none st' e = cc
file_or_index_sound file index f (some false) st' e = inl (refl, cc)
file_or_index_sound file index f (some true) none e = cc
file_or_index_sound file index f (some true) (some dir) e = inr (refl, cc, λ h. cc)

file_or_index_complete :
    (file index f : Bytes) (st st' : Option Bool)
    → ((st ≡ some false) × (f ≡ file)) ⊎ ((st ≡ some true) × (f ≡ index) × (st' ≢ none))
    → file_or_index file index st st' ≡ some f
file_or_index_complete file index f st st' (inl (a, b)) = rw (a, b) refl
file_or_index_complete file index f st none (inr (a, b, c)) = elim (c refl) [ ]
file_or_index_complete file index f st (some dir) (inr (a, b, c)) = rw (a, b) refl

has_prefix-append : (p rest : Bytes) → has_prefix p (p ++ rest) ≡ true
has_prefix-append p rest = rw (take-length-append p rest) (str_eq_refl p)

prefix-rest : (p s : Bytes) → has_prefix p s ≡ true → s ≡ p ++ drop (length p) s
prefix-rest p s h =
    sym (take-append-drop (length p) s) ∙ ap (λ t. t ++ drop (length p) s) (eq_of_str_eq _ p h)

module _ {S : Type 0} (files : FileSystem S) (router : StaticRouter) (s : S) where
  -- The file that a request path is for: what `filepath.Join` makes of the static directory and of
  -- what follows the prefix, or the index there if that is a directory. The path is not cleaned
  -- before, so the file may lie outside the static directory.
  unfoldable pub IsFileOf : Bytes → Bytes → Type 0
  IsFileOf path file =
      (rest : Bytes) × (path ≡ router.prefix_path ++ rest)
      × (let target = files.join router.static_path rest in
          let index = files.join target router.default_index in
          ((files.stat s target ≡ some false) × (file ≡ target))
          ⊎ ((files.stat s target ≡ some true) × (file ≡ index) × (files.stat s index ≢ none)))

  abbrev pub file_at : Bytes → Option Bytes
  file_at path = static_file files router.static_path router.prefix_path router.default_index path s

  static_file_sound : (path file : Bytes) → file_at path ≡ some file → IsFileOf path file
  unfolding static_file IsFileOf
  static_file_sound path file e = elim (Bool-cases (has_prefix router.prefix_path path)) [
    | inl h ↦ (
      drop (length router.prefix_path) path,
      prefix-rest router.prefix_path path h,
      file_or_index_sound _ _ file _ _ (rw h at e),
    )
    | inr h ↦ (let bad : Path (Option Bytes) none (some file) = rw h at e in cc)
  ]

  pub static_file_complete : (path file : Bytes) → IsFileOf path file → file_at path ≡ some file
  unfolding static_file IsFileOf
  static_file_complete path file (rest, e, found) = rw e (
      rw (has_prefix-append router.prefix_path rest) (
        rw (drop-length-append router.prefix_path rest)
          (file_or_index_complete _ _ file _ _ found)))

  abbrev pub Serves : Request → Bytes → Type 0
  Serves request file =
      (is_empty router.static_path ≡ false)
      × (request.is_get ≡ true)
      × IsFileOf request.url_path file

  -- A router is there. Of a request with no answer yet, in a state with a response that follows
  -- net/http: if the router has a static directory and the method is GET, a path that is for a file
  -- is answered without the middleware. The response has status 200, the type that goes with the
  -- name of the file, and its contents, as far as the connection takes them; if the file cannot be
  -- read, it has status 403 and no body. A path is for a file by its prefix, by what `filepath.Join`
  -- makes of the rest, which may lie outside the static directory, and by what the file system finds
  -- there. Every other request goes through the middleware to the handler.
  pub serve_http_cases :
      (site : Site S) (client : Client S)
      → IsResponse site files client
      → client.response s ≡ fresh
      → (request : Request)
      → ((file : Bytes) × (s' : S) × Serves request file
          × (serve_http site files (some router) request s ≡ ok (tt, s'))
          × (client.response s'
              ≡ response_for site files client file (client.contents s file) (client.room s)))
        ⊎ (((file : Bytes) → ¬ Serves request file)
            × (serve_http site files (some router) request s ≡ middleware site s))
  unfolding serve_http
  serve_http_cases site client laws new request = elim (Bool-cases (is_empty router.static_path)) [
    | inl h ↦ inr ((λ file (a, _, _). cc), rw h refl)
    | inr h ↦ elim (Bool-cases request.is_get) [
      | inr g ↦ inr ((λ file (_, b, _). cc), rw (h, g) refl)
      | inl g ↦ elim (Option-cases (file_at request.url_path)) [
        | inl f ↦ inr (
          (λ file (_, _, c). (let found = static_file_complete _ file c in cc)),
          rw (h, g) (rw f refl),
        )
        | inr (file, f) ↦
            (let (s', served, sent) = serve_file_lem site files client laws file s new in
              inl (file, s', (h, g, static_file_sound _ file f), rw (h, g) (rw f served), sent))
      ]
    ]
  ]
