-- ===== src/Http/Server/Climbs.antt =====
-- `staticHandler` of http/server/server.go joins what follows the prefix as it comes: what a path with
-- `..` leads to. The laws are those of `filepath.Join`, which cleans its result.
use lemo.Base.{
  Bytes, codes, ℕ, ◌≡◌, ◌≢◌, refl, sym, ◌∙◌, false, true, List, [], ◌∷◌, ◌++◌, some, inl, ok, All,
}
use lemo.Http.Server.{Site, FileSystem, StaticRouter, static_file, serve_http, is_empty}
use lemo.Http.Server.Response.{Client, IsResponse, fresh, response_for, serve_file_lem}
use lemo.Http.Server.Files.{IsFileOf, static_file_complete}

-- A name in a directory, and the absolute path of a list of names, the innermost first.
abbrev pub IsName : Bytes → Type 0
IsName name = All (λ c. c ≢ b'/') name × (name ≢ []) × (name ≢ codes ".") × (name ≢ codes "..")

abbrev pub path_of : List Bytes → Bytes
path_of [] = []
path_of (name ∷ names) = path_of names ++ (codes "/" ++ name)

-- One `../` for each name.
abbrev pub up_from : List Bytes → Bytes → Bytes
up_from [] rest = rest
up_from (name ∷ names) rest = codes "../" ++ up_from names rest

-- On Unix: a slash behind a directory changes nothing, and `..` takes the name before it away.
pub record IsJoin (join : Bytes → Bytes → Bytes) : Type 0 where
  pub slash : (dir rest : Bytes) → dir ≢ [] → join dir rest ≡ join (dir ++ codes "/") rest
  pub up :
      (dir name rest : Bytes)
      → IsName name
      → join ((dir ++ (codes "/" ++ name)) ++ codes "/") (codes "../" ++ rest)
        ≡ join (dir ++ codes "/") rest

module _ {join : Bytes → Bytes → Bytes} (laws : IsJoin join) where
  join-up_from :
      (names : List Bytes) (rest : Bytes)
      → All IsName names
      → join (path_of names ++ codes "/") (up_from names rest) ≡ join (codes "/") rest
  join-up_from [] rest h = refl
  join-up_from (name ∷ names) rest (h, hs) =
      laws.up (path_of names) name (up_from names rest) h ∙ join-up_from names rest hs

append-ne-nil : (xs : Bytes) (y : ℕ) (ys : Bytes) → (xs ++ (y ∷ ys)) ≢ []
append-ne-nil [] y ys e = cc
append-ne-nil (x ∷ xs) y ys e = cc

is_empty-append : (xs : Bytes) (y : ℕ) (ys : Bytes) → is_empty (xs ++ (y ∷ ys)) ≡ false
is_empty-append [] y ys = refl
is_empty-append (x ∷ xs) y ys = refl

module _ {S : Type 0} (site : Site S) (files : FileSystem S) (client : Client S)
    (laws : IsResponse site files client) (joins : IsJoin files.join) where
  -- With a response that follows net/http and a `filepath.Join` as on Unix: when the static directory
  -- is the absolute path of one name or more, and `rest` names a file from the root of the file
  -- system, a GET with no answer yet, for the prefix, as many `../` as the directory has names and
  -- `rest`, is answered with that file, wherever it lies, without the middleware: with status 200
  -- and its contents, as far as the connection takes them, or with 403 if it cannot be read.
  pub serve_http_climbs :
      (router : StaticRouter) (name : Bytes) (names : List Bytes) (rest : Bytes) (s : S)
      → router.static_path ≡ path_of (name ∷ names)
      → All IsName (name ∷ names)
      → files.stat s (files.join (codes "/") rest) ≡ some false
      → client.response s ≡ fresh
      → (s' : S) × (serve_http site files
            (some router)
            (record { is_get = true; url_path = router.prefix_path ++ up_from (name ∷ names) rest })
            s
          ≡ ok (tt, s'))
        × (let file = files.join (codes "/") rest in
            client.response s'
            ≡ response_for site files client file (client.contents s file) (client.room s))
  unfolding serve_http IsFileOf
  serve_http_climbs router name names rest s e h found new =
      let path = router.prefix_path ++ up_from (name ∷ names) rest in
      let file = files.join (codes "/") rest in
      let target : files.join router.static_path (up_from (name ∷ names) rest) ≡ file = rw e (
        joins.slash (path_of (name ∷ names)) _ (append-ne-nil (path_of names) b'/' name)
        ∙ join-up_from joins (name ∷ names) rest h) in
      let at_file : static_file files router.static_path router.prefix_path router.default_index
            path s
          ≡ some file =
        static_file_complete files router s path file
          (up_from (name ∷ names) rest, refl, inl (rw target found, sym target)) in
      let (s', served, sent) = serve_file_lem site files client laws file s new in
      let full : is_empty router.static_path ≡ false =
        rw e (is_empty-append (path_of names) b'/' name) in
      (s', rw full (rw at_file served), sent)
