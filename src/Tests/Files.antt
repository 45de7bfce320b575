-- ===== src/Tests/Files.antt =====
-- The static files at concrete inputs, with a `filepath.Join` for absolute paths.
use lemo.Base.{
  Bytes, codes, ◌≡◌, ◌≢◌, refl, sym, ap, ◌∙◌, Bool, Bool-cases, true, false, List, [], ◌∷◌, ◌++◌,
  Option, none, some, ok, All, str_eq, eq_of_str_eq, if◌then◌else◌, ◌⊎◌, inl, inr, ◌==◌, drop,
  arith,
}
use mathlib.Core.List.{append_assoc, append-nil}
use lemo.Http.Server.{Site, FileSystem, StaticRouter, Request, serve_http, middleware}
use lemo.Http.Server.Response.{
  Response, Client, IsResponse, fresh, response_for, written, with_status,
}
use lemo.Http.Server.Files.{Serves, serve_http_cases}
use lemo.Http.Server.Climbs.{IsName, IsJoin, path_of, serve_http_climbs}

-- The names on the way to a file, the innermost first, after one more.
unfoldable enter : Bytes → List Bytes → List Bytes
enter name names =
    if str_eq name []
    then names
    else (if str_eq name (codes ".")
        then names
        else (if str_eq name (codes "..") then drop 1 names else name ∷ names))

-- The way along a path: `name` is what has been read of the next name.
unfoldable walk : (name : Bytes) → List Bytes → Bytes → List Bytes
unfolding enter
walk name names [] = enter name names
walk name names (c ∷ s) =
    walk (if c == b'/' then [] else name ++ (c ∷ []))
      (if c == b'/' then enter name names else names) s

abbrev join : Bytes → Bytes → Bytes
join dir rest = path_of (walk [] [] (dir ++ (codes "/" ++ rest)))

walk-slash :
    (xs ys name : Bytes) (names : List Bytes)
    → walk name names (xs ++ (codes "/" ++ ys)) ≡ walk [] (walk name names xs) ys
unfolding walk
walk-slash [] ys name names = refl
walk-slash (x ∷ xs) ys name names =
    walk-slash xs ys (if x == b'/' then [] else name ++ (x ∷ []))
      (if x == b'/' then enter name names else names)

differs : (a b : Bytes) → a ≢ b → str_eq a b ≡ false
differs a b ne = elim (Bool-cases (str_eq a b)) [
  | inl same ↦ absurd (ne (eq_of_str_eq a b same))
  | inr e ↦ e
]

enter-name :
    (name : Bytes) (names : List Bytes)
    → name ≢ []
    → name ≢ codes "."
    → name ≢ codes ".."
    → enter name names ≡ name ∷ names
unfolding enter
enter-name name names a b c = rw (differs _ _ a, differs _ _ b, differs _ _ c) refl

walk-name :
    (xs name : Bytes) (names : List Bytes)
    → All (λ c. c ≢ b'/') xs
    → walk name names xs ≡ enter (name ++ xs) names
unfolding walk
walk-name [] name names h = rw (append-nil name) refl
walk-name (x ∷ xs) name names (h, hs) =
    let other : (x == b'/') ≡ false = ground arith in
    rw other (
      walk-name xs (name ++ (x ∷ [])) names hs
      ∙ ap (λ n. enter n names) (append_assoc name (x ∷ []) xs))

walk-trailing : (dir : Bytes) → walk [] [] (dir ++ codes "/") ≡ walk [] [] dir
unfolding walk enter str_eq
walk-trailing dir = walk-slash dir [] [] []

walk-up :
    (dir name rest : Bytes)
    → IsName name
    → walk [] []
        (((dir ++ (codes "/" ++ name)) ++ codes "/") ++ (codes "/" ++ (codes "../" ++ rest)))
      ≡ walk [] (walk [] [] dir) rest
walk-up dir name rest (plain, a, b, c) =
    walk-slash ((dir ++ (codes "/" ++ name)) ++ codes "/") (codes "../" ++ rest) [] []
    ∙ ap (λ ns. walk [] ns (codes "../" ++ rest))
        (walk-trailing (dir ++ (codes "/" ++ name))
          ∙ walk-slash dir name [] []
          ∙ walk-name name [] (walk [] [] dir) plain
          ∙ enter-name name (walk [] [] dir) a b c)
    ∙ (unfold walk enter str_eq in refl)

joins : IsJoin join
joins = record {
  slash = λ dir rest full. ap path_of (
      walk-slash dir rest [] []
      ∙ sym (
          walk-slash (dir ++ codes "/") rest [] []
          ∙ ap (λ ns. walk [] ns rest) (walk-trailing dir)));
  up = λ dir name rest h. ap path_of (
      walk-up dir name rest h
      ∙ sym (
          walk-slash (dir ++ codes "/") rest [] []
          ∙ ap (λ ns. walk [] ns rest) (walk-trailing dir)));
}

-- The state is the response; the connection takes 100 bytes.
abbrev site : Site Response
site = record {
  on_open = none;
  on_message = none;
  on_close = none;
  on_error = none;
  path = λ r. codes "/";
  get_route = λ r. ok (none, r);
  write_header = λ code r. ok (tt, with_status code r);
  set_params = λ ps r. ok (tt, r);
  middle = [];
}

abbrev passwd : Bytes
passwd = codes "/etc/passwd"

abbrev page : Bytes
page = codes "/srv/www/a"

unfoldable stat : Response → Bytes → Option Bool
unfolding str_eq
stat r path =
    if str_eq path page then some false else (if str_eq path passwd then some false else none)

abbrev files : FileSystem Response
files = record {
  join = join;
  stat = stat;
  content_type = λ path. codes "text/plain";
  read_file = λ path r. ok (some (codes "root"), r);
  set_content_type = λ kind r. ok (tt, record r { content_type = some kind });
  write = λ bts r. ok (none, written 100 bts r);
}

abbrev client : Client Response
client = record { response = λ r. r; contents = λ r path. some (codes "root"); room = λ r. 100 }

laws : IsResponse site files client
laws = record {
  read = λ file r. (r, refl, refl, refl);
  set = λ kind r new. (
    record r { content_type = some kind },
    refl,
    ap (λ (t : Response). record t { content_type = some kind }) new,
    refl,
  );
  write = λ bts r. (none, written 100 bts r, refl, refl);
  header = λ code r. (with_status code r, refl, refl);
}

abbrev static : StaticRouter
static = record {
  prefix_path = codes "/";
  static_path = codes "/srv/www";
  default_index = codes "index.html";
}

abbrev request : Request
request = record { is_get = true; url_path = codes "/a" }

serve_http_cases_example :
    ((file : Bytes) × (s' : Response) × Serves files static fresh request file
      × (serve_http site files (some static) request fresh ≡ ok (tt, s'))
      × (s' ≡ response_for site files client file (some (codes "root")) 100))
    ⊎ (((file : Bytes) → ¬ Serves files static fresh request file)
        × (serve_http site files (some static) request fresh ≡ middleware site fresh))
serve_http_cases_example = serve_http_cases files static fresh site client laws refl request

dirs : All IsName (codes "www" ∷ codes "srv" ∷ [])
dirs = ground arith

passwd_found : stat fresh (join (codes "/") (codes "etc/passwd")) ≡ some false
unfolding walk stat
passwd_found = refl

serve_http_climbs_example :
    (s' : Response) × (serve_http site files
        (some static)
        (record { is_get = true; url_path = codes "/../../etc/passwd" })
        fresh
      ≡ ok (tt, s'))
    × (s'
        ≡ response_for site files client
            (join (codes "/") (codes "etc/passwd"))
            (some (codes "root"))
            100)
serve_http_climbs_example =
    serve_http_climbs site files client laws joins static (codes "www") (codes "srv" ∷ [])
      (codes "etc/passwd") fresh refl dirs passwd_found refl
