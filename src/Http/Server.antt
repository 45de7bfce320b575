-- ===== src/Http/Server.antt =====
-- http/server/server.go: `ServeHTTP`, `staticHandler`, `process`, `middleware` and `handler`. The
-- state `S` holds the request, the response and the stream, which handlers get by pointer, beside
-- what the callbacks change. The file system and the response are parameters.
pub mod Handled
pub mod Response
pub mod Files
pub mod Climbs
pub mod Routes
use lemo.Base.{
  Bytes, codes, ℕ, Bool, true, false, List, [], ◌∷◌, ◌++◌, Option, none, some, if◌then◌else◌,
  str_eq, length, drop, take, ◌&&◌, not, Outcome, ok, panic,
}
use lemo.Base.Io.{Io, pure, ◌>>=◌, ◌>>◌, call_if_set}
use lemo.Params.{Params}
use mathlib.Core.List.{reverse}

-- `S` is the state. An error is its message.
module _ (S : Type 0) where
  abbrev pub Handler : Type 0
  Handler = Io S (Option Bytes)

  abbrev pub Middle : Type 0
  Middle = Io S (Unit {0})

  -- What `handler` reads of a `node`, with the parameters that `getRoute` and `ParseParams` give.
  pub record Found : Type 0 where
    pub function : Option Handler
    pub before : List Handler
    pub after : List Handler
    pub params : Params

  pub record Site : Type 0 where
    pub on_open : Option (Unit {0} → Io S (Unit {0}))
    pub on_message : Option (Unit {0} → Io S (Unit {0}))
    pub on_close : Option (Unit {0} → Io S (Unit {0}))
    pub on_error : Option (Bytes → Io S (Unit {0}))
    pub path : S → Bytes
    pub get_route : Io S (Option Found)
    pub write_header : ℕ → Io S (Unit {0})
    pub set_params : Params → Io S (Unit {0})
    pub middle : List (Middle → Middle)

pub record Request : Type 0 where
  pub is_get : Bool
  pub url_path : Bytes

-- The fields of the router that `ServeHTTP` reads; none is a nil router.
pub record StaticRouter : Type 0 where
  pub prefix_path : Bytes
  pub static_path : Bytes
  pub default_index : Bytes

abbrev pub is_empty : Bytes → Bool
is_empty [] = true
is_empty (c ∷ s) = false

-- What `staticHandler` uses: `filepath.Join`, `os.Stat` (none on an error, else whether the file
-- is a directory), the type by the extension, the reading of a file, and the response.
pub record FileSystem (S : Type 0) : Type 0 where
  pub join : Bytes → Bytes → Bytes
  pub stat : S → Bytes → Option Bool
  pub content_type : Bytes → Bytes
  pub read_file : Bytes → Io S (Option Bytes)
  pub set_content_type : Bytes → Io S (Unit {0})
  pub write : Bytes → Io S (Option Bytes)

abbrev pub has_prefix : Bytes → Bytes → Bool
has_prefix p s = str_eq (take (length p) s) p

-- A directory stands for its index; the last two are what `os.Stat` gives for the file and for the
-- index.
abbrev pub file_or_index : (file index : Bytes) → Option Bool → Option Bool → Option Bytes
file_or_index file index none at_index = none
file_or_index file index (some false) at_index = some file
file_or_index file index (some true) none = none
file_or_index file index (some true) (some dir) = some index

-- `Ready`
unfoldable pub ready : (addr : Bytes) → Outcome (Unit {0})
ready [] = panic
ready (c ∷ addr) = ok tt

module _ {S : Type 0} where
  abbrev pub unless_error : Handler S → Option Bytes → Handler S
  unless_error rest none = rest
  unless_error rest (some e) = pure (some e)

  -- One of the loops over `Before` and `After`, up to the first error.
  unfoldable pub run_until_error : List (Handler S) → Handler S
  run_until_error [] = pure none
  run_until_error (h ∷ hs) = h >>= unless_error (run_until_error hs)

  abbrev pub run_function : Option (Handler S) → Handler S
  run_function none = pure none
  run_function (some f) = f

  -- `OnError`, `OnClose` and `return`.
  abbrev pub give_up : Site S → Bytes → Io S (Unit {0})
  give_up site e = call_if_set site.on_error e >> call_if_set site.on_close tt

  abbrev pub unless_failed : Site S → Io S (Unit {0}) → Option Bytes → Io S (Unit {0})
  unless_failed site rest none = rest
  unless_failed site rest (some e) = give_up site e

  unfoldable pub run_node : Site S → Found S → Io S (Unit {0})
  unfolding run_until_error
  run_node site n =
      run_until_error n.before
      >>= unless_failed site (
          run_function n.function
          >>= unless_failed site (run_until_error n.after >>= unless_failed site (pure tt)))

  unfoldable pub handler : Site S → Io S (Unit {0})
  unfolding run_node
  handler site =
      call_if_set site.on_open tt
      >> (site.get_route >>= λ found. elim found [
        | none ↦
            site.write_header 404 >> (λ s. give_up site (site.path s ++ codes " 404 not found") s)
        | some n ↦ site.set_params n.params >> (call_if_set site.on_message tt >> run_node site n)
      ])

  unfoldable pub wrap : List (Middle S → Middle S) → Middle S → Middle S
  wrap [] next = next
  wrap (m ∷ ms) next = wrap ms (m next)

  -- `middleware`, and `process`, which is that on a new stream.
  unfoldable pub middleware : Site S → Io S (Unit {0})
  unfolding handler wrap
  middleware site = wrap (reverse site.middle) (handler site)

  -- `Use`, and `SetRouter` with what `getRoute` and `ParseParams` of the router give.
  unfoldable pub use_middle : List (Middle S → Middle S) → Site S → Site S
  use_middle middle site = record site { middle = site.middle ++ middle }

  unfoldable pub set_router : Io S (Option (Found S)) → Site S → Site S
  set_router get_route site = record site { get_route = get_route }

  -- `process`: `new_stream` puts a new stream of the request into the state.
  unfoldable pub process : (new_stream : Io S (Unit {0})) → Site S → Io S (Unit {0})
  unfolding middleware
  process new_stream site = new_stream >> middleware site

  -- The file of a path: none where `staticHandler` returns an error.
  unfoldable pub static_file : FileSystem S → (root prefix index path : Bytes) → S → Option Bytes
  static_file files root prefix index path s =
      if has_prefix prefix path
      then (let file = files.join root (drop (length prefix) path) in
          let indexed = files.join file index in
          file_or_index file indexed (files.stat s file) (files.stat s indexed))
      else none

  -- The rest of `staticHandler`: it answers, with the file or with 403.
  unfoldable pub serve_file : Site S → FileSystem S → Bytes → Io S (Unit {0})
  serve_file site files file = files.read_file file >>= λ contents. elim contents [
    | none ↦ site.write_header 403
    | some bts ↦
        files.set_content_type (files.content_type file)
        >> (files.write bts >>= λ err. elim err [ none ↦ pure tt | some e ↦ site.write_header 403 ])
  ]

  -- `ServeHTTP`
  unfoldable pub serve_http :
      Site S → FileSystem S → Option StaticRouter → Request → Io S (Unit {0})
  unfolding static_file serve_file middleware
  serve_http site files none request s = site.write_header 500 s
  serve_http site files (some router) request s =
      if not (is_empty router.static_path) && request.is_get
      then elim (static_file files router.static_path router.prefix_path router.default_index
          request.url_path s) [
            | none ↦ middleware site s
            | some file ↦ serve_file site files file s
          ]
      else middleware site s
