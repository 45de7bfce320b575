-- ===== src/Http/Stream.antt =====
-- `Stream` of http/http_stream.go: what a handler gets of a request. The state `W` of the
-- environment holds the body that is still unread and the response. The HTTP, URL and JSON libraries
-- are parameters; the entries of a map come in the order of the loop over it.
pub mod Branches
pub mod Parsed
pub mod Answers
use lemo.Base.{
  Bytes, codes, ℕ, Bool, true, false, List, [], Option, none, some, str_eq, length, take,
  if◌then◌else◌, Outcome, ok, panic, ◌>>=◌,
}
use lemo.Http.Store
use lemo.Http.Store.{Store, empty_store}
use lemo.Http.Store.Entries.{Entry, of_entries}
use lemo.Http.Json
use lemo.Http.Json.{JsonLibrary, Json}

-- What is read of `http.Request`; `header` is `Header.Get`.
pub record Request : Type 0 where
  pub method : Bytes
  pub header : Bytes → Bytes
  pub path : Bytes
  pub raw_query : Bytes
  pub fragment : Bytes
  pub host : Bytes
  pub remote_addr : Bytes
  pub is_tls : Bool

-- `ParseForm` gives `PostForm`, and `ParseMultipartForm` the values and the files of
-- `MultipartForm`; none is an error.
pub record Library (W F J X : Type 0) : Type 0 where
  pub to_upper : Bytes → Bytes
  pub parse_query : Bytes → Option (List Entry)
  pub parse_form : W → Option (List Entry) × W
  pub parse_multipart : ℕ → W → Option (List Entry × List (Bytes × List F)) × W
  pub read_body : W → Option Bytes × W
  pub json : JsonLibrary J Bytes X
  pub split_host_port : Bytes → Option Bytes
  pub set_header : Bytes → Bytes → W → W
  pub write : Bytes → W → Option Bytes × W

abbrev pub starts : Bytes → Bytes → Bool
starts s prefix = str_eq (take (length prefix) s) prefix

module _ {W F J X : Type 0} (library : Library W F J X) where
  -- `Form`, `Query`, `Json` and `Files` are nil at first.
  pub record Stream : Type 0 where
    pub request : Request
    pub query : Option Store
    pub form : Option Store
    pub json : Option (Json J)
    pub files : Option (Option (List (Bytes × List F)))
    pub max_memory : ℕ
    pub has_parse_query : Bool
    pub has_parse_form : Bool
    pub has_parse_json : Bool
    pub has_parse_files : Bool

  -- `NewStream`
  unfoldable pub new_stream : Request → Stream
  new_stream r = record {
    request = r;
    query = none;
    form = none;
    json = none;
    files = none;
    max_memory = 0;
    has_parse_query = false;
    has_parse_form = false;
    has_parse_json = false;
    has_parse_files = false;
  }

  unfoldable pub set_max_memory : Stream → ℕ → Stream
  set_max_memory s n = record s { max_memory = n }

  -- The loop that fills a store, which stays empty after an error.
  abbrev pub filled : Option (List Entry) → Store
  filled none = empty_store
  filled (some es) = of_entries es

  -- The parse functions. Each returns the field that it fills.
  unfoldable pub parse_query : Stream → W → Stream × W
  parse_query s w = if s.has_parse_query then (s, w) else (
    record s {
      has_parse_query = true;
      query = some (filled (library.parse_query s.request.raw_query));
    },
    w,
  )

  unfoldable pub parse_form : Stream → W → Stream × W
  parse_form s w =
      if s.has_parse_form
      then (s, w)
      else (let (parsed, w') = library.parse_form w in
          (record s { has_parse_form = true; form = some (filled parsed) }, w'))

  abbrev pub values_part : Option (List Entry × List (Bytes × List F)) → Option (List Entry)
  values_part none = none
  values_part (some (values, files)) = some values

  abbrev pub files_part :
      Option (List Entry × List (Bytes × List F)) → Option (List (Bytes × List F))
  files_part none = none
  files_part (some (values, files)) = some files

  unfoldable pub parse_multipart : Stream → W → Stream × W
  parse_multipart s w =
      if s.has_parse_form
      then (s, w)
      else (let (parsed, w') = library.parse_multipart s.max_memory w in
          (record s { has_parse_form = true; form = some (filled (values_part parsed)) }, w'))

  unfoldable pub parse_files : Stream → W → Stream × W
  parse_files s w =
      if s.has_parse_files
      then (s, w)
      else (let (parsed, w') = library.parse_multipart s.max_memory w in
          (record s { has_parse_files = true; files = some (files_part parsed) }, w'))

  abbrev pub json_of : Option Bytes → Json J
  json_of none = record { any = none }
  json_of (some body) = record { any = some (library.json.parse (some body)) }

  unfoldable pub parse_json : Stream → W → Stream × W
  parse_json s w =
      if s.has_parse_json
      then (s, w)
      else (let (body, w') = library.read_body w in
          (record s { has_parse_json = true; json = some (json_of body) }, w'))

  abbrev pub is_get : Request → Bool
  is_get r = str_eq (library.to_upper r.method) (codes "GET")

  abbrev pub content_type : Request → Bytes
  content_type r = r.header (codes "Content-Type")

  unfoldable pub auto_parse : Stream → W → Stream × W
  unfolding parse_query parse_form parse_multipart parse_files parse_json
  auto_parse s w =
      if is_get s.request
      then parse_query s w
      else (if starts (content_type s.request) (codes "multipart/form-data")
          then (let (s', w') = parse_multipart s w in parse_files s' w')
          else (if starts (content_type s.request) (codes "application/x-www-form-urlencoded")
              then parse_form s w
              else (if starts (content_type s.request) (codes "application/json")
                  then parse_json s w
                  else (s, w))))

  -- A method of a nil pointer panics.
  abbrev pub deref : {A : Type 0} → Option A → Outcome A
  deref none = panic
  deref (some a) = ok a

  -- A read of `Json` keeps the value that it had to make.
  abbrev pub with_json : {A : Type 0} → (Json J → A × Json J) → Stream → Outcome (A × Stream)
  with_json f s = deref s.json >>= λ j. let (a, j') = f j in ok (a, record s { json = some j' })

  abbrev pub with_store :
      {A : Type 0} → (Store → Outcome A) → Option Store → Stream → Outcome (A × Stream)
  with_store f store s = deref store >>= λ st. f st >>= λ a. ok (a, s)

  unfoldable pub auto_get : Stream → Bytes → Outcome (Option Bytes × Stream)
  auto_get s key =
      if is_get s.request
      then with_store (λ st. Store.first st key) s.query s
      else (if starts (content_type s.request) (codes "multipart/form-data")
          then with_store (λ st. Store.first st key) s.form s
          else (if starts (content_type s.request) (codes "application/x-www-form-urlencoded")
              then with_store (λ st. Store.first st key) s.form s
              else (if starts (content_type s.request) (codes "application/json")
                  then with_json (λ j. Json.get library.json j key) s
                  else ok (none, s))))

  -- `String`
  unfoldable pub to_string : Stream → Outcome (Bytes × Stream)
  to_string s =
      if is_get s.request
      then with_store Store.to_string s.query s
      else (if starts (content_type s.request) (codes "multipart/form-data")
          then with_store Store.to_string s.form s
          else (if starts (content_type s.request) (codes "application/x-www-form-urlencoded")
              then with_store Store.to_string s.form s
              else (if starts (content_type s.request) (codes "application/json")
                  then with_json (λ j. Json.to_string library.json j) s
                  else ok ([], s))))
