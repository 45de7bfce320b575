-- ===== src/Http/Request.antt =====
-- http/client: what the calls on an `info` make of a request. The two slices of header keys and
-- values, which are only ever changed together, are one list of pairs. `CanonicalMIMEHeaderKey`,
-- `strings.ToLower`, the writing of values as text and what the JSON, URL, multipart and HTTP
-- libraries do are parameters. An error is its message.
pub mod Make
pub mod Send
pub mod ContentType
pub mod Calls
use lemo.Base.{
  Bytes, codes, ℕ, ◌+◌, ◌-◌, ◌/◌, List, [], ◌∷◌, ◌++◌, Option, none, str_eq, map, if◌then◌else◌,
  ◌⊎◌,
}

abbrev pub content_type : Bytes
content_type = codes "Content-Type"

abbrev pub form_type : Bytes
form_type = codes "application/x-www-form-urlencoded"

abbrev pub json_type : Bytes
json_type = codes "application/json"

abbrev pub multipart_type : Bytes
multipart_type = codes "multipart/form-data"

-- `X` is a thing for JSON and `V` a value of a form; a map is the pairs that a loop over it meets.
pub data Body (X V : Type 0) : Type 0 where
  no_body : Body X V
  things : List X → Body X V
  maps : List (List (Bytes × V)) → Body X V

-- `Q` is a request, `U` a parsed URL, `M` a multipart writer and `C` a cookie.
pub record Library (X V Q U M C : Type 0) : Type 0 where
  pub canonical : Bytes → Bytes
  pub to_lower : Bytes → Bytes
  pub text : V → Bytes
  pub marshal : X → Bytes ⊎ Bytes
  pub parse_url : Bytes → Bytes ⊎ U
  pub raw_query : U → Bytes
  pub with_raw_query : U → Bytes → U
  pub url_text : U → Bytes
  pub encode : List (Bytes × Bytes) → Bytes
  pub new_writer : M
  pub write_field : Bytes → V → M → Bytes ⊎ M
  pub close_writer : M → Bytes ⊎ M
  pub written : M → Bytes
  pub form_data_content_type : M → Bytes
  pub new_request : Bytes → Bytes → Bytes → Bytes ⊎ Q
  pub cookie_text : C → Bytes

-- What `Timeout`, `KeepAlive`, `Proxy` and `Progress` set; 0 and none leave the setting of the
-- client. A progress is its rate.
pub record Options : Type 0 where
  pub timeout : ℕ
  pub keep_alive : ℕ
  pub proxy : Option Bytes
  pub progress : Option ℕ

pub record Info (X V C : Type 0) : Type 0 where
  pub method : Bytes
  pub url : Bytes
  pub headers : List (Bytes × Bytes)
  pub cookies : List C
  pub body : Body X V
  pub user_name : Bytes
  pub pass_word : Bytes
  pub options : Options

module _ {X V Q U M C : Type 0} (library : Library X V Q U M C) where
  open library use {canonical, to_lower, text}

  -- The loop of `SetHeader`: the value beside the first key that is the same when both are written
  -- canonically, or else a new pair, with the key as it was given.
  unfoldable pub set_in : Bytes → Bytes → List (Bytes × Bytes) → List (Bytes × Bytes)
  set_in key value [] = (key, value) ∷ []
  set_in key value ((k, v) ∷ hs) =
      let rest = set_in key value hs in
      if str_eq (canonical k) (canonical key) then (k, value) ∷ hs else (k, v) ∷ rest

  unfoldable pub set_header : Info X V C → Bytes → Bytes → Info X V C
  unfolding set_in
  set_header h key value = record h { headers = set_in key value h.headers }

  unfoldable pub add_header : Info X V C → Bytes → Bytes → Info X V C
  add_header h key value = record h { headers = h.headers ++ ((canonical key, value) ∷ []) }

  unfoldable pub set_headers : Info X V C → List (Bytes × Bytes) → Info X V C
  set_headers h hs = record h { headers = map (λ (k, v). (canonical k, v)) hs }

  unfoldable pub set_basic_auth : Info X V C → Bytes → Bytes → Info X V C
  set_basic_auth h user pass = record h { user_name = user; pass_word = pass }

  unfoldable pub set_timeout : Info X V C → ℕ → Info X V C
  set_timeout h n = record h { options = record h.options { timeout = n } }

  unfoldable pub set_keep_alive : Info X V C → ℕ → Info X V C
  set_keep_alive h n = record h { options = record h.options { keep_alive = n } }

  unfoldable pub set_progress : Info X V C → Option ℕ → Info X V C
  set_progress h rate = record h { options = record h.options { progress = rate } }

  unfoldable pub add_cookie_in : C → List C → List C
  add_cookie_in c [] = c ∷ []
  add_cookie_in c (d ∷ cs) =
      let rest = add_cookie_in c cs in
      if str_eq (library.cookie_text d) (library.cookie_text c) then c ∷ cs else d ∷ rest

  unfoldable pub add_cookie : Info X V C → C → Info X V C
  unfolding add_cookie_in
  add_cookie h c = record h { cookies = add_cookie_in c h.cookies }

  unfoldable pub set_cookies : Info X V C → List C → Info X V C
  set_cookies h cs = record h { cookies = cs }

  abbrev pub new_info : Bytes → Bytes → Info X V C
  new_info method url = record {
    method = method;
    url = url;
    headers = [];
    cookies = [];
    body = no_body;
    user_name = [];
    pass_word = [];
    options = record { timeout = 0; keep_alive = 0; proxy = none; progress = none };
  }

  -- `Get`, `Head` and `Post` of `client`.
  unfoldable pub get : Bytes → Info X V C
  get url = new_info (codes "GET") url

  unfoldable pub head : Bytes → Info X V C
  head url = new_info (codes "HEAD") url

  unfoldable pub post : Bytes → Info X V C
  unfolding set_header
  post url = set_header (new_info (codes "POST") url) content_type form_type

  -- `getContentType`
  unfoldable pub type_in : List (Bytes × Bytes) → Bytes
  type_in [] = []
  type_in ((k, v) ∷ hs) = let rest = type_in hs in if str_eq k content_type then v else rest

  unfoldable pub get_content_type : Info X V C → Bytes
  unfolding type_in
  get_content_type h = type_in h.headers
