-- ===== src/Http/Stream/Answers.antt =====
-- What a handler reads of a request besides its values, and how it answers: http/http_stream.go.
use lemo.Base.{ℕ, inl, inr, Bytes, codes, [], ◌∷◌, ◌++◌, Option, none, some, ◌==◌, if◌then◌else◌}
use lemo.Http.Stream.{Library, Stream}

module _ {W F J X : Type 0} (library : Library W F J X) where
  abbrev pub or_else : Bytes → Bytes → Bytes
  or_else [] t = t
  or_else (c ∷ s) t = c ∷ s

  unfoldable pub host : Stream library → Bytes
  host s = or_else (s.request.header (codes "Host")) s.request.host

  -- `strings.Split(s, ",")[0]`
  unfoldable pub before_comma : Bytes → Bytes
  before_comma [] = []
  before_comma (c ∷ s) = let rest = before_comma s in if c == b',' then [] else c ∷ rest

  abbrev pub some_or_empty : Option Bytes → Bytes
  some_or_empty none = []
  some_or_empty (some s) = s

  -- `ClientIP`
  unfoldable pub client_ip : Stream library → Bytes
  unfolding before_comma
  client_ip s = or_else (before_comma (s.request.header (codes "X-Forwarded-For"))) (
      or_else (s.request.header (codes "X-Real-IP"))
        (some_or_empty (library.split_host_port s.request.remote_addr)))

  unfoldable pub scheme : Stream library → Bytes
  scheme s = if s.request.is_tls then codes "https" else codes "http"

  abbrev pub with_mark : Bytes → Bytes → Bytes
  with_mark mark [] = []
  with_mark mark (c ∷ s) = mark ++ (c ∷ s)

  unfoldable pub url : Stream library → Bytes
  unfolding scheme host
  url s =
      (scheme s ++ (codes "://" ++ (host s ++ s.request.path)))
      ++ (with_mark (codes "?") s.request.raw_query ++ with_mark (codes "#") s.request.fragment)

  -- `SetHeader` and `Forward`
  unfoldable pub set_header : Bytes → Bytes → W → W
  set_header header content w = library.set_header header content w

  unfoldable pub forward : {S : Type 0} → (S → Option Bytes × S) → S → Option Bytes × S
  forward fn s = fn s

  -- `EndBytes` and `EndString`; the error is that of `Write`.
  unfoldable pub end_bytes : Bytes → W → Option Bytes × W
  end_bytes content w = library.write content w

  unfoldable pub end_string : Bytes → W → Option Bytes × W
  end_string text w = library.write text w

  -- What `End` is given: bytes, a string, or a value that `fmt.Sprintf` prints.
  pub data Content : Type 0 where
    byte_content : Bytes → Content
    text_content : Bytes → Content
    printed : X → Content

  unfoldable pub end : (sprint : X → Bytes) → Content → W → Option Bytes × W
  unfolding end_bytes end_string
  end sprint (byte_content b) w = end_bytes b w
  end sprint (text_content t) w = end_string t w
  end sprint (printed x) w = end_string (sprint x) w

  unfoldable pub end_json : X → W → Option Bytes × W
  unfolding set_header
  end_json value w =
      let w' = set_header (codes "Content-Type") (codes "application/json") w in
      elim (library.json.marshal value) [
        | inl err ↦ (some err, w')
        | inr bts ↦ library.write bts w'
      ]

  -- `JsonFormat`; `format` makes the value of the three fields.
  unfoldable pub json_format : (format : Bytes → ℕ → X → X) → Bytes → ℕ → X → W → Option Bytes × W
  unfolding end_json
  json_format format status code msg w = end_json (format status code msg) w

  unfoldable pub end_file : (sprint : X → Bytes) → Bytes → Content → W → Option Bytes × W
  unfolding end set_header
  end_file sprint name content w = end sprint content (
      set_header (codes "content-Disposition") (codes "attachment;filename=" ++ name)
        (set_header (codes "Content-Type") (codes "application/octet-stream") w))
