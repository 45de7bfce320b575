-- ===== src/Http/Request/Send.antt =====
-- `send` of http/client/do.go, and the progress of a download of progress.go. The shared client is
-- the settings that `send` changes for the request and sets back.
use lemo.Base.{
  Bytes, ℕ, ◌+◌, ◌-◌, ◌*◌, ◌==◌, leb, List, [], ◌∷◌, Option, none, some, if◌then◌else◌, Outcome, ok,
  panic, Bool, true, false, ◌⊎◌, inl, inr, length, concat, ◌&&◌,
}
use lemo.Http.Request.{Info, Options}

pub record Settings : Type 0 where
  pub timeout : ℕ
  pub keep_alive : ℕ
  pub proxy : Option Bytes
  pub disable_compression : Bool

-- `writeProgress`; the numbers stay below 2 ^ 63, and `total` is not negative.
pub record WriteProgress : Type 0 where
  pub total : ℕ
  pub current : ℕ
  pub last : ℕ
  pub rate : ℕ

-- A call of `onProgress`; the total is none for -1.
pub record Report : Type 0 where
  pub bytes : Bytes
  pub current : ℕ
  pub total : Option ℕ

unfoldable pub write_chunk : WriteProgress → Bytes → Option Report × WriteProgress
write_chunk w p =
    let current = w.current + length p in
    let last = w.last + length p * w.rate in
    if w.total == 0
    then (
      some (record { bytes = p; current = current; total = none }),
      record w { current = current },
    )
    else (if leb w.total last
        then (
          some (record { bytes = p; current = current; total = some w.total }),
          record w { current = current; last = last - w.total },
        )
        else (none, record w { current = current; last = last }))

abbrev pub with_report : Option Report → List Report → List Report
with_report none rs = rs
with_report (some r) rs = r ∷ rs

-- `io.TeeReader` gives each part of the body that is read to `Write`.
unfoldable pub write_chunks : WriteProgress → List Bytes → List Report
unfolding write_chunk
write_chunks w [] = []
write_chunks w (p ∷ ps) = let (r, w') = write_chunk w p in with_report r (write_chunks w' ps)

-- What the server answers: the parts of the body as they are read, and the error that ends them.
pub record Answer : Type 0 where
  pub code : ℕ
  pub content_length : ℕ
  pub parts : List Bytes
  pub failure : Option Bytes

pub record Response : Type 0 where
  pub err : Option Bytes
  pub code : ℕ
  pub contents : Bytes
  pub reports : List Report

-- The requests `Q` of the HTTP library, over the cookies `C`, and what `Do` does.
pub record Exchange (Q C W : Type 0) : Type 0 where
  pub add_header : Q → Bytes → Bytes → Q
  pub add_cookie : Q → C → Q
  pub set_basic_auth : Q → Bytes → Bytes → Q
  pub perform : Settings → Q → W → (Bytes ⊎ Answer) × W

module _ {Q C W : Type 0} (exchange : Exchange Q C W) (defaults : Settings) where
  unfoldable pub with_headers : List (Bytes × Bytes) → Q → Q
  with_headers [] q = q
  with_headers ((k, v) ∷ hs) q = with_headers hs (exchange.add_header q k v)

  unfoldable pub with_cookies : List C → Q → Q
  with_cookies [] q = q
  with_cookies (c ∷ cs) q = with_cookies cs (exchange.add_cookie q c)

  abbrev pub is_empty : Bytes → Bool
  is_empty [] = true
  is_empty (c ∷ s) = false

  -- The request as it is sent, and the settings it is sent with.
  unfoldable pub outgoing : {X V : Type 0} → Info X V C → Q → Q
  unfolding with_headers with_cookies
  outgoing h q =
      let sent = with_cookies h.cookies (with_headers h.headers q) in
      if is_empty h.user_name && is_empty h.pass_word
      then sent
      else exchange.set_basic_auth sent h.user_name h.pass_word

  abbrev pub has_progress : Option ℕ → Bool → Bool
  has_progress none b = b
  has_progress (some rate) b = true

  abbrev pub or_settings : Option Bytes → Option Bytes → Option Bytes
  or_settings none p = p
  or_settings (some q) p = some q

  unfoldable pub settings_for : Options → Settings → Settings
  settings_for o s = record {
    timeout = if o.timeout == 0 then s.timeout else o.timeout;
    keep_alive = if o.keep_alive == 0 then s.keep_alive else o.keep_alive;
    proxy = or_settings o.proxy s.proxy;
    disable_compression = has_progress o.progress s.disable_compression;
  }

  abbrev pub failed : Bytes → Response
  failed e = record { err = some e; code = 0; contents = []; reports = [] }

  abbrev pub reports_of : Option ℕ → Answer → List Report
  reports_of none a = []
  reports_of (some rate) a =
      write_chunks (record { total = a.content_length; current = 0; last = 0; rate = rate }) a.parts

  abbrev pub read_answer : Option ℕ → Bytes ⊎ Answer → Response
  read_answer progress (inl e) = failed e
  read_answer progress (inr a) = elim a.failure [
    | some e ↦ record { err = some e; code = 0; contents = []; reports = reports_of progress a }
    | none ↦ record {
      err = none;
      code = a.code;
      contents = concat a.parts;
      reports = reports_of progress a;
    }
  ]

  -- `send`. Without a request the deferred call of the nil `cancel` panics.
  unfoldable pub send :
      {X V : Type 0} → Info X V C → Option Q → Settings → W → Outcome (Response × Settings × W)
  unfolding outgoing settings_for write_chunks
  send h none s w = panic
  send h (some q) s w =
      let (answer, w') = exchange.perform (settings_for h.options s) (outgoing h q) w in
      ok (read_answer h.options.progress answer, defaults, w')
