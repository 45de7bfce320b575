-- ===== src/Http/Request/Calls.antt =====
-- The rest of the calls of http/client: func.go, params.go, `Proxy` of info.go, `Rate` and
-- `OnProgress` of progress.go.
use lemo.Base.{
  Bytes, Bool, ◌||◌, if◌then◌else◌, Option, none, some, Outcome, ok, panic, ◌⊎◌, inl, inr,
}
use lemo.Http.Request.{Library, Info, get, head, post}
use lemo.Http.Request.Make.{Made}
use lemo.Http.Request.Send.{Exchange, Settings, Response, send, failed}

module _ {X V Q U M C : Type 0} (library : Library X V Q U M C) where
  -- `Get`, `Head` and `Post` of func.go, each on a client of its own.
  unfoldable pub new_get : Bytes → Info X V C
  unfolding get
  new_get url = get library url

  unfoldable pub new_head : Bytes → Info X V C
  unfolding head
  new_head url = head library url

  unfoldable pub new_post : Bytes → Info X V C
  unfolding post
  new_post url = post library url

  -- `Proxy`, which drops the error of the parsing; `proxy_url` is `http.ProxyURL`, none a nil URL.
  abbrev pub parsed : Bytes ⊎ U → Option U
  parsed (inl err) = none
  parsed (inr u) = some u

  unfoldable pub set_proxy : (proxy_url : Option U → Bytes) → Info X V C → Bytes → Info X V C
  set_proxy proxy_url h url = record h {
    options = record h.options { proxy = some (proxy_url (parsed (library.parse_url url))) };
  }

  module _ {W : Type 0} (exchange : Exchange Q C W) (defaults : Settings) where
    -- `params.Send`
    unfoldable pub params_send : Made library → Settings → W → Outcome (Response × Settings × W)
    unfolding send
    params_send (inl err, h) s w = ok (failed exchange defaults err, s, w)
    params_send (inr q, h) s w = send exchange defaults h q s w

  -- `params.Abort`: `cancel` is nil without a request.
  unfoldable pub abort : {W : Type 0} → (cancel : Q → W → W) → Made library → W → Outcome W
  abort cancel (inl err, h) w = panic
  abort cancel (inr none, h) w = panic
  abort cancel (inr (some q), h) w = ok (cancel q w)

-- A progress: its rate, and `onProgress`.
pub record Progress (N P : Type 0) : Type 0 where
  pub rate : N
  pub on_progress : Option P

-- `F` holds the floats: whether one is below 0.01 or above 100, and `int64(100 / rate)`.
module _ {F N P : Type 0} (below above : F → Bool) (one : F) (hundred_over : F → N) where
  unfoldable pub set_rate : Progress N P → F → Progress N P
  set_rate p rate = record p {
    rate = hundred_over (if below rate || above rate then one else rate);
  }

unfoldable pub set_on_progress : {N P : Type 0} → Progress N P → P → Progress N P
set_on_progress p fn = record p { on_progress = some fn }
