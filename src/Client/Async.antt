-- ===== src/Client/Async.antt =====
-- `Async` of socket/tcp/client/async.go, and of its udp and websocket copies: a call that registers
-- a route for the event of the pack, sends the pack, and waits for one message or the timeout. The
-- removal is deferred, so it comes last on each way out. What the wait ends with is an argument;
-- the router is the client's own, and nothing else changes it meanwhile.
pub mod Forgets
pub mod Waits
use lemo.Base.{Bytes, codes, ℕ, Option, none, some, ◌⊎◌, inl, inr, [], ◌∷◌, Outcome, ok, ◌>>=◌}
use lemo.Router.{Tire, Node, Store, Router, new_group, new_route, route_handler, client_remove}

-- `Emit`: the error of sending, the timeout (none), or the stream of the answer.
abbrev pub answered : {X : Type 0} → Option Bytes → Option X → Bytes ⊎ X
answered (some err) reply = inl err
answered none none = inl (codes "timeout")
answered none (some stream) = inr stream

module _ {H X : Type 0} (tire : Tire (Node H)) (to_lower : Bytes → Bytes) (grow : ℕ → ℕ → ℕ) where
  -- `Emit`, `JsonEmit` and `ProtoBufEmit`, which differ in the emit that they call. `fn` is the
  -- handler that sends the stream on the channel of the call.
  unfoldable pub async_emit :
      Store H
      → Router tire to_lower grow
      → (info : Bytes) → (fn : H) → (event : Bytes) → (sent : Option Bytes) → (reply : Option X)
      → Outcome ((Bytes ⊎ X) × Store H × Router tire to_lower grow)
  unfolding route_handler client_remove new_group new_route
  async_emit st router info fn event sent reply =
      route_handler tire to_lower grow st router (new_route (new_group ([] ∷ [])) event) info fn
      >>= λ (st', router', node).
          client_remove tire to_lower grow router' (event ∷ []) >>= λ router''.
          ok (answered sent reply, st', router'')

  -- `Emit` of the udp and the websocket client, the same code.
  unfoldable pub udp_async_emit :
      Store H
      → Router tire to_lower grow
      → (info : Bytes) → (fn : H) → (event : Bytes) → (sent : Option Bytes) → (reply : Option X)
      → Outcome ((Bytes ⊎ X) × Store H × Router tire to_lower grow)
  unfolding async_emit
  udp_async_emit = async_emit

  unfoldable pub websocket_async_emit :
      Store H
      → Router tire to_lower grow
      → (info : Bytes) → (fn : H) → (event : Bytes) → (sent : Option Bytes) → (reply : Option X)
      → Outcome ((Bytes ⊎ X) × Store H × Router tire to_lower grow)
  unfolding async_emit
  websocket_async_emit = async_emit
