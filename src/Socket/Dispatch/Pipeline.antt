-- ===== src/Socket/Dispatch/Pipeline.antt =====
-- `handler` as one list of handlers: Before, the function and After.
use lemo.Base.{
  Bytes, ◌≡◌, refl, ap, sym, ◌∙◌, ◌⊎◌, inl, inr, List, [], ◌∷◌, ◌++◌, Option, none, some, Outcome,
  ok, panic,
}
use lemo.Base.Io.{Io, pure, then_with}
use lemo.Socket.{Stream}
use lemo.Socket.Dispatch.{
  Handler, Node, Found, Site, not_found, run_until_error, report, run_node, handler, unless_error,
  unless_failed,
}

-- The result of one handler or loop.
abbrev Ran : Type 0 → Type 0 → Type 0
Ran S X = Outcome ((Option Bytes × Stream X) × S)

module _ {S X : Type 0} (k l : Stream X → Io S (Option Bytes × Stream X)) where
  unless_error-unless_error :
      (r : Ran S X)
      → ((stream : Stream X) (s : S) → k stream s ≡ l stream s)
      → then_with r (unless_error k) ≡ then_with r (unless_error l)
  unless_error-unless_error panic h = refl
  unless_error-unless_error (ok ((some e, stream), s)) h = refl
  unless_error-unless_error (ok ((none, stream), s)) h = h stream s

  unless_error_assoc :
      (r : Ran S X)
      → then_with (then_with r (unless_error k)) (unless_error l)
        ≡ then_with r (unless_error (λ stream s. then_with (k stream s) (unless_error l)))
  unless_error_assoc panic = refl
  unless_error_assoc (ok ((some e, stream), s)) = refl
  unless_error_assoc (ok ((none, stream), s)) = refl

module _ {S C X : Type 0} (conn : C) where
  -- A list of handlers followed by another.
  pub run_until_error-append :
      (hs ks : List (Handler S C X)) (stream : Stream X) (s : S)
      → run_until_error (hs ++ ks) conn stream s
        ≡ then_with (run_until_error hs conn stream s) (unless_error (run_until_error ks conn))
  unfolding run_until_error
  run_until_error-append [] ks stream s = refl
  run_until_error-append (h ∷ hs) ks stream s =
      unless_error-unless_error _ _ (h conn stream s) (run_until_error-append hs ks)
      ∙ sym (unless_error_assoc _ (run_until_error ks conn) (h conn stream s))

module _ {S C X : Type 0} (site : Site S C X) where
  -- An error ends the stages in the same way whichever of them it comes from.
  unless_failed-unless_error :
      (k : Stream X → Io S (Option Bytes × Stream X)) (rest : Stream X → Io S (Stream X))
      (r : Ran S X)
      → then_with (then_with r (unless_error k)) (unless_failed site rest)
        ≡ then_with r
            (unless_failed site (λ stream s. then_with (k stream s) (unless_failed site rest)))
  unless_failed-unless_error k rest panic = refl
  unless_failed-unless_error k rest (ok ((some e, stream), s)) = refl
  unless_failed-unless_error k rest (ok ((none, stream), s)) = refl

  unless_failed-unless_failed :
      (k l : Stream X → Io S (Stream X)) (r : Ran S X)
      → ((stream : Stream X) (s : S) → k stream s ≡ l stream s)
      → then_with r (unless_failed site k) ≡ then_with r (unless_failed site l)
  unless_failed-unless_failed k l panic h = refl
  unless_failed-unless_failed k l (ok ((some e, stream), s)) h = refl
  unless_failed-unless_failed k l (ok ((none, stream), s)) h = h stream s

  -- The three stages of a node are one list of handlers.
  abbrev pub whole_list : Node S C X → List (Handler S C X)
  whole_list node = node.before ++ (node.function ∷ node.after)

  function_then_after :
      (node : Node S C X) (conn : C) (stream : Stream X) (s : S)
      → then_with
          (run_until_error (node.function ∷ node.after) conn stream s)
          (unless_failed site pure)
        ≡ then_with (node.function conn stream s) (
            unless_failed site λ stream s.
              then_with (run_until_error node.after conn stream s) (unless_failed site pure))
  unfolding run_until_error
  function_then_after node conn stream s =
      unless_failed-unless_error (run_until_error node.after conn) pure
        (node.function conn stream s)

  pub run_node-run_until_error :
      (node : Node S C X) (conn : C) (stream : Stream X) (s : S)
      → run_node site node conn stream s
        ≡ then_with (run_until_error (whole_list node) conn stream s) (unless_failed site pure)
  unfolding run_node
  run_node-run_until_error node conn stream s =
      let rest = node.function ∷ node.after in
      unless_failed-unless_failed _ _ (run_until_error node.before conn stream s)
        (λ stream s. sym (function_then_after node conn stream s))
      ∙ sym (
          ap (λ r. then_with r (unless_failed site pure))
            (run_until_error-append conn node.before rest stream s)
          ∙ unless_failed-unless_error (run_until_error rest conn) pure
              (run_until_error node.before conn stream s))

  -- The stream that the handlers of a node get.
  abbrev pub with_params : Found S C X → Stream X → Stream X
  with_params n stream = record stream { params = record { keys = n.keys; values = n.values } }

  module _ (conn : C) (stream : Stream X) (s s1 : S) (n : Found S C X)
      (get_route : Bytes → Io S (Option (Found S C X))) (routes : site.get_route ≡ some get_route)
      (found : get_route stream.event s ≡ ok (some n, s1)) where
    handler-run_node :
        handler site conn stream s ≡ run_node site n.node conn (with_params n stream) s1
    unfolding handler
    handler-run_node = rw routes (rw (found, then_with))

    -- When a route is found, `handler` runs Before, the function and After as one list, with the
    -- parameters of the route in the stream, up to the first error, which it reports.
    pub handler-run_until_error :
        handler site conn stream s
        ≡ then_with
            (run_until_error (whole_list n.node) conn (with_params n stream) s1)
            (unless_failed site pure)
    handler-run_until_error =
        handler-run_node ∙ run_node-run_until_error n.node conn (with_params n stream) s1

    -- When a route is found, the first handler that fails ends the message: what stands behind it in the list does not
    -- run, and `OnError` gets its error, once.
    pub handler_stops :
        (hs ks : List (Handler S C X)) (h : Handler S C X)
        → whole_list n.node ≡ hs ++ (h ∷ ks)
        → (stream2 stream3 : Stream X) (s2 s3 : S) (e : Bytes)
        → run_until_error hs conn (with_params n stream) s1 ≡ ok ((none, stream2), s2)
        → h conn stream2 s2 ≡ ok ((some e, stream3), s3)
        → handler site conn stream s ≡ report site e stream3 s3
    unfolding run_until_error
    handler_stops hs ks h split stream2 stream3 s2 s3 e passed failed =
        handler-run_until_error
        ∙ rw split (
            rw (run_until_error-append conn hs (h ∷ ks) (with_params n stream) s1)
              (rw (passed, then_with) (rw (failed, then_with))))

-- Without a router, and with one that has no route for the event, `handler` reports that the event
-- was not found, and runs no handler.
pub handler-not_found :
    {S C X : Type 0} (site : Site S C X) (conn : C) (stream : Stream X) (s s1 : S)
    → ((site.get_route ≡ none) × (s1 ≡ s))
      ⊎ ((g : Bytes → Io S (Option (Found S C X))) × (site.get_route ≡ some g)
          × (g stream.event s ≡ ok (none, s1)))
    → handler site conn stream s ≡ report site (stream.event ++ not_found) stream s1
unfolding handler
handler-not_found site conn stream s s1 (inl (e, same)) = rw e (rw same)
handler-not_found site conn stream s s1 (inr (g, e, missing)) = rw e (rw (missing, then_with))
