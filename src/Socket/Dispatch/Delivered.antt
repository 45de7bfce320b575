-- ===== src/Socket/Dispatch/Delivered.antt =====
-- What `decodeMessage` of a server or client does for the messages that the other side encoded:
-- socket/tcp/server/server.go and client/client.go over protocol.go.
use lemo.Base.{Bytes, ℕ, ◌≡◌, refl, ap, ◌∙◌, Bool, true, List, [], ◌∷◌, map, none, some, All}
use lemo.Base.Io.{Io, pure, then_with, then_with_assoc, then_with-cong, ◌>>=◌, ◌>>◌}
use lemo.Protocol.{decode}
use lemo.Protocol.Delivery.{Message, wire, received, IsSendable}
use lemo.Protocol.RoundTrip.{decode-pack_bin}
use lemo.Socket.{Stream}
use lemo.Socket.Dispatch.{Site, decode_message, middleware, fresh_stream}
use lemo.Socket.MessageType
use lemo.Client.Read.{deliver}

module _ {S C X : Type 0} (site : Site S C X) (conn : C) where
  abbrev pub before : Message → Io S (Unit {0})
  before p = elim site.on_message [ none ↦ pure tt | some f ↦ f conn (wire p) ]

  abbrev pub inner : Message → Io S (Stream X)
  inner p = middleware site conn (fresh_stream (received p))

  -- What `decodeMessage` does for a message that was encoded, after it is decoded: `OnMessage`, and
  -- the middleware around the handler, on a fresh stream.
  unfoldable pub handle_all : List Message → Io S (Unit {0})
  handle_all [] = pure tt
  handle_all (p ∷ ps) = before p >> (inner p >>= λ _. handle_all ps)

  module _ (known : ℕ → Bool) (b : known MessageType.bin ≡ true) (d : site.decode ≡ decode known)
      (on_error : Bytes → Io S (Unit {0})) where
    decode_message-wire :
        (p : Message)
        → IsSendable p
        → (s : S)
        → decode_message site conn (wire p) s ≡ (before p >> (inner p >>= λ _. pure none)) s
    unfolding decode_message middleware
    decode_message-wire p k s =
        let decoded =
          ap (λ f. f (wire p)) d
          ∙ decode-pack_bin known b p.id p.route p.body k.body_fits k.id_fits k.route_fits in
        rw (decode_message, decoded) refl

    pub deliver-wire :
        (ps : List Message)
        → All IsSendable ps
        → (s : S) → deliver on_error (decode_message site conn) (map wire ps) s ≡ handle_all ps s
    unfolding deliver handle_all
    deliver-wire [] h s = refl
    deliver-wire (p ∷ ps) (k, h) s =
        ap (λ r. then_with r (λ _. deliver on_error (decode_message site conn) (map wire ps)))
          (decode_message-wire p k s)
        ∙ then_with_assoc (before p s) _ _
        ∙ then_with-cong (before p s) _ _ (λ _ s1.
          then_with_assoc (inner p s1) _ _
          ∙ then_with-cong (inner p s1) _ _ (λ _. deliver-wire ps h))
