-- ===== src/Transports/WebsocketServer/Process.antt =====
-- The loop of `process` of socket/websocket/server/server.go, and the messages that it handles.
use lemo.Base.{Bytes, ◌≡◌, refl, sym, ap, ◌∙◌, List, [], ◌∷◌, ◌++◌, none, some, ok}
use mathlib.Core.List.{append-nil}
use lemo.Connections.{Conn}
use lemo.Socket.Dispatch.{decode_message}
use lemo.Server.{Net, State, Server}
use lemo.Transports.WebsocketServer.{read_loop, keep_alive}

module _ {U N X : Type 0} (net : Net U N) (server : Server U N X) where
  -- The messages before the last, each handled without an error, with the state after them.
  pub data Handled (conn : Conn N) : List Bytes → State U N → State U N → Type 0 where
    done : {s : State U N} → Handled conn [] s s
    then_handled :
        {message : Bytes} {messages : List Bytes} {s t u v : State U N}
        → keep_alive net server conn message s ≡ ok (tt, t)
        → decode_message server.site conn message t ≡ ok (none, u)
        → Handled conn messages u v
        → Handled conn (message ∷ messages) s v

  read_loop-append :
      (conn : Conn N) (before rest : List Bytes) (s t : State U N)
      → Handled conn before s t
      → read_loop net server conn (before ++ rest) s ≡ read_loop net server conn rest t
  unfolding read_loop
  read_loop-append conn [] rest s t done = refl
  read_loop-append conn (m ∷ before) rest s t (then_handled k d h) =
      rw k (rw d (read_loop-append conn before rest _ t h))

  -- When no handler panics, the messages in front of the first one that fails are handled, in order; the error of that one
  -- goes to `onError` and ends the loop, and no message after it is decoded.
  pub read_loop_stops :
      (conn : Conn N) (before : List Bytes) (message : Bytes) (after : List Bytes)
      (s t u v : State U N) (err : Bytes)
      → Handled conn before s t
      → keep_alive net server conn message t ≡ ok (tt, u)
      → decode_message server.site conn message u ≡ ok (some err, v)
      → read_loop net server conn (before ++ (message ∷ after)) s ≡ server.on_error_callback err v
  unfolding read_loop
  read_loop_stops conn before message after s t u v err h kept failed =
      read_loop-append conn before (message ∷ after) s t h ∙ rw kept (rw failed)

  -- When every message is handled without an error, the loop ends in the state after the last.
  pub read_loop_ends :
      (conn : Conn N) (messages : List Bytes) (s t : State U N)
      → Handled conn messages s t
      → read_loop net server conn messages s ≡ ok (tt, t)
  unfolding read_loop
  read_loop_ends conn messages s t h =
      ap (λ ms. read_loop net server conn ms s) (sym (append-nil messages))
      ∙ read_loop-append conn messages [] s t h
