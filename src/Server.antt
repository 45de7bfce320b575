-- ===== src/Server.antt =====
-- The tcp server, socket/tcp/server/server.go, and the methods of its `Conn`, conn.go, over the
-- connection table, the reader and the dispatch of the modules above it. The websocket server
-- pushes and emits with the same code. The network is a parameter: each of its calls may
-- change the environment `U`, which also holds what the user's callbacks change.
pub mod Emit
pub mod Process
pub mod Routed
pub mod Startup
pub mod Conns
use lemo.Base.{
  Bytes, ℕ, zero, suc, ◌+◌, ◌==◌, Bool, true, false, List, [], ◌∷◌, ◌++◌, Option, none, some,
  Outcome, ok, panic, ◌⊎◌, inl, inr,
}
use lemo.Base.Io.{Io, pure, ◌>>=◌, ◌>>◌, then_with, call_if_set}
use lemo.Connections.{Conn, Table, add_connect, del_connect, get_connection}
use lemo.Protocol.Words.{ℤ, pos}
use lemo.Protocol.Reader.{Reader, Fed, Status, start, read, read_on, invalid_header, out_of_fuel}
use lemo.Socket.{Pack, ValuePack}
use lemo.Socket.MessageType
use lemo.Socket.Dispatch.{Site, decode_message}

-- The calls on a network connection, each with its error. The deadline is `HeartBeatTimeout` from
-- the time of the call.
pub record Net (U N : Type 0) : Type 0 where
  pub write : N → Bytes → U → Option Bytes × U
  pub close : N → U → Option Bytes × U
  pub set_read_deadline : N → U → Option Bytes × U
  pub set_read_buffer : N → U → Option Bytes × U
  pub set_write_buffer : N → U → Option Bytes × U

pub record State (U N : Type 0) : Type 0 where
  pub table : Table N
  pub env : U

-- "client is close", "fd not found" and "invalid header"
abbrev pub client_is_close : Bytes
client_is_close =
    99 ∷ 108 ∷ 105 ∷ 101 ∷ 110 ∷ 116 ∷ 32 ∷ 105 ∷ 115 ∷ 32 ∷ 99 ∷ 108 ∷ 111 ∷ 115 ∷ 101 ∷ []

abbrev pub fd_not_found : Bytes
fd_not_found = 102 ∷ 100 ∷ 32 ∷ 110 ∷ 111 ∷ 116 ∷ 32 ∷ 102 ∷ 111 ∷ 117 ∷ 110 ∷ 100 ∷ []

abbrev pub invalid_header_error : Bytes
invalid_header_error =
    105 ∷ 110 ∷ 118 ∷ 97 ∷ 108 ∷ 105 ∷ 100 ∷ 32 ∷ 104 ∷ 101 ∷ 97 ∷ 100 ∷ 101 ∷ 114 ∷ []

abbrev pub count_success : ℕ → Option Bytes → ℕ
count_success success none = success + 1
count_success success (some err) = success

module _ {U N : Type 0} where
  -- A call of the environment.
  abbrev pub with_env : {A : Type 0} → (U → A × U) → Io (State U N) A
  with_env f s = let (a, u) = f s.env in ok (a, record s { env = u })

  abbrev pub on_table : {A : Type 0} → (Table N → A × Table N) → Io (State U N) A
  on_table f s = let (a, t) = f s.table in ok (a, record s { table = t })

  -- `if err != nil { panic(err) }`
  abbrev pub must : Option Bytes → Io (State U N) (Unit {0})
  must none = pure tt
  must (some err) = λ s. panic

  abbrev pub conn_at : ℕ → Io (State U N) (Option (Conn N))
  conn_at fd s = ok (get_connection s.table fd, s)

  -- The loop of `EmitAll`, `JsonEmitAll` and `ProtoBufEmitAll` over the descriptors, in the order in
  -- which `range` yields them, with its two counters; `send` is the emit to one of them.
  unfoldable pub emit_all :
      (send : ℕ → Io (State U N) (Option Bytes))
      → List ℕ
      → (counter success : ℕ) → Io (State U N) (ℕ × ℕ)
  emit_all send [] counter success = pure (counter, success)
  emit_all send (fd ∷ fds) counter success =
      send fd >>= λ err. emit_all send fds (counter + 1) (count_success success err)

module _ {U N : Type 0} (net : Net U N) where
  -- `Push`, with `Conn.Write`, which is one locked write to the network connection.
  unfoldable pub push : ℕ → Bytes → Io (State U N) (Option Bytes)
  push fd msg = conn_at fd >>= λ found. elim found [
    | none ↦ pure (some client_is_close)
    | some conn ↦ with_env (net.write conn.net_conn msg)
  ]

  -- `Close`, with `Conn.Close`.
  unfoldable pub close : ℕ → Io (State U N) (Option Bytes)
  close fd = conn_at fd >>= λ found. elim found [
    | none ↦ pure (some fd_not_found)
    | some conn ↦ with_env (net.close conn.net_conn)
  ]

  module _ (encode : ℕ → ℤ → Bytes → Bytes → Bytes) where
    unfoldable pub emit : ℕ → Pack → Io (State U N) (Option Bytes)
    unfolding push
    emit fd pack = push fd (encode MessageType.bin pack.id pack.event pack.payload)

    -- `JsonEmit` and `ProtoBufEmit`, by the library that marshals the value.
    unfoldable pub value_emit :
        {D : Type 0} → (D → Bytes ⊎ Bytes) → ℕ → ValuePack D → Io (State U N) (Option Bytes)
    value_emit marshal fd pack = elim (marshal pack.value) [
      | inl err ↦ pure (some err)
      | inr encoded ↦ push fd (encode MessageType.bin pack.id pack.event encoded)
    ]

-- The server's own fields: those that dispatch reads, and the callbacks that `Ready` makes non-nil.
pub record Server (U N X : Type 0) : Type 0 where
  pub site : Site (State U N) (Conn N) X
  pub on_open_callback : Conn N → Io (State U N) (Unit {0})
  pub on_close_callback : Conn N → Io (State U N) (Unit {0})
  pub on_error_callback : Bytes → Io (State U N) (Unit {0})

module _ {U N X : Type 0} (net : Net U N) (server : Server U N X) where
  open server use {site, on_open_callback, on_close_callback, on_error_callback}

  -- `onOpen`, with the connection as `addConnect` leaves it.
  unfoldable pub on_open : Conn N → Io (State U N) (Conn N)
  on_open conn = on_table (λ t. let (t', conn') = add_connect t conn in (conn', t')) >>= λ conn'.
      on_open_callback conn' >> pure conn'

  -- `onClose`
  unfoldable pub on_close : Conn N → Io (State U N) (Unit {0})
  on_close conn = with_env (net.close conn.net_conn) >>= λ _.
      on_table (λ t. (tt, del_connect t conn)) >> on_close_callback conn

  -- The messages of one call of the reader, given to `decodeMessage` one by one. Its error is
  -- assigned to `err`, which the result of the reader then overwrites.
  unfoldable pub deliver_frames : Conn N → List Bytes → Io (State U N) (Unit {0})
  deliver_frames conn [] = pure tt
  deliver_frames conn (frame ∷ frames) =
      decode_message site conn frame >>= λ _. deliver_frames conn frames

  -- After a call of the reader: the next round, or `onError` and the end of the loop.
  abbrev pub after_read : Status → Io (State U N) (Unit {0}) → Io (State U N) (Unit {0})
  after_read read_on next = next
  after_read invalid_header next = on_error_callback invalid_header_error
  after_read out_of_fuel next = pure tt

  -- The loop of `process` over what `netConn.Read` returns: chunks, and then an error.
  unfoldable pub read_loop : (ℕ → Bool) → Conn N → Reader → List Bytes → Io (State U N) (Unit {0})
  read_loop known conn reader [] = pure tt
  read_loop known conn reader (chunk ∷ chunks) =
      let result = read known reader chunk in
      let next : Io (State U N) (Unit {0}) = read_loop known conn result.reader chunks in
      deliver_frames conn result.frames >> after_read result.status next

  -- `process` around its loop. The two buffer calls panic on an error.
  unfoldable pub serve : N → (Conn N → Io (State U N) (Unit {0})) → Io (State U N) (Unit {0})
  serve net_conn loop = with_env (net.set_read_deadline net_conn) >>= λ err. elim err [
    | some e ↦ on_error_callback e
    | none ↦
        (with_env (net.set_read_buffer net_conn) >>= must)
        >> ((with_env (net.set_write_buffer net_conn) >>= must)
            >> (on_open (record { fd = 0; net_conn = net_conn }) >>= λ conn.
                loop conn >> on_close conn))
  ]

  unfoldable pub process : (ℕ → Bool) → N → List Bytes → Io (State U N) (Unit {0})
  unfolding serve read_loop
  process known net_conn chunks = serve net_conn (λ conn. read_loop known conn start chunks)
