-- ===== src/Server/Process.antt =====
-- `process` of socket/tcp/server/server.go over the reader and the decoder. Its loop is that of the
-- tcp client (Client.Read).
use lemo.Base.{
  Bytes, ℕ, ◌≡◌, refl, ◌∙◌, sym, ap, Bool, true, Option, List, [], ◌∷◌, map, All, concat,
}
use lemo.Base.Io.{Io, then_with, then_with-cong}
use lemo.Client.Read
use lemo.Client.Read.{deliver, after_read}
use lemo.Client.Read.Cuts.{read_loop_cuts, read_loop-deliver}
use lemo.Connections.{Conn}
use lemo.Protocol.{decode}
use lemo.Protocol.Delivery.{Message, wire, IsSendable, wires-IsFrame}
use lemo.Protocol.Reader.{Reader, Status, start, read, read_on, invalid_header, out_of_fuel}
use lemo.Server.{serve, Net, State, Server, deliver_frames, read_loop, process}
use lemo.Socket.Dispatch.{decode_message}
use lemo.Socket.Dispatch.Delivered.{handle_all, deliver-wire}
use lemo.Socket.MessageType

module _ {U N X : Type 0} (net : Net U N) (server : Server U N X) where
  abbrev decodes : Conn N → Bytes → Io (State U N) (Option Bytes)
  decodes conn = decode_message server.site conn

  deliver_frames-deliver :
      (conn : Conn N) (frames : List Bytes) (s : State U N)
      → deliver_frames net server conn frames s
        ≡ deliver server.on_error_callback (decodes conn) frames s
  unfolding deliver_frames deliver
  deliver_frames-deliver conn [] s = refl
  deliver_frames-deliver conn (f ∷ fs) s =
      then_with-cong (decode_message server.site conn f s) _ _
        (λ _ s'. deliver_frames-deliver conn fs s')

  after_read-cong :
      (conn : Conn N) (status : Status) (k l : Io (State U N) (Unit {0}))
      → ((s : State U N) → k s ≡ l s)
      → (s : State U N)
      → lemo.Server.after_read net server status k s
        ≡ after_read server.on_error_callback (decodes conn) status l s
  after_read-cong conn read_on k l h s = h s
  after_read-cong conn invalid_header k l h s = refl
  after_read-cong conn out_of_fuel k l h s = refl

  -- The loops of the server and of the client are the same.
  read_loop-read_loop :
      (known : ℕ → Bool) (conn : Conn N) (r : Reader) (chunks : List Bytes) (s : State U N)
      → read_loop net server known conn r chunks s
        ≡ Read.read_loop server.on_error_callback (decodes conn) known r chunks s
  unfolding read_loop Read.read_loop
  read_loop-read_loop known conn r [] s = refl
  read_loop-read_loop known conn r (c ∷ cs) s =
      let f = read known r c in
      ap
        (λ ran. then_with ran (λ _.
          lemo.Server.after_read net server f.status (read_loop net server known conn f.reader cs)))
        (deliver_frames-deliver conn f.frames s)
      ∙ then_with-cong (deliver server.on_error_callback (decodes conn) f.frames s) _ _ (λ _ s'.
        after_read-cong conn f.status _ _ (read_loop-read_loop known conn f.reader cs) s')

  -- How the network cuts the bytes of a connection into reads does not matter: `process` does the
  -- same to the state, callbacks and panics included, for any two cuts of the same bytes.
  pub process_cuts :
      (known : ℕ → Bool) (net_conn : N) (chunks cuts : List Bytes)
      → concat chunks ≡ concat cuts
      → (s : State U N)
      → process net server known net_conn chunks s ≡ process net server known net_conn cuts s
  unfolding process serve
  process_cuts known net_conn chunks cuts e s =
      ap (λ loop. serve net server net_conn loop s)
        (λ i conn s'.
          (read_loop-read_loop known conn start chunks s'
              ∙ read_loop_cuts server.on_error_callback (decodes conn) known chunks cuts e s'
              ∙ sym (read_loop-read_loop known conn start cuts s'))
            i)

  -- A client that sends messages the format can carry, however the network cuts them: `process`
  -- opens the connection, gives the middleware and handlers exactly those messages in order, each
  -- with its id, route and body, and closes the connection, with no error from the reader. The
  -- protocol is the default one, and its message types contain `Bin`.
  pub process_delivers :
      (known : ℕ → Bool) (net_conn : N) (ps : List Message) (chunks : List Bytes)
      → known MessageType.bin ≡ true
      → server.site.decode ≡ decode known
      → All IsSendable ps
      → concat chunks ≡ concat (map wire ps)
      → (s : State U N)
      → process net server known net_conn chunks s
        ≡ serve net server net_conn (λ conn. handle_all server.site conn ps) s
  unfolding process
  process_delivers known net_conn ps chunks b d h e s =
      ap (λ loop. serve net server net_conn loop s)
        (λ i conn s'.
          (read_loop-read_loop known conn start chunks s'
              ∙ read_loop-deliver server.on_error_callback (decodes conn) known (map wire ps) chunks
                  (wires-IsFrame known b ps h) e s'
              ∙ deliver-wire server.site conn known b d server.on_error_callback ps h s')
            i)
