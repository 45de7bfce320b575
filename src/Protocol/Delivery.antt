-- ===== src/Protocol/Delivery.antt =====
-- From the packs that one side encodes to the messages that the other side decodes, through the
-- reader: socket/tcp/protocol.go, both directions.
use lemo.Base.{
  Bytes, ℕ, ◌%◌, ◌^◌, ◌<◌, ◌≡◌, refl, ◌∙◌, Bool, true, List, [], ◌∷◌, ◌++◌, arith, map, All, length,
  length-append, concat, ok,
}
use lemo.Socket.MessageType
use lemo.Protocol.{Decoded, get_len, pack_bin, decode}
use lemo.Protocol.Framed.{framed, get_len-framed, is_header_invalid-framed, length-framed}
use lemo.Protocol.RoundTrip.{pack_bin-framed, decode-pack_bin}
use lemo.Protocol.Words.{ℤ, IsInt64, to_uint64}
use lemo.Protocol.Reader.{start, read_on, read_all}
use lemo.Protocol.Reader.Stream.{IsFrame, read_all-frames}

-- What `Encode` is given for a message.
pub record Message : Type 0 where
  pub id : ℤ
  pub route : Bytes
  pub body : Bytes

abbrev pub wire : Message → Bytes
wire p = pack_bin p.id p.route p.body

abbrev pub received : Message → Decoded
received p = record { message_type = MessageType.bin; id = p.id; route = p.route; body = p.body }

-- A message that the format can carry.
pub record IsSendable (p : Message) : Type 0 where
  pub id_fits : IsInt64 p.id
  pub route_fits : length p.route < 240
  pub body_fits : length p.body < 2 ^ 32

module _ (known : ℕ → Bool) (bin_known : known MessageType.bin ≡ true) where
  pub wire-IsFrame : (p : Message) → IsSendable p → IsFrame known (wire p)
  wire-IsFrame p s =
      rw (pack_bin-framed p.id p.route p.body)
        (is_header_invalid-framed known _ _ _ _ _ ∙ bin_known, lengths)
    where
      lengths :
          get_len (
            framed MessageType.bin
              (length p.route % 256)
              (length p.body % 2 ^ 32)
              (to_uint64 p.id)
              (p.route ++ p.body))
          ≡ length (
              framed MessageType.bin
                (length p.route % 256)
                (length p.body % 2 ^ 32)
                (to_uint64 p.id)
                (p.route ++ p.body))
      lengths = omega (
        arith,
        s.route_fits,
        s.body_fits,
        get_len-framed MessageType.bin (length p.route % 256) (length p.body % 2 ^ 32)
            (to_uint64 p.id) (p.route ++ p.body) (omega arith),
        length-framed MessageType.bin (length p.route % 256) (length p.body % 2 ^ 32)
            (to_uint64 p.id) (p.route ++ p.body),
        length-append p.route p.body,
      )

  pub wires-IsFrame : (ps : List Message) → All IsSendable ps → All (IsFrame known) (map wire ps)
  wires-IsFrame [] h = tt
  wires-IsFrame (p ∷ ps) (s, h) = (wire-IsFrame p s, wires-IsFrame ps h)

  decodes :
      (ps : List Message)
      → All IsSendable ps
      → map (decode known) (map wire ps) ≡ map (λ p. ok (received p)) ps
  decodes [] h = refl
  decodes (p ∷ ps) (s, h) =
      rw (decode-pack_bin known bin_known p.id p.route p.body s.body_fits s.id_fits s.route_fits)
        (rw (decodes ps h))

  -- However a stream of messages that the format can carry is cut into chunks, when the type `Bin`
  -- is known: the reader delivers as many messages as were encoded, without an error, and `Decode`
  -- gives back each of them, in order, with its id, route and body.
  pub delivery :
      (ps : List Message) (chunks : List Bytes)
      → All IsSendable ps
      → concat chunks ≡ concat (map wire ps)
      → (map (decode known) (read_all known start chunks).frames ≡ map (λ p. ok (received p)) ps)
        × ((read_all known start chunks).status ≡ read_on)
  delivery ps chunks h e =
      let got = read_all-frames known (map wire ps) chunks (wires-IsFrame ps h) e in
      rw got (decodes ps h, refl)
