-- ===== src/Protocol/Total.antt =====
-- On which bytes `Decode` of socket/tcp/protocol.go returns.
use lemo.Base.{
  Bytes, ℕ, ◌+◌, ◌^◌, ◌≤◌, ◌<◌, ◌≡◌, sym, subst, ◌⊎◌, inl, inr, Bool, true, arith, Bool-cases,
  length, get_or, get_or_all, ℕ_discrete, dec_lt, ok, panic,
}
use lemo.Protocol.{Decoded, nothing, is_header_invalid, decode}
use lemo.Protocol.Framed.{framed, decode-framed, decode-framed_wraps, decode-framed_mismatch}
use lemo.Protocol.Sound.{
  IsBytes, valid_header, kind, route_len, body_len, id_word, payload, eq-framed, uint64-lt,
  take-IsBytes, drop-IsBytes,
}
use lemo.Protocol.Words.{uint32-lt}

-- `Decode` returns, or it panics on a header that announces a route of 240 bytes or more.
abbrev Returns : (ℕ → Bool) → ℕ → Bytes → Type 0
Returns known r m =
    ((d : Decoded) × (decode known m ≡ ok d)) ⊎ ((decode known m ≡ panic) × (240 ≤ r))

framed-Returns :
    (known : ℕ → Bool) (t r l i : ℕ) (p : Bytes)
    → known t ≡ true
    → r < 256
    → l < 2 ^ 32
    → i < 2 ^ 64
    → Returns known r (framed t r l i p)
framed-Returns known t r l i p k hr hl hi = elim (ℕ_discrete (r + l) (length p)) [
  | no differ ↦ inl (nothing, decode-framed_mismatch known t r l i p hl differ)
  | yes same ↦ elim (dec_lt r 240) [
    | yes short ↦ inl (_, decode-framed known t r l i p k hl hi same short)
    | no wide ↦ inr (decode-framed_wraps known t r l i p k hl same (omega arith) hr, omega arith)
  ]
]

-- On any bytes, `Decode` returns, or it panics; when it panics, the header is valid and the byte that
-- gives the length of the route is 240 or more.
pub decode_total :
    (known : ℕ → Bool) (m : Bytes)
    → IsBytes m
    → ((d : Decoded) × (decode known m ≡ ok d))
      ⊎ ((decode known m ≡ panic) × (240 ≤ get_or m 3 0) × (is_header_invalid known m ≡ true))
decode_total known m b = elim (Bool-cases (is_header_invalid known m)) [
  | inr other ↦ inl (nothing, unfold decode in rw other)
  | inl valid ↦
      let (long, e0, e1, k) = valid_header known m valid in
      elim (subst (Returns known (route_len m)) (sym (eq-framed m long b e0 e1)) (
        framed-Returns known (kind m) (route_len m) (body_len m) (id_word m) (payload m) k
          (get_or_all (λ x. x < 256) m 3 0 b (omega arith))
          (uint32-lt _ (take-IsBytes 4 _ (drop-IsBytes 4 m b)))
          (uint64-lt _ (take-IsBytes 8 _ (drop-IsBytes 8 m b))))) [
            | inl returns ↦ inl returns
            | inr (panics, wide) ↦ inr (panics, wide, valid)
          ]
]
