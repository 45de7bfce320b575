-- ===== src/Protocol/Sound.antt =====
-- `Decode` of socket/tcp/protocol.go on arbitrary bytes, against the layout of a message.
use lemo.Base.{
  Bytes, ℕ, zero, suc, ◌+◌, ◌*◌, ◌/◌, ◌%◌, ◌^◌, ◌≤◌, ◌<◌, ◌≡◌, refl, subst, sym, ap, ◌∙◌, Bool,
  true, [], ◌∷◌, ◌++◌, arith, All, Bool-cases, inl, inr, length, length-take, length-drop, get_or,
  take, drop, ℕ_discrete, dec_lt, ◌⊎◌, get_or_all, take-append-drop, drop-drop, ok,
}
use lemo.Protocol.{Decoded, nothing, is_header_invalid, decode}
use lemo.Protocol.Framed.{framed, decode-framed, decode-framed_wraps, decode-framed_mismatch}
use lemo.Protocol.Words.{
  put_uint32, uint32, put_uint64, uint64, to_uint64, to_int64, put_uint32-uint32,
  to_uint64-to_int64, uint32-lt,
}

abbrev pub IsBytes : Bytes → Type 0
IsBytes = All (λ b. b < 256)

pub take-IsBytes : (n : ℕ) (xs : Bytes) → IsBytes xs → IsBytes (take n xs)
take-IsBytes zero xs h = tt
take-IsBytes (suc n) [] h = tt
take-IsBytes (suc n) (x ∷ xs) h = (h.0, take-IsBytes n xs h.1)

pub drop-IsBytes : (n : ℕ) (xs : Bytes) → IsBytes xs → IsBytes (drop n xs)
drop-IsBytes zero xs h = h
drop-IsBytes (suc n) [] h = tt
drop-IsBytes (suc n) (x ∷ xs) h = drop-IsBytes n xs h.1

word_of_bytes : (b : Bytes) → length b ≡ 4 → IsBytes b → put_uint32 (uint32 b) ≡ b
word_of_bytes [] e h = absurd (omega arith)
word_of_bytes (x ∷ []) e h = absurd (omega arith)
word_of_bytes (x ∷ y ∷ []) e h = absurd (omega arith)
word_of_bytes (x ∷ y ∷ z ∷ []) e h = absurd (omega arith)
word_of_bytes (x ∷ y ∷ z ∷ w ∷ []) e h = put_uint32-uint32 x y z w h.0 h.1.0 h.1.1.0 h.1.1.1.0
word_of_bytes (x ∷ y ∷ z ∷ w ∷ v ∷ r) e h = absurd (omega arith)

four :
    (b : Bytes)
    → 4 ≤ length b
    → b ≡ get_or b 0 0 ∷ get_or b 1 0 ∷ get_or b 2 0 ∷ get_or b 3 0 ∷ drop 4 b
four [] e = absurd (omega arith)
four (x ∷ []) e = absurd (omega arith)
four (x ∷ y ∷ []) e = absurd (omega arith)
four (x ∷ y ∷ z ∷ []) e = absurd (omega arith)
four (x ∷ y ∷ z ∷ w ∷ r) e = refl

double_of_bytes : (b : Bytes) → length b ≡ 8 → IsBytes b → put_uint64 (uint64 b) ≡ b
unfolding put_uint64 uint64
double_of_bytes b e h =
    let high = word_of_bytes (take 4 b) (omega (arith, length-take 4 b)) (take-IsBytes 4 b h) in
    let low = word_of_bytes (drop 4 b) (omega (arith, length-drop 4 b)) (drop-IsBytes 4 b h) in
    let bound = uint32-lt (drop 4 b) (drop-IsBytes 4 b h) in
    rw (quotient (uint32 (take 4 b)) (uint32 (drop 4 b)) bound) (
      rw (remainder (uint32 (take 4 b)) (uint32 (drop 4 b)) bound)
        (rw (high, low) (take-append-drop 4 b)))
  where
    quotient : (x y : ℕ) → y < 2 ^ 32 → (x * 2 ^ 32 + y) / 2 ^ 32 ≡ x
    quotient x y k = omega arith

    remainder : (x y : ℕ) → y < 2 ^ 32 → (x * 2 ^ 32 + y) % 2 ^ 32 ≡ y
    remainder x y k = omega arith

pub uint64-lt : (b : Bytes) → IsBytes b → uint64 b < 2 ^ 64
unfolding uint64
uint64-lt b h =
    omega
      (arith, uint32-lt (take 4 b) (take-IsBytes 4 b h), uint32-lt (drop 4 b) (drop-IsBytes 4 b h))

pub valid_header :
    (is_message_type : ℕ → Bool) (m : Bytes)
    → is_header_invalid is_message_type m ≡ true
    → (16 ≤ length m)
      × (get_or m 0 0 ≡ 0)
      × (get_or m 1 0 ≡ 0)
      × (is_message_type (get_or m 2 0) ≡ true)
unfolding is_header_invalid
valid_header known m h = (ground arith, ground arith, ground arith, ground arith)

module _ (m : Bytes) where
  abbrev pub kind : ℕ
  kind = get_or m 2 0

  abbrev pub route_len : ℕ
  route_len = get_or m 3 0

  abbrev pub body_len : ℕ
  body_len = uint32 (take 4 (drop 4 m))

  abbrev pub id_word : ℕ
  id_word = uint64 (take 8 (drop 8 m))

  abbrev pub payload : Bytes
  payload = drop 16 m

  -- Any 16 bytes and what follows have the layout of a message, once the first two are 0.
  pub eq-framed :
      16 ≤ length m
      → IsBytes m
      → get_or m 0 0 ≡ 0
      → get_or m 1 0 ≡ 0
      → m ≡ framed kind route_len body_len id_word payload
  unfolding framed
  eq-framed h b e0 e1 =
      four m (omega arith)
      ∙ rw (e0, e1, word, double)
          (ap (λ rest. 0 ∷ 0 ∷ kind ∷ route_len ∷ rest)
            (sym (take-append-drop 4 (drop 4 m)) ∙ ap (◌++◌ (take 4 (drop 4 m))) tail))
    where
      word : put_uint32 body_len ≡ take 4 (drop 4 m)
      word =
          word_of_bytes _ (omega (arith, length-take 4 (drop 4 m), length-drop 4 m))
            (take-IsBytes 4 _ (drop-IsBytes 4 m b))

      double : put_uint64 id_word ≡ take 8 (drop 8 m)
      double =
          double_of_bytes _ (omega (arith, length-take 8 (drop 8 m), length-drop 8 m))
            (take-IsBytes 8 _ (drop-IsBytes 8 m b))

      tail : drop 4 (drop 4 m) ≡ take 8 (drop 8 m) ++ drop 16 m
      tail =
          sym (drop-drop 4 4 m)
          ∙ sym (take-append-drop 8 (drop 8 m))
          ∙ ap (◌++◌ (take 8 (drop 8 m))) (sym (drop-drop 8 8 m))

-- What a returned message says of the input.
abbrev pub IsEncodingOf : (ℕ → Bool) → Bytes → Decoded → Type 0
IsEncodingOf known m d =
    (m
      ≡ framed d.message_type (length d.route) (length d.body) (to_uint64 d.id) (d.route ++ d.body))
    × (length d.route < 240)
    × (known d.message_type ≡ true)

module _ (known : ℕ → Bool) (t r l i : ℕ) (p : Bytes) where
  parts-IsEncodingOf :
      known t ≡ true
      → i < 2 ^ 64
      → r + l ≡ length p
      → r < 240
      → IsEncodingOf known
          (framed t r l i p)
          (record { message_type = t; id = to_int64 i; route = take r p; body = drop r p })
  parts-IsEncodingOf k hi e h =
      let route : length (take r p) ≡ r = omega (arith, length-take r p) in
      let body : length (drop r p) ≡ l = omega (arith, length-drop r p) in
      rw (route, body, to_uint64-to_int64 i hi, take-append-drop r p) (refl, h, k)

  framed_sound :
      known t ≡ true
      → r < 256
      → l < 2 ^ 32
      → i < 2 ^ 64
      → (d : Decoded) → decode known (framed t r l i p) ≡ ok d
      → (d ≡ nothing) ⊎ IsEncodingOf known (framed t r l i p) d
  framed_sound k hr hl hi d e = elim (ℕ_discrete (r + l) (length p)) [
    | no differ ↦ inl (ground (arith, decode-framed_mismatch known t r l i p hl differ))
    | yes same ↦ elim (dec_lt r 240) [
      | no wide ↦ cc (decode-framed_wraps known t r l i p k hl same (omega arith) hr)
      | yes short ↦ inr (
          subst (IsEncodingOf known (framed t r l i p))
            (cc (decode-framed known t r l i p k hl hi same short))
            (parts-IsEncodingOf k hi same short))
    ]
  ]

-- Whatever bytes come in, if `Decode` returns, it gives the results of no message, or the bytes are
-- an encoding of the four results that it gives (IsEncodingOf).
pub decode_sound :
    (known : ℕ → Bool) (m : Bytes) (d : Decoded)
    → IsBytes m
    → decode known m ≡ ok d
    → (d ≡ nothing) ⊎ IsEncodingOf known m d
decode_sound known m d b e = elim (Bool-cases (is_header_invalid known m)) [
  | inr other ↦ inl (unfold decode in ground arith)
  | inl valid ↦
      let (long, e0, e1, k) = valid_header known m valid in
      let same = eq-framed m long b e0 e1 in
      subst (λ x. (d ≡ nothing) ⊎ IsEncodingOf known x d) (sym same)
        (framed_sound known (kind m) (route_len m) (body_len m) (id_word m) (payload m) k
          (get_or_all (λ x. x < 256) m 3 0 b (omega arith))
          (uint32-lt _ (take-IsBytes 4 _ (drop-IsBytes 4 m b)))
          (uint64-lt _ (take-IsBytes 8 _ (drop-IsBytes 8 m b))) d
          (subst (λ x. decode known x ≡ ok d) same e))
]
