-- ===== src/Protocol/Framed.antt =====
-- The layout of a message, field by field, and what the codec reads back from each field.
use lemo.Base.{
  Bytes, ℕ, ◌+◌, ◌^◌, ◌≤◌, ◌<◌, ◌≡◌, refl, ap, Bool, true, false, ◌∷◌, ◌++◌, arith, le→ltb, ◌==◌,
  length, take, drop, ok, panic, slice, slice-eq-ok, slice-eq-panic, ◌>>=◌, Bool-cases, inl, inr,
  ◌≢◌, drop-drop, take_all, length-drop,
}
use lemo.Protocol.{Bytes, head_len, nothing, get_len, is_header_invalid, cut, split, decode}
use lemo.Protocol.Words.{put_uint32, put_uint64, to_int64, uint32-put_uint32, uint64-put_uint64}

-- A message with type `t`, announced lengths `r` and `l`, id word `i`, and what follows.
unfoldable pub framed : ℕ → ℕ → ℕ → ℕ → Bytes → Bytes
framed t r l i payload = 0 ∷ 0 ∷ t ∷ r ∷ (put_uint32 l ++ (put_uint64 i ++ payload))

module _ (t r l i : ℕ) (payload : Bytes) where
  pub length-framed : length (framed t r l i payload) ≡ 16 + length payload
  unfolding framed put_uint32 put_uint64
  length-framed = omega arith

  drop_head : drop head_len (framed t r l i payload) ≡ payload
  unfolding framed put_uint32 put_uint64
  drop_head = refl

  length_word : take 4 (drop 4 (framed t r l i payload)) ≡ put_uint32 l
  unfolding framed put_uint32
  length_word = refl

  id_word : take 8 (drop 8 (framed t r l i payload)) ≡ put_uint64 i
  unfolding framed put_uint32 put_uint64
  id_word = refl

  route_part :
      r ≤ length payload → slice head_len (16 + r) (framed t r l i payload) ≡ ok (take r payload)
  route_part h =
      rw
        (
          slice-eq-ok 16 (16 + r) (framed t r l i payload) (omega arith)
              (omega (arith, length-framed)),
          drop_head,
        )
        (ap (λ n. ok (take n payload)) (omega arith))

  body_part :
      r ≤ length payload
      → slice (16 + r) (length (framed t r l i payload)) (framed t r l i payload)
        ≡ ok (drop r payload)
  body_part h =
      rw
        (
          slice-eq-ok (16 + r) (length (framed t r l i payload)) (framed t r l i payload)
              (omega (arith, length-framed)) (omega arith),
          drop-drop 16 r (framed t r l i payload),
          drop_head,
        )
        (ap ok (take_all _ (drop r payload) (omega (arith, length-framed, length-drop r payload))))

  pub get_len-framed : l < 2 ^ 32 → get_len (framed t r l i payload) ≡ r + l + 16
  unfolding get_len
  get_len-framed h =
      rw (le→ltb (length (framed t r l i payload)) head_len (omega (arith, length-framed)))
        (rw length_word (unfold framed in rw (uint32-put_uint32 l h)))

module _ (is_message_type : ℕ → Bool) (t r l i : ℕ) (payload : Bytes) where
  pub is_header_invalid-framed :
      is_header_invalid is_message_type (framed t r l i payload) ≡ is_message_type t
  unfolding is_header_invalid
  is_header_invalid-framed =
      rw
        (le→ltb (length (framed t r l i payload)) head_len
          (omega (arith, length-framed t r l i payload)))
        (unfold framed in refl)

  cut-framed : r < 240 → cut is_message_type (framed t r l i payload) ≡ 16 + r
  unfolding cut framed
  cut-framed h = omega arith

  split-framed :
      r < 240
      → r ≤ length payload
      → i < 2 ^ 64
      → split is_message_type (framed t r l i payload)
        ≡ ok (record {
          message_type = t;
          id = to_int64 i;
          route = take r payload;
          body = drop r payload;
        })
  unfolding split
  split-framed h k w =
      rw (cut-framed h, route_part t r l i payload k, ◌>>=◌)
        (rw (body_part t r l i payload k, ◌>>=◌)
          (rw (id_word t r l i payload, uint64-put_uint64 i w) (unfold framed in refl)))

  agree :
      l < 2 ^ 32
      → r + l ≡ length payload
      → (get_len (framed t r l i payload) == length (framed t r l i payload)) ≡ true
  agree hl e =
      rw (get_len-framed t r l i payload hl) (ground (arith, length-framed t r l i payload))

  -- A message whose announced lengths add up is cut where its route ends.
  pub decode-framed :
      is_message_type t ≡ true
      → l < 2 ^ 32
      → i < 2 ^ 64
      → r + l ≡ length payload
      → r < 240
      → decode is_message_type (framed t r l i payload)
        ≡ ok (record {
          message_type = t;
          id = to_int64 i;
          route = take r payload;
          body = drop r payload;
        })
  unfolding decode
  decode-framed known hl hi e h =
      rw (is_header_invalid-framed, known) (rw (agree hl e) (split-framed h (omega arith) hi))

  -- With a route length of 240 or more the byte sum wraps, and the slice expression panics.
  pub decode-framed_wraps :
      is_message_type t ≡ true
      → l < 2 ^ 32
      → r + l ≡ length payload
      → 240 ≤ r
      → r < 256
      → decode is_message_type (framed t r l i payload) ≡ panic
  unfolding decode split
  decode-framed_wraps known hl e h k =
      rw (is_header_invalid-framed, known)
        (rw (agree hl e) (rw (slice-eq-panic head_len _ _ wrapped, ◌>>=◌)))
    where
      wrapped : cut is_message_type (framed t r l i payload) < head_len
      wrapped = unfold cut framed in omega arith

  -- A message whose announced lengths do not add up is dropped.
  pub decode-framed_mismatch :
      l < 2 ^ 32
      → r + l ≢ length payload
      → decode is_message_type (framed t r l i payload) ≡ ok nothing
  unfolding decode
  decode-framed_mismatch hl e = elim (Bool-cases (is_message_type t)) [
    | inl known ↦
        rw (is_header_invalid-framed, known) (rw (get_len-framed t r l i payload hl, differ))
    | inr other ↦ rw (is_header_invalid-framed, other)
  ]
    where
      differ : (r + l + 16 == length (framed t r l i payload)) ≡ false
      differ = ground (arith, length-framed t r l i payload)
