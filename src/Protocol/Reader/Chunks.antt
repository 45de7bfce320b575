-- ===== src/Protocol/Reader/Chunks.antt =====
-- The reader of socket/tcp/protocol.go over a stream and the ways to cut it into chunks.
use lemo.Base.{
  Bytes, ℕ, zero, suc, ◌+◌, ◌≤◌, ◌<◌, ◌≡◌, refl, sym, subst, ap, ◌∙◌, ◌⊎◌, inl, inr, Bool, true,
  false, [], ◌++◌, arith, Bool-cases, dec_lt, length, length-append, length-drop, take, drop,
  take-append_of_le, drop-append_of_le, le→ltb, lt→ltb,
}
use native.Mathlib.Numerals.{add-one}
use lemo.Protocol.{get_len, is_header_invalid}
use lemo.Protocol.Reader.{
  Reader, Fed, read_on, invalid_header, fed, emit, deliver, read_loop, read, resume,
}
use lemo.Protocol.Reader.Rounds.{
  get_len-append, get_len-ge, is_header_invalid-append, scan, again, round_short, round_invalid,
  round_valid, round_known, deliver_wait, deliver-emit, resume-emit, resume-read_on,
  resume-invalid_header,
}

abbrev fresh : ℕ → Bytes → Reader
fresh n m = record { single_message_len = n; message = m }

-- A round that delivers a message leaves fewer bytes.
shorter :
    (m : Bytes) (fuel : ℕ)
    → 16 ≤ length m
    → length m < suc fuel
    → length (drop (get_len m) m) < fuel
shorter m fuel h k = omega (arith, length-drop (get_len m) m, get_len-ge m h)

module _ (known : ℕ → Bool) where
  -- What holds between two calls: fewer than 16 bytes are kept and no length is, or the kept bytes
  -- begin with a valid header, whose length is kept, and more bytes are to come.
  abbrev pub IsPending : Reader → Type 0
  IsPending r =
      ((r.single_message_len ≡ 0) × (length r.message < 16))
      ⊎ ((16 ≤ length r.message)
          × (is_header_invalid known r.message ≡ true)
          × (r.single_message_len ≡ get_len r.message)
          × (length r.message < get_len r.message))

  -- A result that may be followed by another call leaves a pending reader.
  abbrev pub Settles : Fed → Type 0
  Settles f = (f.status ≡ invalid_header) ⊎ ((f.status ≡ read_on) × IsPending f.reader)

  -- The cases of one round on a message of which nothing is known.
  data Round (m : Bytes) : Type 0 where
    short : length m < 16 → Round m
    invalid : 16 ≤ length m → is_header_invalid known m ≡ false → Round m
    waits : 16 ≤ length m → is_header_invalid known m ≡ true → length m < get_len m → Round m
    emits : 16 ≤ length m → is_header_invalid known m ≡ true → get_len m ≤ length m → Round m

  round : (m : Bytes) → Round m
  round m = elim (dec_lt (length m) 16) [
    | yes h ↦ short h
    | no h ↦ elim (Bool-cases (is_header_invalid known m)) [
      | inr e ↦ invalid (omega arith) e
      | inl e ↦ elim (dec_lt (length m) (get_len m)) [
        | yes k ↦ waits (omega arith) e k
        | no k ↦ emits (omega arith) e (omega arith)
      ]
    ]
  ]

  module _ (fuel : ℕ) (m : Bytes) (h : 16 ≤ length m) (e : is_header_invalid known m ≡ true) where
    pub scan_waits : length m < get_len m → scan known (suc fuel) m ≡ fed (get_len m) m read_on
    scan_waits k = round_valid known fuel m h e ∙ deliver_wait known _ (get_len m) m k

    pub scan_emits :
        get_len m ≤ length m
        → scan known (suc fuel) m ≡ emit (take (get_len m) m) (scan known fuel (drop (get_len m) m))
    scan_emits k = round_valid known fuel m h e ∙ deliver-emit known _ (get_len m) m k

  -- The fuel is enough.
  pub scan-Settles : (fuel : ℕ) (m : Bytes) → length m < fuel → Settles (scan known fuel m)
  scan-Settles zero m h = absurd (omega arith)
  scan-Settles (suc fuel) m h = elim (round m) [
    | short k ↦ subst Settles (sym (round_short known fuel m 0 k)) (inr (refl, inl (refl, k)))
    | invalid k e ↦ subst Settles (sym (round_invalid known fuel m k e)) (inl refl)
    | waits k e l ↦ subst Settles (sym (scan_waits fuel m k e l)) (inr (refl, inr (k, e, refl, l)))
    | emits k e l ↦
        subst Settles (sym (scan_emits fuel m k e l))
          (scan-Settles fuel (drop (get_len m) m) (shorter m fuel k h))
  ]

  pub scan-fuel :
      (f g : ℕ) (m : Bytes) → length m < f → length m < g → scan known f m ≡ scan known g m
  scan-fuel zero g m h k = absurd (omega arith)
  scan-fuel (suc f) zero m h k = absurd (omega arith)
  scan-fuel (suc f) (suc g) m h k = elim (round m) [
    | short l ↦ round_short known f m 0 l ∙ sym (round_short known g m 0 l)
    | invalid l e ↦ round_invalid known f m l e ∙ sym (round_invalid known g m l e)
    | waits l e w ↦ scan_waits f m l e w ∙ sym (scan_waits g m l e w)
    | emits l e w ↦
        scan_emits f m l e w
        ∙ ap (emit (take (get_len m) m))
            (scan-fuel f g (drop (get_len m) m) (shorter m f l h) (shorter m g l k))
        ∙ sym (scan_emits g m l e w)
  ]

  -- With the length of the message known, a round is the same as without.
  scan_known :
      (fuel n : ℕ) (m c : Bytes)
      → 16 ≤ length m
      → is_header_invalid known m ≡ true
      → n ≡ get_len m
      → read_loop known (suc fuel) n (m ++ c) ≡ scan known (suc fuel) (m ++ c)
  scan_known fuel n m c h e k =
      let long : 16 ≤ length (m ++ c) = omega (arith, length-append m c) in
      round_known known fuel (m ++ c) n long (omega (arith, get_len-ge m h))
      ∙ ap (λ l. deliver (again known fuel) l (m ++ c)) (k ∙ sym (get_len-append m c h))
      ∙ sym (round_valid known fuel (m ++ c) long (is_header_invalid-append known m c h ∙ e))

  -- The loop that a call runs.
  read-loop :
      (n : ℕ) (m c : Bytes) (fuel : ℕ)
      → IsPending (record { single_message_len = n; message = m })
      → length (m ++ c) < fuel
      → 16 ≤ length (m ++ c)
      → read_loop known (length (m ++ c) + 1) n (m ++ c) ≡ scan known fuel (m ++ c)
  read-loop n m c fuel (inl (e, k)) h l =
      rw e (scan-fuel (length (m ++ c) + 1) fuel (m ++ c) (omega arith) h)
  read-loop n m c fuel (inr (k, e, w, _)) h l = rw (add-one (length (m ++ c))) (
      scan_known (length (m ++ c)) n m c k e w
      ∙ scan-fuel (suc (length (m ++ c))) fuel (m ++ c) (omega arith) h)

  -- A call picks up where the last one stopped.
  pub read-scan :
      (r : Reader) (c : Bytes) (fuel : ℕ)
      → IsPending r
      → length (r.message ++ c) < fuel
      → read known r c ≡ scan known fuel (r.message ++ c)
  unfolding read
  read-scan r c zero p h = absurd (omega arith)
  read-scan r c (suc fuel) p h = elim (dec_lt (length (r.message ++ c)) 16) [
    | yes k ↦ rw (lt→ltb (length (r.message ++ c)) 16 k) (
        ap (λ n. fed n (r.message ++ c) read_on) (unread r c p k)
        ∙ sym (round_short known fuel (r.message ++ c) 0 k))
    | no k ↦
        rw (le→ltb (length (r.message ++ c)) 16 (omega arith))
          (read-loop r.single_message_len r.message c (suc fuel) p h (omega arith))
  ]
    where
      unread :
          (r : Reader) (c : Bytes)
          → IsPending r
          → length (r.message ++ c) < 16
          → r.single_message_len ≡ 0
      unread r c (inl (e, _)) k = e
      unread r c (inr (k, _, _, _)) l = absurd (omega (arith, length-append r.message c))

  abbrev more : Bytes → Reader → Fed
  more c r = read known r c

  -- The rest of the stream can be appended before the loop runs, or after.
  pub resume-scan :
      (f g : ℕ) (m c : Bytes)
      → length m < f
      → length (m ++ c) < g
      → resume (scan known f m) (more c) ≡ scan known g (m ++ c)
  resume-scan zero g m c h k = absurd (omega arith)
  resume-scan (suc f) zero m c h k = absurd (omega arith)
  resume-scan (suc f) (suc g) m c h k = elim (round m) [
    | short l ↦
        rw (round_short known f m 0 l)
          (resume-read_on (more c) 0 m ∙ read-scan (fresh 0 m) c (suc g) (inl (refl, l)) k)
    | invalid l e ↦ rw (round_invalid known f m l e) (
        resume-invalid_header (more c) 0 []
        ∙ sym (round_invalid known g (m ++ c) (long l) (is_header_invalid-append known m c l ∙ e)))
    | waits l e w ↦ rw (scan_waits f m l e w) (
        resume-read_on (more c) (get_len m) m
        ∙ read-scan (fresh (get_len m) m) c (suc g) (inr (l, e, refl, w)) k)
    | emits l e w ↦
        let rest = drop (get_len m) m in
        let enough : get_len (m ++ c) ≤ length (m ++ c) =
          omega (arith, get_len-append m c l, length-append m c) in
        rw (scan_emits f m l e w) (
          resume-emit (take (get_len m) m) (scan known f rest) (more c)
          ∙ ap (emit (take (get_len m) m)) (
              resume-scan f g rest c (shorter m f l h) (
                omega (
                  arith,
                  length-append rest c,
                  length-append m c,
                  length-drop (get_len m) m,
                  get_len-ge m l,
                )))
          ∙ sym (
              scan_emits g (m ++ c) (long l) (is_header_invalid-append known m c l ∙ e) enough
              ∙ rw (get_len-append m c l)
                  (rw (take-append_of_le (get_len m) m c w, drop-append_of_le (get_len m) m c w))))
  ]
    where
      long : 16 ≤ length m → 16 ≤ length (m ++ c)
      long l = omega (arith, length-append m c)
