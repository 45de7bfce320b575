-- ===== src/Protocol/Reader/Stream.antt =====
-- The reader over a whole stream: what it delivers for the messages that were sent.
use lemo.Base.{
  Bytes, ℕ, zero, suc, ◌<◌, ◌≡◌, refl, sym, subst, ap, ◌∙◌, ◌⊎◌, inl, inr, Bool, true, List, [],
  ◌∷◌, ◌++◌, arith, All, length, length-append, take-length-append, drop-length-append, concat,
}
use mathlib.Core.List.{append_assoc, append-nil}
use lemo.Protocol.{get_len, is_header_invalid}
use lemo.Protocol.Sound.{valid_header}
use lemo.Protocol.Reader.{
  Reader, Fed, read_on, invalid_header, start, fed, emit, read, read_all, resume,
}
use lemo.Protocol.Reader.Rounds.{get_len-append, is_header_invalid-append, scan, round_short}
use lemo.Protocol.Reader.Chunks.{
  IsPending, Settles, scan_waits, scan_emits, scan-Settles, scan-fuel, read-scan, resume-scan,
}

module _ (known : ℕ → Bool) where
  -- The calls that follow depend on the result only through a pending reader.
  resume-cong :
      (f : Fed) (k l : Reader → Fed)
      → Settles known f
      → ((r : Reader) → IsPending known r → k r ≡ l r)
      → resume f k ≡ resume f l
  unfolding resume
  resume-cong f k l (inl e) h = rw (e, resume)
  resume-cong f k l (inr (e, p)) h = rw (e, resume) (rw (h f.reader p))

  read-Settles : (r : Reader) (c : Bytes) → IsPending known r → Settles known (read known r c)
  read-Settles r c p =
      subst (Settles known)
        (sym (read-scan known r c (suc (length (r.message ++ c))) p (omega arith)))
        (scan-Settles known (suc (length (r.message ++ c))) (r.message ++ c) (omega arith))

  -- An empty chunk changes nothing.
  scan_pending :
      (r : Reader)
      → IsPending known r
      → scan known (suc (length r.message)) r.message
        ≡ record { reader = r; frames = []; status = read_on }
  scan_pending r (inl (e, h)) =
      round_short known _ r.message 0 h ∙ ap (λ n. fed n r.message read_on) (sym e)
  scan_pending r (inr (h, e, n, w)) =
      scan_waits known _ r.message h e w ∙ ap (λ n. fed n r.message read_on) (sym n)

  read-nil :
      (r : Reader)
      → IsPending known r
      → read known r [] ≡ record { reader = r; frames = []; status = read_on }
  read-nil r p =
      read-scan known r [] (suc (length r.message)) p (rw (append-nil r.message) (omega arith))
      ∙ rw (append-nil r.message) (scan_pending r p)

  -- Two calls are one call on both chunks.
  read-read :
      (r : Reader) (c d : Bytes)
      → IsPending known r
      → resume (read known r c) (λ r'. read known r' d) ≡ read known r (c ++ d)
  read-read r c d p =
      let m = r.message ++ c in
      ap (λ f. resume f (λ r'. read known r' d))
        (read-scan known r c (suc (length m)) p (omega arith))
      ∙ resume-scan known (suc (length m)) (suc (length (m ++ d))) m d (omega arith) (omega arith)
      ∙ ap (scan known (suc (length (m ++ d)))) (append_assoc r.message c d)
      ∙ sym (read-scan known r (c ++ d) _ p (rw (append_assoc r.message c d) (omega arith)))

  -- From a reader between two calls, the chunks of a stream may be cut anywhere: reading them one by one, up to the first error,
  -- gives the messages, the kept bytes and the error of one call on the whole stream.
  pub read_all-read :
      (r : Reader) (chunks : List Bytes)
      → IsPending known r
      → read_all known r chunks ≡ read known r (concat chunks)
  unfolding read_all
  read_all-read r [] p = sym (read-nil r p)
  read_all-read r (c ∷ cs) p =
      resume-cong (read known r c) _ _ (read-Settles r c p) (λ r' q. read_all-read r' cs q)
      ∙ read-read r c (concat cs) p

  -- A message whose length is the one that its header announces.
  abbrev pub IsFrame : Bytes → Type 0
  IsFrame m = (is_header_invalid known m ≡ true) × (get_len m ≡ length m)

  abbrev pub deliver_all : List Bytes → Fed → Fed
  deliver_all ms f = record f { frames = ms ++ f.frames }

  scan-frame :
      (fuel : ℕ) (m rest : Bytes)
      → IsFrame m
      → scan known (suc fuel) (m ++ rest) ≡ emit m (scan known fuel rest)
  scan-frame fuel m rest (e, n) =
      let (long, _, _, _) = valid_header known m e in
      let len : get_len (m ++ rest) ≡ length m = get_len-append m rest long ∙ n in
      scan_emits known fuel (m ++ rest) (omega (arith, length-append m rest))
        (is_header_invalid-append known m rest long ∙ e) (omega (arith, length-append m rest))
      ∙ rw len (rw (take-length-append m rest, drop-length-append m rest))

  -- Whole messages at the front of the stream are delivered, whatever follows them.
  pub scan-concat :
      (fuel : ℕ) (ms : List Bytes) (rest : Bytes)
      → All IsFrame ms
      → length (concat ms ++ rest) < fuel
      → scan known fuel (concat ms ++ rest) ≡ deliver_all ms (scan known (suc (length rest)) rest)
  scan-concat zero ms rest h k = absurd (omega arith)
  scan-concat (suc fuel) [] rest h k = scan-fuel known _ _ rest k (omega arith)
  scan-concat (suc fuel) (m ∷ ms) rest (f, h) k =
      let (long, _, _, _) = valid_header known m f.0 in
      ap (scan known (suc fuel)) (append_assoc m (concat ms) rest)
      ∙ scan-frame fuel m (concat ms ++ rest) f
      ∙ ap (emit m) (
          scan-concat fuel ms rest h (
            omega (
              arith,
              ap length (append_assoc m (concat ms) rest),
              length-append m (concat ms ++ rest),
            )))

  -- However a stream of whole messages is cut into chunks, the reader delivers exactly those
  -- messages, in order, with no error, and keeps nothing.
  pub read_all-frames :
      (ms chunks : List Bytes)
      → All IsFrame ms
      → concat chunks ≡ concat ms
      → read_all known start chunks ≡ record { reader = start; frames = ms; status = read_on }
  read_all-frames ms chunks h e =
      let whole = concat ms ++ [] in
      read_all-read start chunks (inl (refl, omega arith))
      ∙ ap (read known start) (e ∙ sym (append-nil (concat ms)))
      ∙ read-scan known start whole (suc (length whole)) (inl (refl, omega arith)) (omega arith)
      ∙ scan-concat (suc (length whole)) ms [] h (omega arith)
      ∙ ap (deliver_all ms) (round_short known 0 [] 0 (omega arith))
      ∙ ap (λ frames. record { reader = start; frames = frames; status = read_on }) (append-nil ms)

  -- Whatever comes in, a call on a reader between two calls either reports an invalid header or leaves a reader that can go on;
  -- it never runs out of fuel.
  pub read_total :
      (r : Reader) (chunk : Bytes)
      → IsPending known r
      → ((read known r chunk).status ≡ invalid_header)
        ⊎ (((read known r chunk).status ≡ read_on) × IsPending known (read known r chunk).reader)
  read_total = read-Settles
