-- ===== src/Client/Read/Cuts.antt =====
-- The loop of a tcp client, and of the tcp server, over the reader of socket/tcp/protocol.go: what it
-- does does not depend on the cuts of the stream.
use lemo.Base.{
  Bytes, ℕ, ◌≡◌, refl, sym, ap, ◌∙◌, Bool, List, [], ◌∷◌, ◌++◌, Option, All, inl, inr, concat,
  arith,
}
use lemo.Base.Io.{Io, pure, then_with, then_with_assoc, then_with-cong, then_with-pure, ◌>>◌}
use lemo.Client.Read.{deliver, after_read, read_loop}
use lemo.Protocol.Reader.{Reader, Fed, start, read, read_on, invalid_header, read_all, resume}
use lemo.Protocol.Reader.Chunks.{IsPending}
use lemo.Protocol.Reader.Stream.{IsFrame, read_all-read, read_total, read_all-frames}

module _ {S : Type 0} (on_error : Bytes → Io S (Unit {0}))
    (decode_message : Bytes → Io S (Option Bytes)) where
  abbrev deliver_all : List Bytes → Io S (Unit {0})
  deliver_all = deliver on_error decode_message

  deliver-append :
      (xs ys : List Bytes) (s : S)
      → deliver_all (xs ++ ys) s ≡ then_with (deliver_all xs s) (λ _. deliver_all ys)
  unfolding deliver
  deliver-append [] ys s = refl
  deliver-append (x ∷ xs) ys s =
      then_with-cong (decode_message x s) _ _ (λ _ s'. deliver-append xs ys s')
      ∙ sym (then_with_assoc (decode_message x s) _ _)

  -- What the loop does for the result of one call of the reader, `next` being the calls after it.
  abbrev pub after_call : Fed → Io S (Unit {0}) → Io S (Unit {0})
  after_call f next = deliver_all f.frames >> after_read on_error decode_message f.status next

  go_on :
      (f : Fed) (k : Reader → Fed) (next : Io S (Unit {0}))
      → ((s : S) → next s ≡ after_call (k f.reader) (pure tt) s)
      → f.status ≡ read_on
      → (s : S) → after_call f next s ≡ after_call (resume f k) (pure tt) s
  unfolding resume
  go_on f k next h e s =
      let g = k f.reader in
      rw (e, resume)
        (then_with-cong (deliver_all f.frames s) _ _ (λ _ s'. h s')
          ∙ sym (then_with_assoc (deliver_all f.frames s) _ _)
          ∙ ap (λ r. then_with r (λ _. after_read on_error decode_message g.status (pure tt)))
              (sym (deliver-append f.frames g.frames s)))

  give_up :
      (f : Fed) (next : Io S (Unit {0})) (k : Reader → Fed)
      → f.status ≡ invalid_header
      → (s : S) → after_call f next s ≡ after_call (resume f k) (pure tt) s
  unfolding resume
  give_up f next k e s = rw (e, resume) refl

  -- The loop delivers what `read_all` gives for the chunks, and reports its error.
  pub read_loop-read_all :
      (known : ℕ → Bool) (r : Reader) (chunks : List Bytes)
      → IsPending known r
      → (s : S)
      → read_loop on_error decode_message known r chunks s
        ≡ after_call (read_all known r chunks) (pure tt) s
  unfolding read_loop read_all deliver
  read_loop-read_all known r [] p s = refl
  read_loop-read_all known r (c ∷ cs) p s = elim (read_total known r c p) [
    | inl e ↦ give_up (read known r c) _ _ e s
    | inr (e, q) ↦
        go_on (read known r c) _ _ (read_loop-read_all known (read known r c).reader cs q) e s
  ]

  -- Two cuts of the same bytes.
  pub read_loop_cuts :
      (known : ℕ → Bool) (chunks cuts : List Bytes)
      → concat chunks ≡ concat cuts
      → (s : S)
      → read_loop on_error decode_message known start chunks s
        ≡ read_loop on_error decode_message known start cuts s
  read_loop_cuts known chunks cuts e s =
      let started : IsPending known start = inl (refl, omega arith) in
      let same : read_all known start chunks ≡ read_all known start cuts =
        read_all-read known start chunks started
        ∙ ap (read known start) e
        ∙ sym (read_all-read known start cuts started) in
      read_loop-read_all known start chunks started s
      ∙ ap (λ f. after_call f (pure tt) s) same
      ∙ sym (read_loop-read_all known start cuts started s)

  -- A stream of whole messages.
  pub read_loop-deliver :
      (known : ℕ → Bool) (frames chunks : List Bytes)
      → All (IsFrame known) frames
      → concat chunks ≡ concat frames
      → (s : S) → read_loop on_error decode_message known start chunks s ≡ deliver_all frames s
  read_loop-deliver known frames chunks whole e s =
      read_loop-read_all known start chunks (inl (refl, omega arith)) s
      ∙ ap (λ f. after_call f (pure tt) s) (read_all-frames known frames chunks whole e)
      ∙ then_with-pure (deliver_all frames s)
