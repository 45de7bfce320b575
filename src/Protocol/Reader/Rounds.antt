-- ===== src/Protocol/Reader/Rounds.antt =====
-- One round of the reader's loop, case by case, with the rest of the rounds shut.
use lemo.Base.{
  Bytes, ℕ, suc, ◌≤◌, ◌<◌, ◌≡◌, refl, Bool, true, false, [], ◌++◌, arith, lt→ltb, le→ltb, ◌==◌,
  length, length-append, length-drop, get_or-append_of_lt, take, drop, take-append_of_le,
  drop-append_of_le,
}
use lemo.Protocol.{head_len, get_len, is_header_invalid}
use lemo.Protocol.Reader.{
  Reader, Fed, Status, read_on, invalid_header, out_of_fuel, fed, emit, deliver, read_loop, resume,
}

-- A header is read in the first 16 bytes.
pub get_len-append : (m c : Bytes) → 16 ≤ length m → get_len (m ++ c) ≡ get_len m
unfolding get_len
get_len-append m c h =
    rw
      (
        le→ltb (length m) head_len h,
        le→ltb (length (m ++ c)) head_len (omega (arith, length-append m c)),
      )
      (rw (get_or-append_of_lt m c 3 0 (omega arith)) (
        rw (drop-append_of_le 4 m c (omega arith))
          (rw (take-append_of_le 4 (drop 4 m) c (omega (arith, length-drop 4 m))))))

pub get_len-ge : (m : Bytes) → 16 ≤ length m → 16 ≤ get_len m
unfolding get_len
get_len-ge m h = rw (le→ltb (length m) head_len h) (omega arith)

module _ (known : ℕ → Bool) where
  pub is_header_invalid-append :
      (m c : Bytes) → 16 ≤ length m → is_header_invalid known (m ++ c) ≡ is_header_invalid known m
  unfolding is_header_invalid
  is_header_invalid-append m c h =
      rw
        (
          le→ltb (length m) head_len h,
          le→ltb (length (m ++ c)) head_len (omega (arith, length-append m c)),
        )
        (rw (get_or-append_of_lt m c 0 0 (omega arith)) (
          rw (get_or-append_of_lt m c 1 0 (omega arith))
            (rw (get_or-append_of_lt m c 2 0 (omega arith)))))

  -- The loop from a fresh message, `singleMessageLen` being 0.
  abbrev pub scan : ℕ → Bytes → Fed
  scan fuel m = read_loop known fuel 0 m

  abbrev pub again : ℕ → Reader → Fed
  again fuel r = read_loop known fuel r.single_message_len r.message

  module _ (fuel : ℕ) (m : Bytes) where
    pub round_short : (n : ℕ) → length m < 16 → read_loop known (suc fuel) n m ≡ fed n m read_on
    unfolding read_loop
    round_short n h = rw (lt→ltb (length m) head_len h)

    pub round_invalid :
        16 ≤ length m
        → is_header_invalid known m ≡ false
        → scan (suc fuel) m ≡ fed 0 [] invalid_header
    unfolding read_loop
    round_invalid h e = rw (le→ltb (length m) head_len h, e)

    pub round_valid :
        16 ≤ length m
        → is_header_invalid known m ≡ true
        → scan (suc fuel) m ≡ deliver (again fuel) (get_len m) m
    unfolding read_loop
    round_valid h e = rw (le→ltb (length m) head_len h, e)

    pub round_known :
        (n : ℕ) → 16 ≤ length m → 16 ≤ n → read_loop known (suc fuel) n m ≡ deliver (again fuel) n m
    unfolding read_loop
    round_known n h k = rw (le→ltb (length m) head_len h, nonzero)
      where
        nonzero : (n == 0) ≡ false
        nonzero = ground arith

  module _ (next : Reader → Fed) (n : ℕ) (m : Bytes) where
    pub deliver_wait : length m < n → deliver next n m ≡ fed n m read_on
    unfolding deliver
    deliver_wait h = rw (lt→ltb (length m) n h)

    pub deliver-emit :
        n ≤ length m
        → deliver next n m
          ≡ emit (take n m) (next (record { single_message_len = 0; message = drop n m }))
    unfolding deliver
    deliver-emit h = rw (le→ltb (length m) n h)

pub resume-emit :
    (frame : Bytes) (f : Fed) (next : Reader → Fed)
    → resume (emit frame f) next ≡ emit frame (resume f next)
unfolding resume
resume-emit frame f next = go f.status refl
  where
    go : (s : Status) → f.status ≡ s → resume (emit frame f) next ≡ emit frame (resume f next)
    go read_on e = rw (e, resume)
    go invalid_header e = rw (e, resume)
    go out_of_fuel e = rw (e, resume)

module _ (next : Reader → Fed) (n : ℕ) (m : Bytes) where
  pub resume-read_on :
      resume (fed n m read_on) next ≡ next (record { single_message_len = n; message = m })
  unfolding resume
  resume-read_on = refl

  pub resume-invalid_header : resume (fed n m invalid_header) next ≡ fed n m invalid_header
  unfolding resume
  resume-invalid_header = refl
