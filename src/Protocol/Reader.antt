-- ===== src/Protocol/Reader.antt =====
-- `Reader` of socket/tcp/protocol.go (and of its copy in socket/udp/protocol.go): the closure that
-- cuts a stream of chunks into messages. Its two captured variables are the record `Reader`; the
-- calls of `fn` are the list of messages that it is given, in order. The inner loop takes fuel:
-- each round but the last removes at least 16 bytes, so one round more than there are bytes is
-- enough (Reader.Chunks).
pub mod Rounds
pub mod Chunks
pub mod Stream
use lemo.Base.{
  Bytes, ℕ, zero, suc, ◌+◌, Bool, true, false, not, List, [], ◌∷◌, ◌++◌, ltb, ◌==◌, if◌then◌else◌,
  length, take, drop,
}
use lemo.Protocol.{head_len, get_len, is_header_invalid}

pub record Reader : Type 0 where
  pub single_message_len : ℕ
  pub message : Bytes

-- How a call of the closure ends: `return nil`, `return errors.New("invalid header")`, or neither.
pub data Status : Type 0 where
  read_on invalid_header out_of_fuel : Status

pub record Fed : Type 0 where
  pub reader : Reader
  pub frames : List Bytes
  pub status : Status

abbrev pub start : Reader
start = record { single_message_len = 0; message = [] }

abbrev pub fed : ℕ → Bytes → Status → Fed
fed n message status = record {
  reader = record { single_message_len = n; message = message };
  frames = [];
  status = status;
}

-- `fn(message)`, before the rest of the rounds.
abbrev pub emit : Bytes → Fed → Fed
emit frame f = record f { frames = frame ∷ f.frames }

-- The second half of a round, once the length `n` of the message is known; `again` is the loop.
unfoldable pub deliver : (Reader → Fed) → ℕ → Bytes → Fed
deliver again n message =
    if ltb (length message) n
    then fed n message read_on
    else emit (take n message) (again (record { single_message_len = 0; message = drop n message }))

-- What `process` does with the result of one call: it calls again, unless there was an error.
abbrev resume_at : Status → Fed → (Reader → Fed) → Fed
resume_at read_on f next = let g = next f.reader in record g { frames = f.frames ++ g.frames }
resume_at invalid_header f next = f
resume_at out_of_fuel f next = f

unfoldable pub resume : Fed → (Reader → Fed) → Fed
resume f next = resume_at f.status f next

module _ (is_message_type : ℕ → Bool) where
  -- The `for` loop.
  unfoldable pub read_loop : ℕ → ℕ → Bytes → Fed
  unfolding deliver
  read_loop zero n message = fed n message out_of_fuel
  read_loop (suc fuel) n message =
      let again : Reader → Fed = λ r. read_loop fuel r.single_message_len r.message in
      if ltb (length message) head_len
      then fed n message read_on
      else if not (n == 0)
      then deliver again n message
      else if not (is_header_invalid is_message_type message)
      then fed 0 [] invalid_header
      else deliver again (get_len message) message

  -- One call with `buf[0:n] = chunk`.
  unfoldable pub read : Reader → Bytes → Fed
  read r chunk =
      let message = r.message ++ chunk in
      if ltb (length message) head_len
      then fed r.single_message_len message read_on
      else read_loop (length message + 1) r.single_message_len message

  -- The calls of the closure that `process` makes for the chunks that arrive, up to the first error.
  unfoldable pub read_all : Reader → List Bytes → Fed
  read_all r [] = record { reader = r; frames = []; status = read_on }
  read_all r (chunk ∷ chunks) = resume (read r chunk) (λ r'. read_all r' chunks)
