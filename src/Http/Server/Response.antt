-- ===== src/Http/Server/Response.antt =====
-- What `staticHandler` of http/server/server.go sends, read off the response that the client gets. The
-- laws are those that net/http documents for a `ResponseWriter`.
use lemo.Base.{
  Bytes, ℕ, ◌≡◌, refl, ap, ◌∙◌, [], ◌++◌, Option, none, some, ok, take, Option-cases, inl, inr,
}
use lemo.Base.Io.{pure, ◌>>=◌}
use lemo.Http.Server.{Site, FileSystem, serve_file}

-- The status is none until the header is sent.
pub record Response : Type 0 where
  pub status : Option ℕ
  pub content_type : Option Bytes
  pub body : Bytes

abbrev pub fresh : Response
fresh = record { status = none; content_type = none; body = [] }

-- A status that was sent already stays.
abbrev pub status_or : ℕ → Option ℕ → Option ℕ
status_or code none = some code
status_or code (some sent) = some sent

abbrev pub with_status : ℕ → Response → Response
with_status code r = record r { status = status_or code r.status }

-- A write, when the connection takes `room` bytes.
abbrev pub written : (room : ℕ) → Bytes → Response → Response
written room bts r = record r { status = status_or 200 r.status; body = r.body ++ take room bts }

-- `contents` is what the file system holds, none if the file cannot be opened or read, and `room` the
-- number of bytes that the connection takes before it fails.
pub record Client (S : Type 0) : Type 0 where
  pub response : S → Response
  pub contents : S → Bytes → Option Bytes
  pub room : S → ℕ

module _ {S : Type 0} (site : Site S) (files : FileSystem S) (client : Client S) where
  -- No call panics. A read of a file leaves the response alone, a header that is set before the
  -- status is sent counts, the first status counts, and a write sends 200 if there is none.
  pub record IsResponse : Type 0 where
    pub read :
        (file : Bytes) (s : S)
        → (s' : S) × (files.read_file file s ≡ ok (client.contents s file, s'))
          × (client.response s' ≡ client.response s)
          × (client.room s' ≡ client.room s)
    pub set :
        (kind : Bytes) (s : S)
        → client.response s ≡ fresh
        → (s' : S) × (files.set_content_type kind s ≡ ok (tt, s'))
          × (client.response s' ≡ record fresh { content_type = some kind })
          × (client.room s' ≡ client.room s)
    pub write :
        (bts : Bytes) (s : S)
        → (err : Option Bytes) × (s' : S) × (files.write bts s ≡ ok (err, s'))
          × (client.response s' ≡ written (client.room s) bts (client.response s))
    pub header :
        (code : ℕ) (s : S)
        → (s' : S) × (site.write_header code s ≡ ok (tt, s'))
          × (client.response s' ≡ with_status code (client.response s))

  -- The response for a file: its contents, as far as the connection takes them, with 200 and the
  -- type that goes with its name; 403 and no body if it cannot be read.
  unfoldable pub response_for : Bytes → Option Bytes → ℕ → Response
  response_for file none room = record fresh { status = some 403 }
  response_for file (some bts) room = record {
    status = some 200;
    content_type = some (files.content_type file);
    body = take room bts;
  }

  module _ (laws : IsResponse) where
    write_lem :
        (bts : Bytes) (s : S) (kind : Bytes) (room : ℕ)
        → client.response s ≡ record fresh { content_type = some kind }
        → client.room s ≡ room
        → (s' : S) × ((files.write bts >>= λ err. elim err [
          | none ↦ pure tt
          | some e ↦ site.write_header 403
        ])
              s
            ≡ ok (tt, s'))
          × (client.response s'
              ≡ record { status = some 200; content_type = some kind; body = take room bts })
    write_lem bts s kind room new same =
        let (err, s1, e, sent) = laws.write bts s in
        let full = sent ∙ (λ i. written (same i) bts (new i)) in
        elim (Option-cases err) [
          | inl fine ↦ (s1, rw e (rw fine refl), full)
          | inr (msg, bad) ↦
              (let (s2, h, kept) = laws.header 403 s1 in
                (s2, rw e (rw bad h), kept ∙ ap (with_status 403) full))
        ]

    -- `staticHandler`, once the file is found.
    pub serve_file_lem :
        (file : Bytes) (s : S)
        → client.response s ≡ fresh
        → (s' : S) × (serve_file site files file s ≡ ok (tt, s'))
          × (client.response s' ≡ response_for file (client.contents s file) (client.room s))
    unfolding serve_file response_for
    serve_file_lem file s new =
        let (s1, e1, same1, room1) = laws.read file s in
        elim (Option-cases (client.contents s file)) [
          | inl missing ↦
              (let (s2, e2, sent) = laws.header 403 s1 in
                (s2, rw e1 (rw missing e2), rw missing (sent ∙ ap (with_status 403) (same1 ∙ new))))
          | inr (bts, found) ↦
              (let (s2, e2, typed, room2) = laws.set (files.content_type file) s1 (same1 ∙ new) in
                let (s3, e3, sent) =
                  write_lem bts s2 (files.content_type file) (client.room s) typed
                    (room2 ∙ room1) in
                (s3, rw e1 (rw found (rw e2 e3)), rw found sent))
        ]
