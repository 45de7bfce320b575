-- ===== src/Connections/Listing.antt =====
-- `GetConnections` of socket/tcp/server/server.go: the channel of one place, the goroutine that sends
-- the connections into it and closes it, and the caller that receives. `A` is the type of a
-- connection; the list that the run starts with is the map in the order in which `range` yields it,
-- and no connection is opened or closed during the run. The udp and websocket copies are the same.
use lemo.Base.{
  ℕ, suc, ◌+◌, ◌*◌, ◌≤◌, ◌<◌, ◌≡◌, refl, sym, ap, ◌∙◌, ◌⊎◌, inl, inr, Bool, true, false, List, [],
  ◌∷◌, ◌++◌, length, length-append, drop, arith,
}
use mathlib.Core.List.{append-nil, append_assoc}

-- What the goroutine has still to send, what is in the channel, whether the channel is closed, and
-- what the caller has received.
pub record Listing (A : Type 0) : Type 0 where
  pub rest : List A
  pub channel : List A
  pub closed : Bool
  pub received : List A

abbrev to_close : Bool → ℕ
to_close true = 0
to_close false = 1

module _ {A : Type 0} where
  -- When `GetConnections` returns the channel.
  abbrev pub get_connections : List A → Listing A
  get_connections conns = record { rest = conns; channel = []; closed = false; received = [] }

  pub data ListStep (s : Listing A) : Listing A → Type 0 where
    -- `ch <- conn` waits until the channel has room.
    sends :
        (c : A) (cs : List A)
        → s.rest ≡ c ∷ cs
        → length s.channel < 1
        → ListStep s (record s { rest = cs; channel = s.channel ++ (c ∷ []) })
    closes : s.rest ≡ [] → s.closed ≡ false → ListStep s (record s { closed = true })
    receives :
        (c : A) (cs : List A)
        → s.channel ≡ c ∷ cs
        → ListStep s (record s { channel = cs; received = s.received ++ (c ∷ []) })

  -- A run of a number of steps.
  pub data Lists (s : Listing A) : ℕ → Listing A → Type 0 where
    here : Lists s 0 s
    later : {n : ℕ} {t u : Listing A} → Lists s n t → ListStep t u → Lists s (suc n) u

  -- The steps that are left.
  abbrev left : Listing A → ℕ
  left s = 2 * length s.rest + length s.channel + to_close s.closed

  abbrev Invariant : List A → ℕ → Listing A → Type 0
  Invariant conns n s =
      (s.received ++ (s.channel ++ s.rest) ≡ conns)
      × (length s.channel ≤ 1)
      × (s.closed ≡ true → s.rest ≡ [])
      × (n + left s ≡ 2 * length conns + 1)

  ListStep-Invariant :
      (conns : List A) (n : ℕ) {s t : Listing A}
      → ListStep s t
      → Invariant conns n s
      → Invariant conns (suc n) t
  ListStep-Invariant conns n {s} (sends c cs e room) (same, one, stop, count) = (
    grind (arith, append_assoc s.channel (c ∷ []) cs),
    omega (arith, length-append s.channel (c ∷ [])),
    (λ h. ap (drop 1) (sym e ∙ stop h)),
    grind (arith, length-append s.channel (c ∷ [])),
  )
  ListStep-Invariant conns n {s} (closes e not_yet) (same, one, stop, count) =
      (same, one, (λ h. e), grind arith)
  ListStep-Invariant conns n {s} (receives c cs e) (same, one, stop, count) = (
    grind (arith, append_assoc s.received (c ∷ []) (cs ++ s.rest)),
    grind arith,
    stop,
    grind arith,
  )

  Lists-Invariant :
      (conns : List A) {n : ℕ} {s : Listing A}
      → Lists (get_connections conns) n s
      → Invariant conns n s
  Lists-Invariant conns here = (refl, omega arith, (λ h. cc), omega arith)
  Lists-Invariant conns (later r w) = ListStep-Invariant conns _ w (Lists-Invariant conns r)

  -- The goroutine or the caller can go on.
  abbrev pub GoesOn : Listing A → Type 0
  GoesOn s = (t : Listing A) × ListStep s t

  -- The channel is closed, and the caller has received the connections.
  abbrev pub HasAll : List A → Listing A → Type 0
  HasAll conns s = (s.closed ≡ true) × (s.received ≡ conns)

  GoesOn-HasAll :
      (conns : List A) (n : ℕ) (ys channel : List A) (b : Bool) (zs : List A)
      → (let s : Listing A = record { rest = ys; channel = channel; closed = b; received = zs } in
          Invariant conns n s → GoesOn s ⊎ ((n ≡ 2 * length conns + 1) × HasAll conns s))
  GoesOn-HasAll conns n ys (c ∷ cs) b zs h = inl (_, receives c cs refl)
  GoesOn-HasAll conns n (c ∷ cs) [] b zs h = inl (_, sends c cs refl (omega arith))
  GoesOn-HasAll conns n [] [] false zs h = inl (_, closes refl refl)
  GoesOn-HasAll conns n [] [] true zs (same, one, stop, count) =
      inr (omega (arith, count), (refl, sym (append-nil zs) ∙ same))

  -- While no connection is opened or closed: at every moment of a run of `GetConnections` and its
  -- caller, what the caller has received, what is in the channel and what is still to send are
  -- together the connections, in the order of `range`. The run has at most two steps for each
  -- connection and one more. Until it has made them all it can go on, and then the channel is closed
  -- and the caller has received the connections.
  pub get_connections_lem :
      (conns : List A) {n : ℕ} {s : Listing A}
      → Lists (get_connections conns) n s
      → (s.received ++ (s.channel ++ s.rest) ≡ conns)
        × (n ≤ 2 * length conns + 1)
        × (GoesOn s ⊎ ((n ≡ 2 * length conns + 1) × HasAll conns s))
  get_connections_lem conns {n} {s} r =
      let (same, one, stop, count) = Lists-Invariant conns r in
      (
        same,
        omega (arith, count),
        GoesOn-HasAll conns n s.rest s.channel s.closed s.received (same, one, stop, count),
      )
