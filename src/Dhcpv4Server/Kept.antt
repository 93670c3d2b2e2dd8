-- ===== src/Dhcpv4Server/Kept.antt =====
-- internal/dhcpv4server: the table of leases keeps up with the pool.
use minuteman.Base.{
  ℕ, ◌+◌, ◌≤◌, ◌≡◌, refl, sym, ap, ◌∙◌, subst, arith, List, [], ◌∷◌, true, false, Option as Maybe,
  none, some, Option-cases, Bool-cases, inl, inr,
}
use minuteman.Netip.{bytes_discrete}
use minuteman.Dhcpv4.Options.{client_id}
use minuteman.Dhcpv4.Options.{Message as DhcpMessage}
use minuteman.Dhcpv4.Pool.{Pool, ClientId}
use minuteman.Dhcpv4.Pool.Calls.{committed_lease}
use minuteman.Dhcpv4.Pool.Valid.{IsValid}
use minuteman.Dhcpv4.Pool.Spares.{Spares, Spares-refl}
use minuteman.Dhcpv4.Pool.Lasting.{good, good_later, committed_lease_later}
use minuteman.Dhcpv4.Handler.{handle}
use minuteman.Dhcpv4.Handler.Valid.{handle-IsValid}
use minuteman.Dhcpv4.Handler.Others.{handle-Spares}
use minuteman.Dhcpv4.Packet.{parse_request}
use minuteman.Dhcpv4Server.{
  Server, Held, Message, received, expire_due, Effect, unchanged, change, is_empty, keep, answer,
  framed, respond, requested, handle_info,
}
use minuteman.Dhcpv4Server.Tables.{
  Table, IsTable, carry_out, carry_all, written, carry_all-respond, written_own, written_other,
}

module _ (s : Server) (T : Table) (law : IsTable T) where
  -- The good leases of the table are the committed leases of the pool, but for a client with an empty
  -- identity, whose lease is not kept.
  unfoldable pub Kept : ℕ → Pool → T.Store → Type 0
  Kept t p store =
      (c : ClientId) → is_empty c ≡ false → good t (T.entry store c) ≡ committed_lease p c t

  later-Kept : (t u : ℕ) (p : Pool) (store : T.Store) → t ≤ u → Kept t p store → Kept u p store
  unfolding Kept
  later-Kept t u p store h v c e =
      sym (good_later t u (T.entry store c) h)
      ∙ ap (good u) (v c e)
      ∙ committed_lease_later p c t u h

  keep_empty :
      (pool next : Pool) (id : ClientId) (t : ℕ)
      → is_empty id ≡ true
      → keep s pool next id t ≡ unchanged
  unfolding keep
  keep_empty pool next id t e = elim (Bool-cases s.keeps) [
    | inl k ↦ rw (k, e) refl
    | inr k ↦ rw k refl
  ]

  keep_named :
      (pool next : Pool) (id : ClientId) (t : ℕ)
      → s.keeps ≡ true
      → is_empty id ≡ false
      → keep s pool next id t ≡ change (committed_lease pool id t) (committed_lease next id t)
  unfolding keep
  keep_named pool next id t k e = rw (k, e) refl

  -- A request from a client, whose table is written as `keep` says.
  pub written-Kept :
      (pool next : Pool) (store : T.Store) (id : ClientId) (t : ℕ)
      → s.keeps ≡ true
      → Spares id t pool next
      → Kept t pool store
      → Kept t next (written T store id (keep s pool next id t))
  unfolding Kept
  written-Kept pool next store id t k spared v c e = elim (bytes_discrete c id) [
    | no far ↦
        ap (good t) (written_other s T law store id c (keep s pool next id t) far)
        ∙ v c e
        ∙ sym (spared c far)
    | yes same ↦
        subst
          (λ (d : ClientId).
            good t (T.entry (written T store id (keep s pool next id t)) d)
            ≡ committed_lease next d t)
          (sym same) (own (subst (λ (d : ClientId). is_empty d ≡ false) same e))
  ]
    where
      own :
          is_empty id ≡ false
          → good t (T.entry (written T store id (keep s pool next id t)) id)
            ≡ committed_lease next id t
      own f =
          ap (λ ch. good t (T.entry (written T store id ch) id)) (keep_named pool next id t k f)
          ∙ written_own s T law store id t (committed_lease pool id t) (committed_lease next id t)
              (unfold Kept in v id f) (committed_lease_later next id t t (omega arith))

  -- The pool and the table after a handler's effects.
  abbrev After : ℕ → T.Store → Pool × List Effect → Type 0
  After t store o = Kept t o.0 (carry_all T store o.1)

  pub respond-Kept :
      (pool next : Pool) (store : T.Store) (id : ClientId) (t : ℕ) (held : Maybe Held)
      → s.keeps ≡ true
      → Spares id t pool next
      → Kept t pool store
      → After t store (next, respond s (keep s pool next id t) id held)
  respond-Kept pool next store id t held k spared v =
      subst (Kept t next) (sym (carry_all-respond s T law store (keep s pool next id t) id held))
        (written-Kept pool next store id t k spared v)

  -- A packet that is a request.
  pub request_lem :
      (pool : Pool) (t : ℕ) (packet : List ℕ) (req : DhcpMessage)
      → parse_request packet ≡ some req
      → let (held, next) = handle s.cfg pool req t in
        let id = client_id req.options req.chaddr in
        handle_info s pool t (received packet)
        ≡ (next, respond s (keep s pool next id t) id (framed s held))
  unfolding handle_info requested answer
  request_lem pool t packet req e = rw (e, handle_info, requested, answer) refl

  -- What a packet makes of the pool, whoever it is from, and the effects.
  pub received_lem :
      (pool : Pool) (t : ℕ) (packet : List ℕ)
      → IsValid pool
      → (next : Pool) × (held : Maybe Held) × (id : ClientId) × Spares id t pool next
        × (handle_info s pool t (received packet)
            ≡ (next, respond s (keep s pool next id t) id held))
  received_lem pool t packet w = elim (Option-cases (parse_request packet)) [
    | inl e ↦ (
      pool,
      none,
      [],
      Spares-refl [] t pool,
      unfold handle_info requested answer in rw (e, handle_info, requested, answer) refl,
    )
    | inr (req, e) ↦ (
      (handle s.cfg pool req t).1,
      framed s (handle s.cfg pool req t).0,
      client_id req.options req.chaddr,
      handle-Spares s.cfg pool req t w,
      request_lem pool t packet req e,
    )
  ]

  received-Kept :
      (pool : Pool) (store : T.Store) (t : ℕ) (packet : List ℕ)
      → s.keeps ≡ true
      → IsValid pool
      → Kept t pool store
      → After t store (handle_info s pool t (received packet))
  received-Kept pool store t packet k w v =
      let (next, held, id, spared, e) = received_lem pool t packet w in
      subst (After t store) (sym e) (respond-Kept pool next store id t held k spared v)

  pruned-Kept :
      (pool : Pool) (store : T.Store) (t : ℕ) → Kept t pool store → Kept t pool (T.prune store t)
  unfolding Kept
  pruned-Kept pool store t v c e = law.prune_good store t c ∙ v c e

  handle_info-Kept :
      (pool : Pool) (store : T.Store) (t : ℕ) (m : Message)
      → s.keeps ≡ true
      → IsValid pool
      → Kept t pool store
      → After t store (handle_info s pool t m)
  unfolding handle_info
  handle_info-Kept pool store t (received packet) k w v =
      unfold handle_info in received-Kept pool store t packet k w v
  handle_info-Kept pool store t expire_due k w v =
      unfold carry_all carry_out in pruned-Kept pool store t v
  handle_info-Kept pool store t m k w v = unfold carry_all carry_out in v

  handle_info-IsValid :
      (pool : Pool) (t : ℕ) (m : Message) → IsValid pool → IsValid (handle_info s pool t m).0
  unfolding handle_info requested answer
  handle_info-IsValid pool t (received packet) w = elim (Option-cases (parse_request packet)) [
    | inl e ↦ rw (e, requested, answer) w
    | inr (req, e) ↦ rw (e, requested, answer) (handle-IsValid s.cfg pool req t w)
  ]
  handle_info-IsValid pool t m w = w

  -- The server and its table over messages, each with the time since the one before it.
  pub run : ℕ → Pool → T.Store → List (ℕ × Message) → ℕ × Pool × T.Store
  unfolding carry_all
  run t pool store [] = (t, pool, store)
  run t pool store ((since, m) ∷ ms) =
      let (next, effs) = handle_info s pool (t + since) m in
      run (t + since) next (carry_all T store effs) ms

  -- A server that keeps its leases, on a table that works, starts from a well-formed pool whose
  -- committed leases are the good leases of the table, but for clients with an empty identity. After
  -- any messages they still are, at the instant of the last: for each other client the good lease of
  -- the table and the committed lease of the pool are the same, or there is neither.
  pub run-Kept :
      (t : ℕ) (pool : Pool) (store : T.Store) (ms : List (ℕ × Message))
      → s.keeps ≡ true
      → IsValid pool
      → Kept t pool store
      → Kept (run t pool store ms).0 (run t pool store ms).1 (run t pool store ms).2
  unfolding run
  run-Kept t pool store [] k w v = v
  run-Kept t pool store ((since, m) ∷ ms) k w v =
      let u : ℕ = t + since in
      run-Kept u (handle_info s pool u m).0 (carry_all T store (handle_info s pool u m).1) ms k
        (handle_info-IsValid pool u m w)
        (handle_info-Kept pool store u m k w (later-Kept t u pool store (omega arith) v))
