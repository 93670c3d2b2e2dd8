-- ===== src/Dhcpv4Server/Waits.antt =====
-- internal/dhcpv4server: a reply that grants a lease waits for the table.
use minuteman.Base.{
  ℕ, ◌≡◌, refl, sym, ap, ◌∙◌, List, [], ◌∷◌, Bool, true, false, Option as Maybe, none, some,
}
use minuteman.Netip.{bytes_discrete}
use minuteman.Dhcpv4.Pool.{Pool, Lease, ClientId}
use minuteman.Dhcpv4.Pool.Calls.{committed_lease}
use minuteman.Dhcpv4.Pool.Valid.{IsValid}
use minuteman.Dhcpv4.Pool.Spares.{Spares}
use minuteman.Dhcpv4.Pool.Lasting.{good}
use minuteman.Dhcpv4Server.{
  Server, Held, received, Effect, send, send_active, Change, unchanged, removed, changed, is_empty,
  keep, reply, respond, handle_info,
}
use minuteman.Dhcpv4Server.Tables.{Table, IsTable, written}
use minuteman.Dhcpv4Server.Kept.{Kept, written-Kept, received_lem}

-- A frame is among the effects.
unfoldable pub sends : List Effect → Bool
sends [] = false
sends (send held ∷ es) = true
sends (send_active held ∷ es) = true
sends (e ∷ es) = sends es

module _ (s : Server) (T : Table) (law : IsTable T) where
  written_sent :
      (store : T.Store) (ch : Change) (id c : ClientId) (held : Maybe Held) (t : ℕ) (l : Lease)
      → sends (respond s ch id held) ≡ true
      → good t (T.entry (written T store id ch) c) ≡ some l
      → good t (T.entry store c) ≡ some l
  written_sent store unchanged id c held t l h e = e
  written_sent store removed id c held t l h e = elim (bytes_discrete c id) [
    | no far ↦ ap (good t) (sym (law.erase_other store id c far)) ∙ e
    | yes same ↦
        let gone : none ≡ some l =
          sym (
            ap (λ d. good t (T.entry (T.erase store id) d)) same
            ∙ ap (good t) (law.erase_own store id)
            ∙ (unfold good in refl))
          ∙ e in
        cc
  ]
  written_sent store (changed x) id c (some held) t l h e = absurd (unfold respond sends in cc)
  written_sent store (changed x) id c none t l h e = absurd (unfold respond reply sends in cc)

  responded :
      (pool next : Pool) (store : T.Store) (id c : ClientId) (held : Maybe Held) (t : ℕ) (l : Lease)
      → s.keeps ≡ true
      → Spares id t pool next
      → Kept s T law t pool store
      → sends (respond s (keep s pool next id t) id held) ≡ true
      → is_empty c ≡ false
      → committed_lease next c t ≡ some l
      → good t (T.entry store c) ≡ some l
  responded pool next store id c held t l k spared v h f e =
      let after : good t (T.entry (written T store id (keep s pool next id t)) c)
          ≡ committed_lease next c t =
        unfold Kept in written-Kept s T law pool next store id t k spared v c f in
      written_sent store (keep s pool next id t) id c held t l h (after ∙ e)

  -- When a server that keeps its leases answers a request at once, every committed lease of its pool
  -- after the request, but for clients with an empty identity, is good on the table before it: an
  -- ACK that grants or extends a lease does not go out with the request itself.
  pub handle_info-waits :
      (pool : Pool) (store : T.Store) (t : ℕ) (packet : List ℕ) (c : ClientId) (l : Lease)
      → s.keeps ≡ true
      → IsValid pool
      → Kept s T law t pool store
      → sends (handle_info s pool t (received packet)).1 ≡ true
      → is_empty c ≡ false
      → committed_lease (handle_info s pool t (received packet)).0 c t ≡ some l
      → good t (T.entry store c) ≡ some l
  handle_info-waits pool store t packet c l k w v h f e =
      let (next, held, id, spared, q) = received_lem s T law pool t packet w in
      responded pool next store id c held t l k spared v
        (ap (λ (o : Pool × List Effect). sends o.1) (sym q) ∙ h) f
        (ap (λ (o : Pool × List Effect). committed_lease o.0 c t) (sym q) ∙ e)
