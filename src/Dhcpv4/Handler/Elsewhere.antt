-- ===== src/Dhcpv4/Handler/Elsewhere.antt =====
-- pkg/dhcpv4/handler.go: a message that is meant for another server.
use minuteman.Base.{
  ℕ, ◌≡◌, ◌≢◌, ◌⊎◌, refl, sym, subst, arith, inl, inr, Option as Maybe, none, some, Bool, true,
  false, Bool-cases, ◌==◌, ==_iff, if◌then◌else◌,
}
use minuteman.Netip.{Addr, same_addr}
use minuteman.Dhcpv4.Options.{Message, message_type, server_id, client_id}
use minuteman.Dhcpv4.Pool.{Pool, ClientId}
use minuteman.Dhcpv4.Pool.Calls.{cancel_offer, committed_lease}
use minuteman.Dhcpv4.Pool.Spares.{cancel_offer-committed}
use minuteman.Dhcpv4.Kind
use minuteman.Dhcpv4.Handler.{
  InterfaceConfig, selecting, handle_request, handle_release, handle_decline, dispatch, handle,
  addressed, build_inform_ack,
}

-- What is left of the pool, and the reply: the pool is as it was, but for a DHCPREQUEST that takes back
-- the client's offer; no committed lease has changed; and only a DHCPINFORM is answered.
pub record IsLeft (pool : Pool) (client : ClientId) (now mt : ℕ) (o : Maybe Message × Pool)
    : Type 0 where
  pub same : (o.1 ≡ pool) ⊎ ((mt ≡ Kind.request) × (o.1 ≡ cancel_offer pool client))
  pub leases : (c : ClientId) → committed_lease o.1 c now ≡ committed_lease pool c now
  pub silent : (mt ≡ Kind.inform) ⊎ (o.0 ≡ none)

not_server : (a b : Addr) → a ≢ b → same_addr a b ≡ false
not_server a b h = ground arith

module _ (cfg : InterfaceConfig) (pool : Pool) (req : Message) (client : ClientId) (now : ℕ) where
  abbrev Left : ℕ → Maybe Message × Pool → Type 0
  Left mt o = IsLeft pool client now mt o

  either :
      (mt : ℕ) (b : Bool) (x y : Maybe Message × Pool)
      → Left mt x
      → Left mt y
      → Left mt (if b then x else y)
  either mt true x y h k = h
  either mt false x y h k = k

  ignored : (mt : ℕ) → IsLeft pool client now mt (none, pool)
  ignored mt = record { same = inl refl; leases = λ c. refl; silent = inr refl }

  informed :
      (mt : ℕ) (ack : Message)
      → Left mt (if mt == Kind.inform then (some ack, pool) else (none, pool))
  informed mt ack = elim (Bool-cases (mt == Kind.inform)) [
    | inl e ↦
        rw e (record {
          same = inl refl;
          leases = λ c. refl;
          silent = inl ((==_iff mt Kind.inform).0 e);
        })
    | inr e ↦ rw e (ignored mt)
  ]

  module _ (sid : Addr) (named : server_id req.options ≡ some sid) (far : sid ≢ cfg.server_ip) where
    request-IsLeft : IsLeft pool client now Kind.request (handle_request cfg pool req client now)
    unfolding handle_request selecting
    request-IsLeft =
        rw (named, handle_request, not_server sid cfg.server_ip far)
          (record {
            same = inr (refl, refl);
            leases = λ c. cancel_offer-committed pool client c now;
            silent = inr refl;
          })

    release_ignored : handle_release cfg pool req client ≡ pool
    unfolding handle_release
    release_ignored = rw (named, handle_release, not_server sid cfg.server_ip far) refl

    decline_ignored : handle_decline cfg pool req client now ≡ pool
    unfolding handle_decline
    decline_ignored = rw (named, handle_decline, not_server sid cfg.server_ip far) refl

    dispatch-IsLeft :
        (mt : ℕ)
        → mt ≢ Kind.discover
        → IsLeft pool client now mt (dispatch cfg pool req client now mt)
    unfolding dispatch
    dispatch-IsLeft mt h = elim (Bool-cases (mt == Kind.discover)) [
      | inl e ↦ absurd (h ((==_iff mt Kind.discover).0 e))
      | inr e ↦ elim (Bool-cases (mt == Kind.request)) [
        | inl f ↦
            let is : Kind.request ≡ mt = omega (arith, (==_iff mt Kind.request).0 f) in
            rw (e, f)
              (subst (λ k. IsLeft pool client now k (handle_request cfg pool req client now)) is
                request-IsLeft)
        | inr f ↦
            rw (e, f)
              (either mt (mt == Kind.release) (none, handle_release cfg pool req client) _
                (subst (λ q. Left mt (none, q)) (sym release_ignored) (ignored mt))
                (either mt (mt == Kind.decline) (none, handle_decline cfg pool req client now) _
                  (subst (λ q. Left mt (none, q)) (sym decline_ignored) (ignored mt))
                  (informed mt (build_inform_ack cfg req))))
      ]
    ]

-- A message that has a type, not DHCPDISCOVER, and names another server leaves the pool as it was,
-- but that a DHCPREQUEST may take back what was offered to the client; no client's committed lease
-- changes; and nothing but a DHCPINFORM is answered.
pub handle-IsLeft :
    (cfg : InterfaceConfig) (pool : Pool) (req : Message) (now : ℕ) (sid : Addr) (mt : ℕ)
    → server_id req.options ≡ some sid
    → sid ≢ cfg.server_ip
    → message_type req.options ≡ some mt
    → mt ≢ Kind.discover
    → IsLeft pool (client_id req.options req.chaddr) now mt (handle cfg pool req now)
unfolding handle
handle-IsLeft cfg pool req now sid mt named far kind other =
    let client : ClientId = client_id req.options req.chaddr in
    rw (kind, handle)
      (either cfg pool req client now mt (addressed req) (dispatch cfg pool req client now mt)
        (none, pool) (dispatch-IsLeft cfg pool req client now sid named far mt other)
        (ignored cfg pool req client now mt))
