-- ===== src/Dhcpv4/Handler/Others.antt =====
-- pkg/dhcpv4/handler.go: a message touches no committed lease but its client's.
use minuteman.Base.{
  ℕ, Bool, none, ◌==◌, if◌then◌else◌, Option as Maybe, ◌≡◌, some, subst, true, false, arith, inl,
  inr, Option-cases, Bool-cases,
}
use minuteman.Netip.{Addr, same_addr}
use minuteman.Dhcpv4.Options.{Message, message_type, requested_ip, server_id, client_id}
use minuteman.Dhcpv4.Pool.{Pool, ClientId}
use minuteman.Dhcpv4.Pool.Calls.{offer, binding, release}
use minuteman.Dhcpv4.Pool.Valid.{IsValid}
use minuteman.Dhcpv4.Pool.Spares.{
  Spares, Spares-refl, offer-Spares, commit-Spares, cancel_offer-Spares, release-Spares,
  decline-Spares,
}
use minuteman.Dhcpv4.Handler.{
  InterfaceConfig, settle, selecting, renewing, request_target, handle_request, handle_discover,
  handle_release, handle_decline, decline_named, dispatch, handle, or_invalid, addressed,
}
use minuteman.Dhcpv4.Kind

same_target : (a b : Addr) → same_addr a b ≡ true → a ≡ b
same_target a b e = ground arith

module _ (cfg : InterfaceConfig) (pool : Pool) (v : IsValid pool) (req : Message)
    (client : ClientId) (now : ℕ) where
  abbrev Spared : Pool → Type 0
  Spared q = Spares client now pool q

  untouched : Spared pool
  untouched = Spares-refl client now pool

  either_way :
      (b : Bool) (x y : Maybe Message × Pool)
      → Spared x.1
      → Spared y.1
      → Spared (if b then x else y).1
  either_way true x y h k = h
  either_way false x y h k = k

  settle-Spares :
      (target bound : Addr)
      → binding pool client now ≡ some bound
      → Spared (settle cfg pool req client now target bound).1
  unfolding settle
  settle-Spares target bound h = elim (Bool-cases (same_addr bound target)) [
    | inl e ↦ rw e (
        commit-Spares pool client target now v.paired
          (subst (λ a. binding pool client now ≡ some a) (same_target bound target e) h))
    | inr e ↦ rw e untouched
  ]

  selecting-Spares : (sid : Addr) → Spared (selecting cfg pool req client now sid).1
  unfolding selecting
  selecting-Spares sid = elim (Bool-cases (same_addr sid cfg.server_ip)) [
    | inr e ↦ rw e (cancel_offer-Spares pool client now)
    | inl e ↦ elim (Option-cases (requested_ip req.options)) [
      | inl f ↦ rw (e, f) untouched
      | inr (target, f) ↦ elim (Option-cases (binding pool client now)) [
        | inl g ↦ rw (e, f, g) untouched
        | inr (bound, g) ↦ rw (e, f, g) (settle-Spares target bound g)
      ]
    ]
  ]

  renewing-Spares : Spared (renewing cfg pool req client now).1
  unfolding renewing
  renewing-Spares = elim (Option-cases (binding pool client now)) [
    | inl g ↦ rw g (either_way _ (none, pool) (none, pool) untouched untouched)
    | inr (bound, g) ↦
        rw g (either_way _ (none, pool) _ untouched (settle-Spares (request_target req) bound g))
  ]

  handle_request-Spares : Spared (handle_request cfg pool req client now).1
  unfolding handle_request
  handle_request-Spares = elim (Option-cases (server_id req.options)) [
    | inl e ↦ rw (e, handle_request) renewing-Spares
    | inr (sid, e) ↦ rw (e, handle_request) (selecting-Spares sid)
  ]

  handle_discover-Spares : Spared (handle_discover cfg pool req client now).1
  unfolding handle_discover
  handle_discover-Spares =
      let asked : Addr = or_invalid (requested_ip req.options) in
      let after : Spared (offer pool client asked now).1 = offer-Spares pool client asked now v in
      elim (Option-cases (offer pool client asked now).0) [
        | inl e ↦ rw (e, handle_discover) after
        | inr (ip, e) ↦ rw (e, handle_discover) after
      ]

  handle_release-Spares : Spared (handle_release cfg pool req client)
  unfolding handle_release
  handle_release-Spares =
      let released : Spared (release pool client req.ciaddr) =
        release-Spares pool client req.ciaddr now in
      elim (Option-cases (server_id req.options)) [
        | inl e ↦ rw (e, handle_release) released
        | inr (sid, e) ↦ elim (Bool-cases (same_addr sid cfg.server_ip)) [
          | inl f ↦ rw (e, handle_release, f) released
          | inr f ↦ rw (e, handle_release, f) untouched
        ]
      ]

  decline_named-Spares : Spared (decline_named pool req client now)
  unfolding decline_named
  decline_named-Spares = elim (Option-cases (requested_ip req.options)) [
    | inl e ↦ rw (e, decline_named) untouched
    | inr (a, e) ↦ rw (e, decline_named) (decline-Spares pool client a now now)
  ]

  handle_decline-Spares : Spared (handle_decline cfg pool req client now)
  unfolding handle_decline
  handle_decline-Spares = elim (Option-cases (server_id req.options)) [
    | inl e ↦ rw (e, handle_decline) untouched
    | inr (sid, e) ↦ elim (Bool-cases (same_addr sid cfg.server_ip)) [
      | inl f ↦ rw (e, handle_decline, f) decline_named-Spares
      | inr f ↦ rw (e, handle_decline, f) untouched
    ]
  ]

  dispatch-Spares : (mt : ℕ) → Spared (dispatch cfg pool req client now mt).1
  unfolding dispatch
  dispatch-Spares mt = either_way (mt == Kind.discover) _ _ handle_discover-Spares (
      either_way (mt == Kind.request) _ _ handle_request-Spares (
        either_way (mt == Kind.release) (none, _) _ handle_release-Spares
          (either_way (mt == Kind.decline) (none, _) _ handle_decline-Spares
            (either_way (mt == Kind.inform) (some _, pool) (none, pool) untouched untouched))))

-- Whatever message arrives, the committed lease of every client but the one that asks is as it was.
pub handle-Spares :
    (cfg : InterfaceConfig) (pool : Pool) (req : Message) (now : ℕ)
    → IsValid pool
    → Spares (client_id req.options req.chaddr) now pool (handle cfg pool req now).1
unfolding handle
handle-Spares cfg pool req now v =
    let client : ClientId = client_id req.options req.chaddr in
    elim (Option-cases (message_type req.options)) [
      | inl e ↦
          rw (e, handle)
            (either_way cfg pool v req client now (addressed req) (none, pool) (none, pool)
              (Spares-refl client now pool) (Spares-refl client now pool))
      | inr (mt, e) ↦
          rw (e, handle)
            (either_way cfg pool v req client now (addressed req) _ (none, pool)
              (dispatch-Spares cfg pool v req client now mt) (Spares-refl client now pool))
    ]
