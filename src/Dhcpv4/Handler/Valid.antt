-- ===== src/Dhcpv4/Handler/Valid.antt =====
-- pkg/dhcpv4/handler.go: no message breaks the pool.
use minuteman.Base.{ℕ, arith, inl, inr, Option-cases, Bool-cases}
use minuteman.Netip.{Addr, same_addr}
use minuteman.Dhcpv4.Options.{Message, message_type, requested_ip, server_id, client_id}
use minuteman.Dhcpv4.Pool.{Pool, ClientId}
use minuteman.Dhcpv4.Pool.Calls.{
  offer, binding, commit, release, call, offers, commits, cancels, releases, declines,
}
use minuteman.Dhcpv4.Pool.Valid.{IsValid, call-IsValid}
use minuteman.Dhcpv4.Handler.{
  InterfaceConfig, settle, selecting, renewing, request_target, handle_request, handle_discover,
  handle_release, handle_decline, decline_named, dispatch, handle, or_invalid,
}

module _ (cfg : InterfaceConfig) (pool : Pool) (v : IsValid pool) (req : Message)
    (client : ClientId) (now : ℕ) where
  commit-IsValid : (a : Addr) → IsValid (commit pool client a now)
  commit-IsValid a = unfold call in call-IsValid pool (commits client a now) v

  settle-IsValid : (target bound : Addr) → IsValid (settle cfg pool req client now target bound).1
  unfolding settle
  settle-IsValid target bound = ground (arith, commit-IsValid target)

  selecting-IsValid : (sid : Addr) → IsValid (selecting cfg pool req client now sid).1
  unfolding selecting
  selecting-IsValid sid = elim (Bool-cases (same_addr sid cfg.server_ip)) [
    | inr e ↦ rw e (unfold call in call-IsValid pool (cancels client) v)
    | inl e ↦ elim (Option-cases (requested_ip req.options)) [
      | inl f ↦ rw (e, f) v
      | inr (target, f) ↦ elim (Option-cases (binding pool client now)) [
        | inl g ↦ rw (e, f, g) v
        | inr (bound, g) ↦ rw (e, f, g) (settle-IsValid target bound)
      ]
    ]
  ]

  renewing-IsValid : IsValid (renewing cfg pool req client now).1
  unfolding renewing
  renewing-IsValid = elim (Option-cases (binding pool client now)) [
    | inl g ↦ rw g (ground arith)
    | inr (bound, g) ↦ rw g (ground (arith, settle-IsValid (request_target req) bound))
  ]

  handle_request-IsValid : IsValid (handle_request cfg pool req client now).1
  unfolding handle_request
  handle_request-IsValid = elim (Option-cases (server_id req.options)) [
    | inl e ↦ rw (e, handle_request) renewing-IsValid
    | inr (sid, e) ↦ rw (e, handle_request) (selecting-IsValid sid)
  ]

  handle_discover-IsValid : IsValid (handle_discover cfg pool req client now).1
  unfolding handle_discover
  handle_discover-IsValid =
      let asked : Addr = or_invalid (requested_ip req.options) in
      let after : IsValid (offer pool client asked now).1 =
        unfold call in call-IsValid pool (offers client asked now) v in
      elim (Option-cases (offer pool client asked now).0) [
        | inl e ↦ rw (e, handle_discover) after
        | inr (ip, e) ↦ rw (e, handle_discover) after
      ]

  handle_release-IsValid : IsValid (handle_release cfg pool req client)
  unfolding handle_release
  handle_release-IsValid =
      let released : IsValid (release pool client req.ciaddr) =
        unfold call in call-IsValid pool (releases client req.ciaddr) v in
      elim (Option-cases (server_id req.options)) [
        | inl e ↦ rw (e, handle_release) released
        | inr (sid, e) ↦ rw (e, handle_release) (ground (arith, released))
      ]

  decline_named-IsValid : IsValid (decline_named pool req client now)
  unfolding decline_named
  decline_named-IsValid = elim (Option-cases (requested_ip req.options)) [
    | inl e ↦ rw (e, decline_named) v
    | inr (a, e) ↦
        rw (e, decline_named) (unfold call in call-IsValid pool (declines client a now) v)
  ]

  handle_decline-IsValid : IsValid (handle_decline cfg pool req client now)
  unfolding handle_decline
  handle_decline-IsValid = elim (Option-cases (server_id req.options)) [
    | inl e ↦ rw (e, handle_decline) v
    | inr (sid, e) ↦ rw (e, handle_decline) (ground (arith, decline_named-IsValid))
  ]

  dispatch-IsValid : (mt : ℕ) → IsValid (dispatch cfg pool req client now mt).1
  unfolding dispatch
  dispatch-IsValid mt = ground (
    arith, handle_request-IsValid, handle_discover-IsValid, handle_release-IsValid,
    handle_decline-IsValid,
  )

-- Whatever message arrives, a well-formed pool stays well formed.
pub handle-IsValid :
    (cfg : InterfaceConfig) (pool : Pool) (req : Message) (now : ℕ)
    → IsValid pool
    → IsValid (handle cfg pool req now).1
unfolding handle
handle-IsValid cfg pool req now v = elim (Option-cases (message_type req.options)) [
  | inl e ↦ rw e (ground arith)
  | inr (mt, e) ↦
      rw e
        (ground (arith, dispatch-IsValid cfg pool v req (client_id req.options req.chaddr) now mt))
]
