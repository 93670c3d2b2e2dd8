-- ===== src/Dhcpv4/Handler/Answers.antt =====
-- pkg/dhcpv4/handler.go: the answers to a DHCPREQUEST.
use minuteman.Base.{
  ℕ, ◌+◌, ◌<◌, ◌≡◌, ◌≢◌, refl, sym, ap, ◌∙◌, subst, arith, ◌⊎◌, inl, inr, Option as Maybe, none,
  some, Option-cases, Bool-cases, true, false, not, ◌||◌,
}
use minuteman.Netip.{Addr, same_addr, is_valid, is_unspecified}
use minuteman.Dhcpv4.Options.{Message, message_type, requested_ip, server_id, get, new_message_type}
use minuteman.Dhcpv4.Pool.{Pool, ClientId}
use minuteman.Dhcpv4.Pool.Calls.{binding, commit}
use minuteman.Dhcpv4.Pool.Promises.{binding-commit}
use minuteman.Dhcpv4.Kind
use minuteman.Dhcpv4.Handler.{
  InterfaceConfig, build_reply, build_nak, settle, selecting, renewing, request_target,
  handle_request,
}

-- The type of a reply that is built.
build_reply-type :
    (cfg : InterfaceConfig) (p : Pool) (req : Message) (mt : ℕ) (a : Addr)
    → message_type (build_reply cfg p req mt a).options ≡ some mt
unfolding build_reply message_type get new_message_type
build_reply-type cfg p req mt a = refl

build_nak-type :
    (cfg : InterfaceConfig) (req : Message)
    → message_type (build_nak cfg req).options ≡ some Kind.nak
unfolding build_nak message_type get new_message_type
build_nak-type cfg req = refl

build_reply-yiaddr :
    (cfg : InterfaceConfig) (p : Pool) (req : Message) (mt : ℕ) (a : Addr)
    → (build_reply cfg p req mt a).yiaddr ≡ a
unfolding build_reply
build_reply-yiaddr cfg p req mt a = refl

-- The address that a DHCPREQUEST is about: what it asks for or, in a request that names no server,
-- what it already has.
pub about : Message → Maybe Addr
unfolding request_target
about req = elim (server_id req.options) [
  | none ↦ some (request_target req)
  | some sid ↦ requested_ip req.options
]

-- What a reply to a DHCPREQUEST says of the pool before it and after it.
pub record IsAnswer (pool after : Pool) (client : ClientId) (target : Maybe Addr) (now : ℕ)
    (m : Message) : Type 0 where
  pub acknowledged :
      message_type m.options ≡ some Kind.ack
      → (target ≡ some m.yiaddr)
        × (binding pool client now ≡ some m.yiaddr)
        × ((t : ℕ) → t < now + pool.duration → binding after client t ≡ some m.yiaddr)
  pub refused :
      message_type m.options ≡ some Kind.nak → (binding pool client now ≢ target) × (after ≡ pool)
  pub either : (message_type m.options ≡ some Kind.ack) ⊎ (message_type m.options ≡ some Kind.nak)

module _ (cfg : InterfaceConfig) (pool : Pool) (req : Message) (client : ClientId) (now : ℕ) where
  ack-IsAnswer :
      (a : Addr)
      → binding pool client now ≡ some a
      → IsAnswer pool
          (commit pool client a now)
          client
          (some a)
          now
          (build_reply cfg (commit pool client a now) req Kind.ack a)
  ack-IsAnswer a b =
      let p : Pool = commit pool client a now in
      let same = build_reply-yiaddr cfg p req Kind.ack a in
      record {
        acknowledged = λ k. rw same (refl, b, binding-commit pool client a now);
        refused = λ k. absurd (ground (arith, build_reply-type cfg p req Kind.ack a, k));
        either = inl (build_reply-type cfg p req Kind.ack a);
      }

  nak-IsAnswer :
      (target : Maybe Addr)
      → binding pool client now ≢ target
      → IsAnswer pool pool client target now (build_nak cfg req)
  nak-IsAnswer target far = record {
    acknowledged = λ k. absurd (ground (arith, build_nak-type cfg req, k));
    refused = λ k. (far, refl);
    either = inr (build_nak-type cfg req);
  }

  none-ne-some {ℓ} : {A : Type ℓ} {a : A} → none ≢ some a
  none-ne-some k = cc

  same_addr-true : (a b : Addr) → same_addr a b ≡ true → a ≡ b
  same_addr-true a b h = ground arith

  same_addr-false : (a b : Addr) → same_addr a b ≡ false → a ≢ b
  same_addr-false a b h = ground arith

  some-injective {ℓ} : {A : Type ℓ} {a b : A} → some a ≡ some b → a ≡ b
  some-injective e = cc

  settle-IsAnswer :
      (target bound : Addr) (m : Message)
      → binding pool client now ≡ some bound
      → (settle cfg pool req client now target bound).0 ≡ some m
      → IsAnswer pool (settle cfg pool req client now target bound).1 client (some target) now m
  unfolding settle
  settle-IsAnswer target bound m b e = elim (Bool-cases (same_addr bound target)) [
    | inl h ↦
        rw (h, settle)
          (subst (IsAnswer pool (commit pool client target now) client (some target) now)
            (some-injective (rw (h, settle) at e))
            (ack-IsAnswer target (b ∙ ap some (same_addr-true bound target h))))
    | inr h ↦
        rw (h, settle)
          (subst (IsAnswer pool pool client (some target) now)
            (some-injective (rw (h, settle) at e))
            (nak-IsAnswer (some target)
              (λ k. same_addr-false bound target h (some-injective (sym b ∙ k)))))
  ]

  selecting-IsAnswer :
      (sid : Addr) (m : Message)
      → (selecting cfg pool req client now sid).0 ≡ some m
      → IsAnswer pool
          (selecting cfg pool req client now sid).1
          client
          (requested_ip req.options)
          now
          m
  unfolding selecting
  selecting-IsAnswer sid m e = elim (Bool-cases (same_addr sid cfg.server_ip)) [
    | inr h ↦ absurd (ground (arith, h, e))
    | inl h ↦ elim (Option-cases (requested_ip req.options)) [
      | inl f ↦ absurd (none-ne-some (rw (h, f) at e))
      | inr (target, f) ↦ elim (Option-cases (binding pool client now)) [
        | inl g ↦
            rw (h, f, g)
              (subst (IsAnswer pool pool client (some target) now)
                (some-injective (rw (h, f, g) at e))
                (nak-IsAnswer (some target) (λ k. none-ne-some (sym g ∙ k))))
        | inr (bound, g) ↦ rw (h, f, g) (settle-IsAnswer target bound m g (rw (h, f, g) at e))
      ]
    ]
  ]

  renewing-IsAnswer :
      (m : Message)
      → (renewing cfg pool req client now).0 ≡ some m
      → IsAnswer pool (renewing cfg pool req client now).1 client (some (request_target req)) now m
  unfolding renewing
  renewing-IsAnswer m e =
      elim (Bool-cases
        (not (is_valid (request_target req)) || is_unspecified (request_target req))) [
          | inl h ↦ absurd (none-ne-some (rw h at e))
          | inr h ↦ elim (Option-cases (binding pool client now)) [
            | inl g ↦ absurd (none-ne-some (rw (h, g) at e))
            | inr (bound, g) ↦
                rw (h, g) (settle-IsAnswer (request_target req) bound m g (rw (h, g) at e))
          ]
        ]

  -- Every reply to a DHCPREQUEST is an ACK of the address in question, which the client held and
  -- keeps for the lease time, or a NAK that leaves the pool alone, and then the client did not
  -- hold that address.
  pub handle_request-IsAnswer :
      (m : Message)
      → (handle_request cfg pool req client now).0 ≡ some m
      → IsAnswer pool (handle_request cfg pool req client now).1 client (about req) now m
  unfolding handle_request about
  handle_request-IsAnswer m e = elim (Option-cases (server_id req.options)) [
    | inl f ↦ rw (f, handle_request, about) (renewing-IsAnswer m (rw (f, handle_request) at e))
    | inr (sid, f) ↦
        rw (f, handle_request, about) (selecting-IsAnswer sid m (rw (f, handle_request) at e))
  ]
