-- ===== src/PrefixDelegation/Lease/Wire.antt =====
-- pkg/prefixdelegation: what any reply off the wire makes of a lease.
use minuteman.Base.{
  ℕ, ◌*◌, ◌≤◌, ◌<◌, ◌≡◌, subst, arith, List, [], ◌∷◌, ◌++◌, ltb, ◌==◌, All, All-append, All-take,
  All-drop, take, drop, length, Option, none, some, ◌⊎◌, ◌≢◌, inl, inr, Bool-cases,
}
use minuteman.Base.Bytes.{IsByte, get_u32, get_u32-lt}
use minuteman.Netip.{Addr}
use minuteman.Dhcpv6.Options.{
  DhcpOption, Options, Result, stuck, ok, err, get, parse_options, >>=-eq_ok,
}
use minuteman.Dhcpv6.Options.RoundTrip.{parse_options-bytes}
use minuteman.Dhcpv6.Message.{Message, server_id}
use minuteman.PrefixDelegation.{IaPrefix, Iapd, second, infinite_lifetime}
use minuteman.PrefixDelegation.Options.{
  parse_ia_prefix, parse_status_code, add_suboption, add_suboptions, parse_iapd, option_ia_pd,
  option_ia_prefix, option_status_code,
}
use minuteman.PrefixDelegation.Bounds.{IsUsable, IsUsableIapd, effective_timers_ordered}
use minuteman.PrefixDelegation.Lease.{
  Lease, accepted, usable_iapd, drop_inverted, check_order, check_prefixes, check_status, parsed,
  or_refuse, Refusal, no_server_id, no_ia_pd, >>=-eq_accepted, lease_from_reply, new_lease,
  usable_dns,
}

-- A time off the wire: whole seconds, at most infinity.
abbrev IsWireTime : ℕ → Type 0
IsWireTime t = (t ≤ infinite_lifetime) × ((t ≡ 0) ⊎ (second ≤ t))

record IsWire (a : Iapd) : Type 0 where
  t1_wire : IsWireTime a.t1
  t2_wire : IsWireTime a.t2
  prefixes_wire : All (λ (p : IaPrefix). IsWireTime p.valid_lifetime) a.prefixes

seconds_wire : (b : List ℕ) → All IsByte b → IsWireTime (get_u32 b * second)
seconds_wire b bs = omega (arith, get_u32-lt b bs)

parse_ia_prefix-wire :
    (b : List ℕ) (p : IaPrefix)
    → All IsByte b
    → parse_ia_prefix b ≡ ok p
    → IsWireTime p.valid_lifetime
unfolding parse_ia_prefix
parse_ia_prefix-wire b p bs e = ground (
  arith,
  seconds_wire (take 4 (drop 4 b)) (All-take IsByte 4 (drop 4 b) (All-drop IsByte 4 b bs)),
)

add_suboption-IsWire :
    (a a' : Iapd) (sub : DhcpOption)
    → All IsByte sub.payload
    → IsWire a
    → add_suboption a sub ≡ ok a'
    → IsWire a'
unfolding add_suboption
add_suboption-IsWire a a' sub bs w e = elim (Bool-cases (sub.code == option_ia_prefix)) [
  | inl h ↦
      let (p, found, same) = >>=-eq_ok (parse_ia_prefix sub.payload) _ (rw h at e) in
      subst IsWire (let eq : record a { prefixes = a.prefixes ++ p ∷ [] } ≡ a' = cc same in eq)
        (record {
          t1_wire = w.t1_wire;
          t2_wire = w.t2_wire;
          prefixes_wire =
              All-append (λ (q : IaPrefix). IsWireTime q.valid_lifetime) a.prefixes (p ∷ [])
                w.prefixes_wire (parse_ia_prefix-wire sub.payload p bs found, tt);
        })
  | inr h ↦ elim (Bool-cases (sub.code == option_status_code)) [
    | inl k ↦
        let (sc, found, same) = >>=-eq_ok (parse_status_code sub.payload) _ (rw (h, k) at e) in
        subst IsWire (let eq : record a { status_code = some sc } ≡ a' = cc same in eq)
          (record { t1_wire = w.t1_wire; t2_wire = w.t2_wire; prefixes_wire = w.prefixes_wire })
    | inr k ↦ subst IsWire (let eq : a ≡ a' = cc (rw (h, k) at e) in eq) w
  ]
]

add_suboptions-IsWire :
    (a a' : Iapd) (subs : Options)
    → All (λ (o : DhcpOption). All IsByte o.payload) subs
    → IsWire a
    → add_suboptions a subs ≡ ok a'
    → IsWire a'
unfolding add_suboptions
add_suboptions-IsWire a a' [] bs w e = ground arith
add_suboptions-IsWire a a' (sub ∷ subs) (b, bs) w e =
    let (next, first, later) = >>=-eq_ok (add_suboption a sub) _ e in
    add_suboptions-IsWire next a' subs bs (add_suboption-IsWire a next sub b w first) later

parse_iapd-IsWire :
    (o : DhcpOption) (a : Iapd) → All IsByte o.payload → parse_iapd o ≡ ok a → IsWire a
unfolding parse_iapd
parse_iapd-IsWire o a bs e = elim (Bool-cases (ltb (length o.payload) 12)) [
  | inl h ↦ cc (rw h at e)
  | inr h ↦
      let (subs, found, later) = >>=-eq_ok (parse_options (drop 12 o.payload)) _ (rw h at e) in
      add_suboptions-IsWire _ a subs
        (parse_options-bytes (drop 12 o.payload) subs (All-drop IsByte 12 o.payload bs) found)
        (record {
          t1_wire =
              seconds_wire (take 4 (drop 4 o.payload))
                (All-take IsByte 4 (drop 4 o.payload) (All-drop IsByte 4 o.payload bs));
          t2_wire =
              seconds_wire (take 4 (drop 8 o.payload))
                (All-take IsByte 4 (drop 8 o.payload) (All-drop IsByte 8 o.payload bs));
          prefixes_wire = tt;
        })
        later
]

drop_inverted-IsUsable :
    (ps : List IaPrefix)
    → All (λ (p : IaPrefix). IsWireTime p.valid_lifetime) ps
    → All IsUsable (drop_inverted ps)
unfolding drop_inverted
drop_inverted-IsUsable [] w = tt
drop_inverted-IsUsable (p ∷ ps) (w, ws) = ground (arith, drop_inverted-IsUsable ps ws)

get-bytes :
    (os : Options) (code : ℕ) (o : DhcpOption)
    → All (λ (x : DhcpOption). All IsByte x.payload) os
    → get os code ≡ some o
    → All IsByte o.payload
unfolding get
get-bytes [] code o bs e = cc
get-bytes (x ∷ os) code o (b, bs) e = elim (Bool-cases (x.code == code)) [
  | inl h ↦
      subst (λ (y : DhcpOption). All IsByte y.payload) (let eq : x ≡ o = cc (rw h at e) in eq) b
  | inr h ↦ get-bytes os code o bs (rw h at e)
]

checked-usable :
    (whole : Iapd)
    → IsWire whole
    → check_order whole.t1 whole.t2 ≡ accepted tt
    → IsUsableIapd (record whole { prefixes = drop_inverted whole.prefixes })
unfolding check_order
checked-usable whole w e = record {
  t1_fits = w.t1_wire.0;
  t2_fits = w.t2_wire.0;
  t2_whole = w.t2_wire.1;
  ordered = ground arith;
  all_usable = drop_inverted-IsUsable whole.prefixes w.prefixes_wire;
}

or_refuse-eq_accepted {ℓ} :
    {A : Type ℓ} {a : A} (o : Option A) (r : Refusal) → or_refuse o r ≡ accepted a → o ≡ some a
or_refuse-eq_accepted none r e = cc
or_refuse-eq_accepted (some b) r e = cc

parsed-eq_accepted {ℓ} : {A : Type ℓ} {a : A} (r : Result A) → parsed r ≡ accepted a → r ≡ ok a
parsed-eq_accepted (ok b) e = cc
parsed-eq_accepted (err x) e = cc
parsed-eq_accepted stuck e = cc

check_prefixes-nonempty :
    (ps : List IaPrefix) (u : Unit {0}) → check_prefixes ps ≡ accepted u → ps ≢ []
unfolding check_prefixes
check_prefixes-nonempty [] u e = cc
check_prefixes-nonempty (p ∷ ps) u e = cc

-- Whatever bytes the options of a message hold, an IA_PD that is accepted of it is usable: it has
-- a prefix, no preferred lifetime is beyond the valid one, and its T1 is not beyond a T2 that it
-- sets.
pub usable_iapd-wire :
    (msg : Message) (a : Iapd) (sid : List ℕ)
    → All (λ (o : DhcpOption). All IsByte o.payload) msg.options
    → usable_iapd msg ≡ accepted (a, sid)
    → IsUsableIapd a × (a.prefixes ≢ [])
unfolding usable_iapd
usable_iapd-wire msg a sid bs e =
    let (sid', e1, f1) = >>=-eq_accepted (or_refuse (server_id msg.options) no_server_id) _ e in
    let (opt, e2, f2) = >>=-eq_accepted (or_refuse (get msg.options option_ia_pd) no_ia_pd) _ f1 in
    let (whole, e3, f3) = >>=-eq_accepted (parsed (parse_iapd opt)) _ f2 in
    let (u4, e4, f4) = >>=-eq_accepted (check_status whole.status_code) _ f3 in
    let (u5, e5, f5) = >>=-eq_accepted (check_prefixes (drop_inverted whole.prefixes)) _ f4 in
    let (u6, e6, f6) = >>=-eq_accepted (check_order whole.t1 whole.t2) _ f5 in
    let bytes = get-bytes msg.options option_ia_pd opt bs (or_refuse-eq_accepted _ no_ia_pd e2) in
    let wire = parse_iapd-IsWire opt whole bytes (parsed-eq_accepted _ e3) in
    subst (λ (b : Iapd). IsUsableIapd b × (b.prefixes ≢ []))
      (let eq : record whole { prefixes = drop_inverted whole.prefixes } ≡ a = cc f6 in eq)
      (checked-usable whole wire e6, check_prefixes-nonempty (drop_inverted whole.prefixes) u5 e5)

pub new_lease-ordered :
    (own : List ℕ) (a : Iapd) (dns : List Addr) (now : ℕ)
    → IsUsableIapd a
    → (0 < (new_lease own a dns now).t1)
      × ((new_lease own a dns now).t1 ≤ (new_lease own a dns now).t2)
unfolding new_lease
new_lease-ordered own a dns now usable =
    let (above, within, fits) = effective_timers_ordered a usable in (above, within)

pub accepted-injective {ℓ} : {A : Type ℓ} {a b : A} → accepted a ≡ accepted b → a ≡ b
accepted-injective e = cc

-- Whatever bytes the options of a reply hold, a lease that the reply yields renews after a
-- positive time, no later than it rebinds.
pub lease_from_reply-ordered :
    (sid : Option (List ℕ)) (msg : Message) (now : ℕ) (l : Lease)
    → All (λ (o : DhcpOption). All IsByte o.payload) msg.options
    → lease_from_reply sid msg now ≡ accepted l
    → (0 < l.t1) × (l.t1 ≤ l.t2)
unfolding lease_from_reply
lease_from_reply-ordered sid msg now l bs e =
    let ((a, own), e1, f1) = >>=-eq_accepted (usable_iapd msg) _ e in
    let (usable, nonempty) = usable_iapd-wire msg a own bs e1 in
    subst (λ (m : Lease). (0 < m.t1) × (m.t1 ≤ m.t2)) (accepted-injective f1)
      (new_lease-ordered _ a (usable_dns msg.options) now usable)
