-- ===== src/PrefixDelegation/Lease.antt =====
-- pkg/prefixdelegation/acquire.go, lease.go and renew.go: which IA_PD a client accepts, and the lease
-- that it makes of it. The clock's reading is an argument.
pub mod Wire
pub mod Examples
use minuteman.Base.{
  ℕ, zero, suc, ◌+◌, List, [], ◌∷◌, ◌++◌, ltb, leb, ◌==◌, not, ◌&&◌, if◌then◌else◌, Bool, true,
  false, Option, none, some, ◌≡◌, refl, ◌⊎◌, inl, inr,
}
use minuteman.Netip.{Addr}
use minuteman.Dhcpv6.Options.{DhcpOption, Options, Result, ok, err, stuck, get}
use minuteman.Dhcpv6.Options
use minuteman.Dhcpv6.Message.{Message, server_id, dns_servers}
use minuteman.PrefixDelegation.{IaPrefix, Iapd, StatusCode}
use minuteman.PrefixDelegation.Options.{option_ia_pd, parse_iapd, iapd_option}
use minuteman.PrefixDelegation.Timers.{effective_timers, shortest_valid_lifetime}

pub data Refusal : Type 0 where
  no_server_id no_ia_pd no_prefixes t1_after_t2 : Refusal
  malformed : Options.Error → Refusal
  status : ℕ → Refusal

-- `out_of_fuel` is no Go value.
pub data Outcome {ℓ} (A : Type ℓ) : Type ℓ where
  accepted : A → Outcome A
  refused : Refusal → Outcome A
  out_of_fuel : Outcome A

infixl 5 ◌>>=◌
abbrev pub ◌>>=◌ {ℓ κ} : {A : Type ℓ} {B : Type κ} → Outcome A → (A → Outcome B) → Outcome B
accepted a >>= f = f a
refused r >>= f = refused r
out_of_fuel >>= f = out_of_fuel

-- Inversion of an accepted chain.
pub >>=-eq_accepted {ℓ κ} :
    {A : Type ℓ} {B : Type κ} (m : Outcome A) (f : A → Outcome B) {b : B}
    → (m >>= f) ≡ accepted b
    → (a : A) × (m ≡ accepted a) × (f a ≡ accepted b)
>>=-eq_accepted (accepted a) f e = (a, refl, e)
>>=-eq_accepted (refused r) f e = cc
>>=-eq_accepted out_of_fuel f e = cc

pub Outcome-cases {ℓ} :
    {A : Type ℓ} (m : Outcome A)
    → ((a : A) × (m ≡ accepted a)) ⊎ ((r : Refusal) × (m ≡ refused r)) ⊎ (m ≡ out_of_fuel)
Outcome-cases (accepted a) = inl (a, refl)
Outcome-cases (refused r) = inr (inl (r, refl))
Outcome-cases out_of_fuel = inr (inr refl)

abbrev or_refuse {ℓ} : {A : Type ℓ} → Option A → Refusal → Outcome A
or_refuse none r = refused r
or_refuse (some a) r = accepted a

abbrev parsed {ℓ} : {A : Type ℓ} → Result A → Outcome A
parsed (ok a) = accepted a
parsed (err e) = refused (malformed e)
parsed stuck = out_of_fuel

-- Prefixes whose preferred lifetime is beyond the valid one are dropped.
drop_inverted : List IaPrefix → List IaPrefix
drop_inverted [] = []
drop_inverted (p ∷ ps) =
    if ltb p.valid_lifetime p.preferred_lifetime then drop_inverted ps else p ∷ drop_inverted ps

check_status : Option StatusCode → Outcome (Unit {0})
check_status none = accepted tt
check_status (some sc) = if sc.code == 0 then accepted tt else refused (status sc.code)

check_prefixes : List IaPrefix → Outcome (Unit {0})
check_prefixes [] = refused no_prefixes
check_prefixes (p ∷ ps) = accepted tt

check_order : ℕ → ℕ → Outcome (Unit {0})
check_order t1 t2 = if ltb 0 t2 && ltb t2 t1 then refused t1_after_t2 else accepted tt

pub usable_iapd : Message → Outcome (Iapd × List ℕ)
usable_iapd msg = do
  sid ← or_refuse (server_id msg.options) no_server_id
  opt ← or_refuse (get msg.options option_ia_pd) no_ia_pd
  whole ← parsed (parse_iapd opt)
  _ ← check_status whole.status_code
  let a = record whole { prefixes = drop_inverted whole.prefixes }
  _ ← check_prefixes a.prefixes
  _ ← check_order a.t1 a.t2
  accepted (a, sid)

pub record Lease : Type 0 where
  pub server_id : List ℕ
  pub prefixes : List IaPrefix
  pub t1 : ℕ
  pub t2 : ℕ
  pub dns_servers : List Addr
  pub acquired_at : ℕ

unfoldable pub new_lease : List ℕ → Iapd → List Addr → ℕ → Lease
new_lease sid a dns now = record {
  server_id = sid;
  prefixes = a.prefixes;
  t1 = (effective_timers a).0;
  t2 = (effective_timers a).1;
  dns_servers = dns;
  acquired_at = now;
}

abbrev pub client_iaid : List ℕ
client_iaid = 0 ∷ 0 ∷ 0 ∷ 1 ∷ []

pub lease_option : Lease → DhcpOption
lease_option l =
    iapd_option
      (record { iaid = client_iaid; t1 = 0; t2 = 0; prefixes = l.prefixes; status_code = none })

unfoldable pub renew_at : Lease → ℕ
renew_at l = l.acquired_at + l.t1

unfoldable pub rebind_at : Lease → ℕ
rebind_at l = l.acquired_at + l.t2

pub expires_at : Lease → ℕ
expires_at l = l.acquired_at + shortest_valid_lifetime l.prefixes

-- DNS servers that do not parse are dropped, and absent ones are none.
pub usable_dns : Options → List Addr
usable_dns os = elim (dns_servers os) [ ok (some servers) ↦ servers | _ ↦ [] ]

-- The server to keep using: the one given, or the reply's own.
unfoldable pub lease_from_reply : Option (List ℕ) → Message → ℕ → Outcome Lease
lease_from_reply sid reply now = do
  (granted, reply_sid) ← usable_iapd reply
  let own : List ℕ = elim sid [ none ↦ reply_sid | some s ↦ s ]
  accepted (new_lease own granted (usable_dns reply.options) now)
