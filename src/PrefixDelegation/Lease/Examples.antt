-- ===== src/PrefixDelegation/Lease/Examples.antt =====
-- pkg/prefixdelegation/lease.go: a Reply off the wire that delegates 2001:db8::/56 for an hour.
use minuteman.Base.{◌*◌, ◌^◌, ◌<◌, ◌≤◌, ◌≡◌, refl, arith, [], ◌∷◌, All, none}
use minuteman.Base.Bytes.{IsByte, get_be, get_be_from}
use minuteman.Netip.{v6}
use minuteman.Dhcpv6.Options.{DhcpOption, get, parse_options, parse_loop, parse_one}
use minuteman.Dhcpv6.Message.{Message, server_id}
use minuteman.PrefixDelegation.{Iapd, second}
use minuteman.PrefixDelegation.Options.{parse_iapd, parse_ia_prefix, add_suboption, add_suboptions}
use minuteman.PrefixDelegation.Lease.{
  Lease, accepted, usable_iapd, lease_from_reply, new_lease, usable_dns, drop_inverted,
  check_status, check_prefixes, check_order,
}
use minuteman.PrefixDelegation.Lease.Wire.{lease_from_reply-ordered}

abbrev pub ia_pd : DhcpOption
ia_pd = record {
  code = 25;
  payload =
      0 ∷ 0 ∷ 0 ∷ 1 ∷ 0 ∷ 0 ∷ 0 ∷ 0 ∷ 0 ∷ 0 ∷ 0 ∷ 0 ∷ 0 ∷ 26 ∷ 0 ∷ 25 ∷ 0 ∷ 0 ∷ 7 ∷ 8 ∷ 0 ∷ 0 ∷ 14
      ∷ 16 ∷ 56 ∷ 32 ∷ 1 ∷ 13 ∷ 184 ∷ 0 ∷ 0 ∷ 0 ∷ 0 ∷ 0 ∷ 0 ∷ 0 ∷ 0 ∷ 0 ∷ 0 ∷ 0 ∷ 0 ∷ [];
}

abbrev pub reply : Message
reply = record {
  type_code = 7;
  xid = 1 ∷ 2 ∷ 3 ∷ [];
  options = record { code = 2; payload = 9 ∷ [] } ∷ ia_pd ∷ [];
}

pub reply_bytes : All (λ (o : DhcpOption). All IsByte o.payload) reply.options
reply_bytes = omega arith

abbrev pub granted : Iapd
granted = record {
  iaid = 0 ∷ 0 ∷ 0 ∷ 1 ∷ [];
  t1 = 0;
  t2 = 0;
  prefixes =
      record {
        preferred_lifetime = 1800 * second;
        valid_lifetime = 3600 * second;
        prefix = record { addr = v6 (0x20010db8 * 2 ^ 96); bits = 56 };
      }
      ∷ [];
  status_code = none;
}

pub reply_usable : usable_iapd reply ≡ accepted (granted, 9 ∷ [])
unfolding usable_iapd server_id get parse_iapd parse_ia_prefix add_suboption add_suboptions
    parse_options parse_loop parse_one get_be get_be_from drop_inverted check_status check_prefixes
    check_order
reply_usable = refl

abbrev pub leased : Lease
leased = new_lease (9 ∷ []) granted (usable_dns reply.options) 100

pub reply-leased : lease_from_reply none reply 100 ≡ accepted leased
unfolding lease_from_reply usable_iapd server_id get parse_iapd parse_ia_prefix add_suboption
    add_suboptions parse_options parse_loop parse_one get_be get_be_from drop_inverted check_status
    check_prefixes check_order
reply-leased = refl

lease_from_reply-ordered_example : (0 < leased.t1) × (leased.t1 ≤ leased.t2)
lease_from_reply-ordered_example =
    lease_from_reply-ordered none reply 100 leased reply_bytes reply-leased
