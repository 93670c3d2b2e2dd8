-- ===== src/PrefixDelegation/Examples.antt =====
-- pkg/prefixdelegation: a Reply that delegates 2001:db8::/56 for an hour.
use minuteman.Base.{◌*◌, ◌^◌, ◌≡◌, refl, arith, [], ◌∷◌, none}
use minuteman.Netip.{v6}
use minuteman.Dhcpv6.Options.{ok}
use minuteman.PrefixDelegation.{IaPrefix, Iapd, second}
use minuteman.PrefixDelegation.Options.{parse_iapd, iapd_option}
use minuteman.PrefixDelegation.Options.RoundTrip.{IsIapd, parse_iapd-iapd_option}

abbrev delegated : IaPrefix
delegated = record {
  preferred_lifetime = 1800 * second;
  valid_lifetime = 3600 * second;
  prefix = record { addr = v6 (0x20010db8 * 2 ^ 96); bits = 56 };
}

-- Both times are left to the client.
abbrev iapd : Iapd
iapd = record {
  iaid = 0 ∷ 0 ∷ 0 ∷ 1 ∷ [];
  t1 = 0;
  t2 = 0;
  prefixes = delegated ∷ [];
  status_code = none;
}

iapd-IsIapd : IsIapd iapd
iapd-IsIapd = record {
  iaid_length = refl;
  t1_whole = omega arith;
  t2_whole = omega arith;
  all_prefixes = (
    record {
      number = 0x20010db8 * 2 ^ 96;
      address = refl;
      address_fits = omega arith;
      bits_fit = omega arith;
      preferred_whole = omega arith;
      valid_whole = omega arith;
    },
    tt,
  );
  no_status = refl;
}

parse_iapd-iapd_option_example : parse_iapd (iapd_option iapd) ≡ ok iapd
parse_iapd-iapd_option_example = parse_iapd-iapd_option iapd iapd-IsIapd
