-- ===== src/LanPrefix/Examples.antt =====
-- internal/lanprefix/carve.go: two LANs of 2001:db8:0:ab00::/56.
use minuteman.Base.{◌+◌, ◌*◌, ◌^◌, ◌≡◌, refl, arith, false}
use minuteman.Netip.{v6, Prefix, contains}
use minuteman.LanPrefix.{subnet_for, ok, network_of, beyond}
use minuteman.LanPrefix.Carved.{subnet_for-disjoint}

abbrev delegated : Prefix
delegated = record { addr = v6 (0x20010db80000ab00 * 2 ^ 64); bits = 56 }

abbrev third_lan : Prefix
third_lan = record { addr = v6 (0x20010db80000ab02 * 2 ^ 64); bits = 64 }

third_carved : subnet_for delegated 2 ≡ ok third_lan
unfolding subnet_for network_of beyond
third_carved = refl

abbrev fourth_lan : Prefix
fourth_lan = record { addr = v6 (0x20010db80000ab03 * 2 ^ 64); bits = 64 }

fourth_carved : subnet_for delegated 3 ≡ ok fourth_lan
unfolding subnet_for network_of beyond
fourth_carved = refl

subnet_for-disjoint_example : contains fourth_lan (v6 (0x20010db80000ab02 * 2 ^ 64 + 9)) ≡ false
subnet_for-disjoint_example =
    subnet_for-disjoint delegated third_lan fourth_lan 2 3 (0x20010db80000ab02 * 2 ^ 64 + 9)
      (omega arith) (omega arith) third_carved fourth_carved (λ h. omega (arith, h)) refl
