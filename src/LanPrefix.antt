-- ===== src/LanPrefix.antt =====
-- internal/lanprefix/carve.go: the /64 of each LAN out of the delegated prefix. The index of a LAN is
-- its place among the flags, and not negative.
pub mod Carved
mod Examples
use Prim.Native.Nat.{bit_and, bit_or}
use minuteman.Base.{
  ℕ, ◌+◌, ◌-◌, ◌*◌, ◌/◌, ◌^◌, ltb, leb, ◌==◌, not, ◌&&◌, ◌||◌, if◌then◌else◌, Bool, true, false,
}
use minuteman.Netip.{Addr, v6, is_6, is_4_in_6, number, Prefix}

pub data Error : Type 0 where
  not_ipv6 no_room beyond_capacity not_subnet : Error

pub data Result {ℓ} (A : Type ℓ) : Type ℓ where
  ok : A → Result A
  err : Error → Result A

abbrev pub lan_subnet_bits : ℕ
lan_subnet_bits = 64

-- `index >= 1<<subnetBits` on int: a shift by 63 is negative, and one by 64 is not made.
pub beyond : ℕ → ℕ → Bool
beyond subnet_bits index = ltb subnet_bits 64 && (subnet_bits == 63 || leb (2 ^ subnet_bits) index)

-- The upper 8 bytes of the subnet, by those of the delegated prefix.
pub network_of : ℕ → ℕ → ℕ → ℕ
network_of network subnet_bits index =
    bit_or (network - bit_and network (2 ^ subnet_bits - 1)) index

pub subnet_for : Prefix → ℕ → Result Prefix
subnet_for delegated index =
    if not (is_6 delegated.addr) || is_4_in_6 delegated.addr
    then err not_ipv6
    else if ltb lan_subnet_bits delegated.bits
    then err no_room
    else if beyond (lan_subnet_bits - delegated.bits) index
    then err beyond_capacity
    else ok (record {
      addr = v6 (
          network_of (number delegated.addr / 2 ^ 64) (lan_subnet_bits - delegated.bits) index
          * 2 ^ 64);
      bits = lan_subnet_bits;
    })

-- The last byte set to 1.
pub assigned_address : Prefix → Result Addr
assigned_address subnet =
    if not (is_6 subnet.addr) || is_4_in_6 subnet.addr
    then err not_ipv6
    else if not (subnet.bits == lan_subnet_bits)
    then err not_subnet
    else ok (v6 (number subnet.addr / 256 * 256 + 1))
