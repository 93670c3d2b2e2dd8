-- ===== src/Netip.antt =====
-- The part of Go's net/netip that the program uses: addresses and prefixes. IPv4 addresses are
-- numbers below 2 ^ 32 and IPv6 addresses numbers below 2 ^ 128; zones are left out, since no
-- address of the program has one where it is compared.
use minuteman.Base.{
  ℕ, ◌+◌, ◌-◌, ◌*◌, ◌/◌, ◌^◌, ◌<◌, Bool, true, false, ltb, ◌==◌, if◌then◌else◌, ℕ_discrete, List,
  ite,
}
use minuteman.Base.Maps.{Key}
use minuteman.Base.Bytes.{put_be}

-- `invalid` is the zero Addr.
pub data Addr : Type 0 where
  invalid : Addr
  v4 : ℕ → Addr
  v6 : ℕ → Addr

unfoldable pub Addr-discrete : Discrete Addr
Addr-discrete = hlevel ℕ_discrete

instance abbrev pub addr_key : Key Addr
addr_key = record { same = Addr-discrete }

-- Go strings and byte slices, compared byte by byte.
unfoldable pub bytes_discrete : Discrete (List ℕ)
bytes_discrete = hlevel ℕ_discrete

instance abbrev pub bytes_key : Key (List ℕ)
bytes_key = record { same = bytes_discrete }

abbrev pub same_addr : Addr → Addr → Bool
same_addr a b = ite (Addr-discrete a b) true false

abbrev pub is_4 : Addr → Bool
is_4 (v4 a) = true
is_4 _ = false

-- Also of a v4-mapped address.
abbrev pub is_6 : Addr → Bool
is_6 (v6 a) = true
is_6 _ = false

-- In ::ffff:0:0/96.
abbrev pub is_4_in_6 : Addr → Bool
is_4_in_6 (v6 a) = a / 2 ^ 32 == 0xffff
is_4_in_6 _ = false

abbrev pub is_valid : Addr → Bool
is_valid invalid = false
is_valid _ = true

abbrev pub is_unspecified : Addr → Bool
is_unspecified (v4 a) = a == 0
is_unspecified (v6 a) = a == 0
is_unspecified invalid = false

-- The next address; the zero Addr behind the last one.
abbrev pub next : Addr → Addr
next (v4 a) = if ltb (a + 1) (2 ^ 32) then v4 (a + 1) else invalid
next (v6 a) = if ltb (a + 1) (2 ^ 128) then v6 (a + 1) else invalid
next invalid = invalid

-- The number of an IPv4 address, as its 4 big-endian bytes hold it.
abbrev pub number : Addr → ℕ
number (v4 a) = a
number (v6 a) = a
number invalid = 0

-- The 16 bytes of an address; those of an IPv4 address are of its mapped form.
unfoldable pub as_16 : Addr → List ℕ
as_16 (v6 a) = put_be 16 a
as_16 (v4 a) = put_be 16 (0xffff * 2 ^ 32 + a)
as_16 invalid = put_be 16 0

-- A valid prefix, or one around the zero Addr.
pub record Prefix : Type 0 where
  pub addr : Addr
  pub bits : ℕ

abbrev pub masked : Prefix → Prefix
masked p = elim p.addr [
  | invalid ↦ record { addr = invalid; bits = 0 }
  | v4 a ↦ record { addr = v4 (a / 2 ^ (32 - p.bits) * 2 ^ (32 - p.bits)); bits = p.bits }
  | v6 a ↦ record { addr = v6 (a / 2 ^ (128 - p.bits) * 2 ^ (128 - p.bits)); bits = p.bits }
]

-- Whether an address of the same family agrees with the prefix in its first bits.
abbrev covers : ℕ → Addr → Addr → Bool
covers bits (v4 n) (v4 a) = a / 2 ^ (32 - bits) == n / 2 ^ (32 - bits)
covers bits (v6 n) (v6 a) = a / 2 ^ (128 - bits) == n / 2 ^ (128 - bits)
covers bits _ _ = false

abbrev pub contains : Prefix → Addr → Bool
contains p a = covers p.bits p.addr a

-- An address that Go can hold.
abbrev pub IsAddr : Addr → Type 0
IsAddr (v4 a) = a < 2 ^ 32
IsAddr (v6 a) = a < 2 ^ 128
IsAddr invalid = Unit {0}
