-- ===== src/Dhcpv4/Options.antt =====
-- pkg/dhcpv4/options.go and the message of message.go: options, and what is read from them and
-- written into them.
use minuteman.Base.{
  ℕ, ◌/◌, List, [], ◌∷◌, ◌++◌, length, ltb, ◌==◌, if◌then◌else◌, Option as Maybe, none, some, min,
}
use minuteman.Base.Bytes.{put_u16, put_u32, get_u32}
use minuteman.Netip.{Addr, v4, number}
use minuteman.Dhcpv4.Opt

abbrev pub second : ℕ
second = 1_000_000_000

-- The source's Option.
pub record DhcpOption : Type 0 where
  pub code : ℕ
  pub payload : List ℕ

abbrev pub Options : Type 0
Options = List DhcpOption

-- An invalid address among the four is 0.0.0.0 on the wire.
pub record Message : Type 0 where
  pub op : ℕ
  pub htype : ℕ
  pub hlen : ℕ
  pub hops : ℕ
  pub xid : ℕ
  pub secs : ℕ
  pub flags : ℕ
  pub ciaddr : Addr
  pub yiaddr : Addr
  pub siaddr : Addr
  pub giaddr : Addr
  pub chaddr : List ℕ
  pub sname : List ℕ
  pub file : List ℕ
  pub options : Options

unfoldable pub get : Options → ℕ → Maybe DhcpOption
get [] code = none
get (o ∷ os) code = if o.code == code then some o else get os code

abbrev pub of_length : ℕ → Maybe DhcpOption → Maybe (List ℕ)
of_length n none = none
of_length n (some o) = if length o.payload == n then some o.payload else none

unfoldable pub message_type : Options → Maybe ℕ
message_type os = elim (of_length 1 (get os Opt.message_type)) [ some (t ∷ _) ↦ some t | _ ↦ none ]

unfoldable pub addr_option : Options → ℕ → Maybe Addr
addr_option os code = elim (of_length 4 (get os code)) [
  | none ↦ none
  | some b ↦ some (v4 (get_u32 b))
]

unfoldable pub requested_ip : Options → Maybe Addr
requested_ip os = addr_option os Opt.requested_ip

unfoldable pub server_id : Options → Maybe Addr
server_id os = addr_option os Opt.server_id

-- `ClientID`: an empty identifier counts as none.
unfoldable pub client_id : Options → List ℕ → List ℕ
client_id os fallback = elim (get os Opt.client_id) [
  | none ↦ fallback
  | some o ↦ if ltb 0 (length o.payload) then o.payload else fallback
]

unfoldable pub new_message_type : ℕ → DhcpOption
new_message_type t = record { code = Opt.message_type; payload = t ∷ [] }

-- `As4`, which panics on the zero Addr and on an IPv6 one that is not v4-mapped: the pool's guard
-- excludes both of a server's address.
abbrev pub as_4 : Addr → List ℕ
as_4 a = put_u32 (number a)

unfoldable pub new_addr : ℕ → Addr → DhcpOption
new_addr code a = record { code = code; payload = as_4 a }

abbrev all_as_4 : List Addr → List ℕ
all_as_4 [] = []
all_as_4 (a ∷ addrs) = as_4 a ++ all_as_4 addrs

unfoldable pub new_addrs : ℕ → List Addr → DhcpOption
new_addrs code addrs = record { code = code; payload = all_as_4 addrs }

unfoldable pub new_seconds : ℕ → ℕ → DhcpOption
new_seconds code d = record { code = code; payload = put_u32 (min (d / second) 0xffffffff) }

unfoldable pub new_mtu : ℕ → DhcpOption
new_mtu mtu = record { code = Opt.interface_mtu; payload = put_u16 mtu }
