-- ===== src/Dhcpv6/Message.antt =====
-- pkg/dhcpv6/message.go and exchange.go: messages, and which reply ends an exchange. The options
-- that pkg/dhcpv6/options.go builds and reads are here too.
pub mod RoundTrip
use minuteman.Base.{
  ℕ, zero, suc, ◌+◌, ◌-◌, ◌*◌, ◌/◌, ◌%◌, ◌^◌, ◌<◌, List, [], ◌∷◌, ◌++◌, length, take, drop, ltb,
  ◌==◌, if◌then◌else◌, Bool, true, false, not, ◌&&◌, ◌||◌, Option, none, some, min, ite,
}
use minuteman.Base.Bytes.{put_u16, get_u16, get_u32, get_be}
use minuteman.Netip.{Addr, v6, bytes_discrete}
use minuteman.Dhcpv6.Options.{
  DhcpOption, Options, Result, ok, err, stuck, ◌>>=◌, Error, too_short, not_multiple, get, marshal,
  parse_options,
}

-- A one-byte message type, a three-byte transaction ID.
pub record Message : Type 0 where
  pub type_code : ℕ
  pub xid : List ℕ
  pub options : Options

unfoldable pub marshal_binary : Message → List ℕ
marshal_binary m = m.type_code ∷ (m.xid ++ marshal m.options)

unfoldable pub parse_message : List ℕ → Result Message
parse_message (t ∷ a ∷ b ∷ c ∷ rest) = do
  opts ← parse_options rest
  ok (record { type_code = t; xid = a ∷ b ∷ c ∷ []; options = opts })
parse_message b = err (too_short (length b))

-- Option codes.
abbrev pub option_client_id : ℕ
option_client_id = 1

abbrev pub option_server_id : ℕ
option_server_id = 2

abbrev pub option_oro : ℕ
option_oro = 6

abbrev pub option_elapsed_time : ℕ
option_elapsed_time = 8

abbrev pub option_dns_servers : ℕ
option_dns_servers = 23

abbrev pub option_information_refresh_time : ℕ
option_information_refresh_time = 32

abbrev pub second : ℕ
second = 1_000_000_000

pub new_client_id_option : List ℕ → DhcpOption
new_client_id_option duid = record { code = option_client_id; payload = duid }

oro_bytes : List ℕ → List ℕ
oro_bytes [] = []
oro_bytes (c ∷ cs) = put_u16 c ++ oro_bytes cs

pub new_oro : List ℕ → DhcpOption
unfolding oro_bytes
new_oro codes = record { code = option_oro; payload = oro_bytes codes }

-- Hundredths of a second, saturating; the time since a transmission is not negative.
unfoldable pub new_elapsed_time_option : ℕ → DhcpOption
new_elapsed_time_option since_first_send =
    let centiseconds = since_first_send / 10_000_000 in
    record {
      code = option_elapsed_time;
      payload = put_u16 (if ltb 0xffff centiseconds then 0xffff else centiseconds);
    }

payload_of : Option DhcpOption → Option (List ℕ)
payload_of none = none
payload_of (some o) = some o.payload

unfoldable pub client_id : Options → Option (List ℕ)
unfolding payload_of
client_id os = payload_of (get os option_client_id)

unfoldable pub server_id : Options → Option (List ℕ)
unfolding payload_of
server_id os = payload_of (get os option_server_id)

-- Addresses of 16 bytes each; fewer bytes than that are left at no length that passes the test.
addresses : List ℕ → List Addr
addresses
      (b0 ∷ b1 ∷ b2 ∷ b3 ∷ b4 ∷ b5 ∷ b6 ∷ b7 ∷ b8 ∷ b9 ∷ b10 ∷ b11 ∷ b12 ∷ b13 ∷ b14 ∷ b15 ∷ r) =
    v6 (
      get_be
        (b0 ∷ b1 ∷ b2 ∷ b3 ∷ b4 ∷ b5 ∷ b6 ∷ b7 ∷ b8 ∷ b9 ∷ b10 ∷ b11 ∷ b12 ∷ b13 ∷ b14 ∷ b15 ∷ []))
    ∷ addresses r
addresses _ = []

-- `none` where the option is absent.
unfoldable pub dns_servers : Options → Result (Option (List Addr))
unfolding addresses
dns_servers os = elim (get os option_dns_servers) [
  | none ↦ ok none
  | some o ↦
      if length o.payload % 16 == 0
      then ok (some (addresses o.payload))
      else err (not_multiple (length o.payload))
]

unfoldable pub information_refresh_time : Options → Option ℕ
information_refresh_time os = elim (get os option_information_refresh_time) [
  | none ↦ none
  | some o ↦ if length o.payload == 4 then some (get_u32 o.payload * second) else none
]

pub record Timing : Type 0 where
  pub initial_delay_max : ℕ
  pub irt : ℕ
  pub mrt : ℕ
  pub mrc : ℕ

pub record Exchange : Type 0 where
  pub type_code : ℕ
  pub expect : ℕ
  pub options : Options
  pub timing : Timing

unfoldable pub exchange_message : Exchange → List ℕ → List ℕ → ℕ → Message
unfolding new_client_id_option
exchange_message x xid duid elapsed = record {
  type_code = x.type_code;
  xid = xid;
  options = new_client_id_option duid ∷ (x.options ++ new_elapsed_time_option elapsed ∷ []);
}

echoes : Option (List ℕ) → List ℕ → Bool
echoes none duid = true
echoes (some echoed) duid = ite (bytes_discrete echoed duid) true false

present : Option (List ℕ) → Bool
present none = false
present (some d) = true

-- Whether the reply ends the exchange.
unfoldable pub answers : Exchange → Message → List ℕ → List ℕ → Bool
unfolding echoes present
answers x reply xid duid =
    (reply.type_code == x.expect && ite (bytes_discrete reply.xid xid) true false)
    && present (server_id reply.options)
    && echoes (client_id reply.options) duid
