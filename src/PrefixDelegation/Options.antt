-- ===== src/PrefixDelegation/Options.antt =====
-- pkg/prefixdelegation/options.go: IA_PD options and the prefixes and status codes inside.
pub mod RoundTrip
use minuteman.Base.{
  ℕ, zero, suc, ◌+◌, ◌-◌, ◌*◌, ◌/◌, ◌%◌, ◌^◌, ◌<◌, List, [], ◌∷◌, ◌++◌, length, take, drop,
  replicate, map, ltb, ◌==◌, if◌then◌else◌, Bool, true, false, Option, none, some,
}
use minuteman.Base.Bytes.{put_u16, put_u32, get_u16, get_u32, put_be, get_be, byte_at}
use minuteman.Netip.{as_16, Addr, v4, v6, invalid, Prefix}
use minuteman.Dhcpv6.Options.{
  DhcpOption, Options, Result, ok, err, stuck, ◌>>=◌, Error, too_short, bad_prefix_length, marshal,
  parse_options,
}
use minuteman.PrefixDelegation.{IaPrefix, Iapd, StatusCode, second}

abbrev pub option_ia_pd : ℕ
option_ia_pd = 25

abbrev pub option_ia_prefix : ℕ
option_ia_prefix = 26

abbrev pub option_status_code : ℕ
option_status_code = 13

-- An empty IA_PD, its T1 and T2 zero.
pub new_iapd_option : List ℕ → DhcpOption
new_iapd_option iaid = record { code = option_ia_pd; payload = iaid ++ replicate 8 0 }

unfoldable pub ia_prefix_option : IaPrefix → DhcpOption
ia_prefix_option p = record {
  code = option_ia_prefix;
  payload =
      put_u32 (p.preferred_lifetime / second % 2 ^ 32)
      ++ (put_u32 (p.valid_lifetime / second % 2 ^ 32)
          ++ (p.prefix.bits % 256 ∷ as_16 p.prefix.addr));
}

unfoldable pub iapd_option : Iapd → DhcpOption
iapd_option a = record {
  code = option_ia_pd;
  payload =
      a.iaid
      ++ (put_u32 (a.t1 / second % 2 ^ 32)
          ++ (put_u32 (a.t2 / second % 2 ^ 32) ++ marshal (map ia_prefix_option a.prefixes)));
}

-- 4 + 4 + 1 + 16 bytes; what follows is left unread.
unfoldable pub parse_ia_prefix : List ℕ → Result IaPrefix
parse_ia_prefix b =
    if ltb (length b) 25
    then err (too_short (length b))
    else let prefix_len = byte_at b 8 in
      if ltb 128 prefix_len
      then err (bad_prefix_length prefix_len)
      else ok (record {
        preferred_lifetime = get_u32 (take 4 b) * second;
        valid_lifetime = get_u32 (take 4 (drop 4 b)) * second;
        prefix = record { addr = v6 (get_be (take 16 (drop 9 b))); bits = prefix_len };
      })

unfoldable pub parse_status_code : List ℕ → Result StatusCode
parse_status_code (a ∷ b ∷ message) = ok (record { code = get_u16 (a ∷ b ∷ []); message = message })
parse_status_code b = err (too_short (length b))

-- One suboption of the loop; those of other codes are passed over.
unfoldable pub add_suboption : Iapd → DhcpOption → Result Iapd
add_suboption a sub =
    if sub.code == option_ia_prefix
    then (do p ← parse_ia_prefix sub.payload; ok (record a { prefixes = a.prefixes ++ p ∷ [] }))
    else if sub.code == option_status_code
    then (do sc ← parse_status_code sub.payload; ok (record a { status_code = some sc }))
    else ok a

unfoldable pub add_suboptions : Iapd → Options → Result Iapd
add_suboptions a [] = ok a
add_suboptions a (sub ∷ subs) = do a' ← add_suboption a sub; add_suboptions a' subs

unfoldable pub parse_iapd : DhcpOption → Result Iapd
parse_iapd opt = if ltb (length opt.payload) 12 then err (too_short (length opt.payload)) else (do
  subs ← parse_options (drop 12 opt.payload)
  add_suboptions
      (record {
        iaid = take 4 opt.payload;
        t1 = get_u32 (take 4 (drop 4 opt.payload)) * second;
        t2 = get_u32 (take 4 (drop 8 opt.payload)) * second;
        prefixes = [];
        status_code = none;
      })
      subs)
