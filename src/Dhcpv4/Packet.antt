-- ===== src/Dhcpv4/Packet.antt =====
-- pkg/dhcpv4/packet.go: requests out of IPv4 packets, and replies framed as them.
pub mod Checksums
pub mod Receivers
mod Examples
use minuteman.Base.{
  ℕ, zero, suc, ◌+◌, ◌-◌, ◌*◌, ◌/◌, ◌%◌, ◌^◌, List, [], ◌∷◌, ◌++◌, length, take, drop, ltb, ◌==◌,
  not, ◌||◌, if◌then◌else◌, Bool, Option as Maybe, none, some,
}
use minuteman.Base.Bytes.{put_u16, get_u16, byte_at}
use minuteman.Netip.{Addr, v4, is_4, is_unspecified}
use minuteman.Dhcpv4.Options.{Message, as_4}
use minuteman.Dhcpv4.Wire.{Result, ok, err, stuck, parse, marshal}

abbrev pub bootp_server_port : ℕ
bootp_server_port = 67

abbrev bootp_client_port : ℕ
bootp_client_port = 68

abbrev udp_protocol : ℕ
udp_protocol = 17

-- The UDP payload out of `udp`, what follows the IPv4 header.
unfoldable pub udp_payload : List ℕ → Maybe (List ℕ)
udp_payload udp =
    if not (get_u16 (drop 2 udp) == bootp_server_port)
    then none
    else let udp_len = get_u16 (drop 4 udp) in
      if ltb udp_len 8 || ltb (length udp) udp_len
      then none
      else some (take (udp_len - 8) (drop 8 udp))

unfoldable pub parse_udp_to_bootp : List ℕ → Maybe (List ℕ)
unfolding udp_payload
parse_udp_to_bootp b =
    if ltb (length b) 20 || not (byte_at b 0 / 16 == 4) || not (byte_at b 9 == udp_protocol)
    then none
    else let ihl = byte_at b 0 % 16 * 4 in
      if ltb ihl 20 || ltb (length b) (ihl + 8) then none else udp_payload (drop ihl b)

-- The error of `Parse` is dropped.
unfoldable pub message_of : Result Message → Maybe Message
message_of (ok m) = some m
message_of (err x) = none
message_of stuck = none

unfoldable pub parse_request : List ℕ → Maybe Message
unfolding message_of parse_udp_to_bootp
parse_request packet = elim (parse_udp_to_bootp packet) [
  | none ↦ none
  | some payload ↦ message_of (parse payload)
]

unfoldable pub broadcast : Message → Bool
broadcast m = not (m.flags / 2 ^ 15 % 2 == 0)

abbrev broadcast_mac : List ℕ
broadcast_mac = 0xff ∷ 0xff ∷ 0xff ∷ 0xff ∷ 0xff ∷ 0xff ∷ []

unfoldable pub destination : Message → Addr × List ℕ
unfolding broadcast
destination reply =
    if broadcast reply
    then (v4 0xffffffff, broadcast_mac)
    else if not (is_4 reply.yiaddr) || is_unspecified reply.yiaddr
    then (reply.ciaddr, reply.chaddr)
    else (reply.yiaddr, reply.chaddr)

-- The sum of the 16-bit words, an odd byte at the end the high half of one.
pub word_sum : List ℕ → ℕ
word_sum [] = 0
word_sum (a ∷ []) = a * 256
word_sum (a ∷ b ∷ r) = a * 256 + b + word_sum r

-- The carries added in, a round at a time.
pub folded : ℕ → ℕ → ℕ
folded zero sum = sum
folded (suc rounds) sum =
    let rest = folded rounds (sum % 2 ^ 16 + sum / 2 ^ 16) in if ltb sum (2 ^ 16) then sum else rest

-- A 32-bit sum has no carry left after 2 rounds.
pub checksum : List ℕ → ℕ
unfolding word_sum folded
checksum b = 0xffff - folded 2 (word_sum b % 2 ^ 32)

-- The IPv4 header of a frame of `total` bytes, with its checksum.
pub ip_header : ℕ → Addr → Addr → ℕ → List ℕ
ip_header total src dst sum =
    0x45
    ∷ 0
    ∷ (put_u16 (total % 2 ^ 16)
        ++ (0 ∷ 0 ∷ 0 ∷ 0 ∷ 64 ∷ udp_protocol ∷ (put_u16 sum ++ (as_4 src ++ as_4 dst))))

pub udp_header : ℕ → ℕ → List ℕ
udp_header udp_len sum =
    put_u16 bootp_server_port
    ++ (put_u16 bootp_client_port ++ (put_u16 (udp_len % 2 ^ 16) ++ put_u16 sum))

-- What the UDP checksum is of: the addresses, the protocol and the length, then the datagram.
pub pseudo : Addr → Addr → List ℕ → List ℕ
pseudo src dst udp =
    as_4 src ++ (as_4 dst ++ (0 ∷ udp_protocol ∷ (put_u16 (length udp % 2 ^ 16) ++ udp)))

pub udp_checksum : Addr → Addr → List ℕ → ℕ
unfolding checksum pseudo
udp_checksum src dst udp = checksum (pseudo src dst udp)

-- RFC 768: zero is sent as all ones.
pub sent_checksum : ℕ → ℕ
sent_checksum sum = if sum == 0 then 0xffff else sum

unfoldable pub build_frame : Addr → Addr → List ℕ → List ℕ
unfolding ip_header udp_header checksum udp_checksum sent_checksum
build_frame src dst payload =
    let udp_len = 8 + length payload in
    ip_header (20 + udp_len) src dst (checksum (ip_header (20 + udp_len) src dst 0))
    ++ (udp_header udp_len (sent_checksum (udp_checksum src dst (udp_header udp_len 0 ++ payload)))
        ++ payload)

-- The frame and the link-layer address that it goes to.
unfoldable pub frame : Addr → Message → List ℕ × List ℕ
unfolding build_frame destination
frame src_ip reply =
    let (dst_ip, dst_mac) = destination reply in
    (build_frame src_ip dst_ip (marshal reply), dst_mac)
