-- ===== src/NdProxy/Wire.antt =====
-- pkg/ndproxy/message.go, packet.go and wire.go: Neighbor Solicitations and Advertisements as bytes, and
-- where they go. The checksums are the kernel's.
pub mod RoundTrip
use minuteman.Base.{
  ℕ, ◌+◌, ◌-◌, ◌*◌, ◌/◌, ◌%◌, ◌^◌, List, [], ◌∷◌, ◌++◌, length, replicate, ltb, ◌==◌, if◌then◌else◌,
  Bool, true, false, not, ◌&&◌, ◌||◌, Option, none, some,
}
use minuteman.Base.Bytes.{byte_at, slice, get_be}
use minuteman.Netip.{Addr, v6, as_16, is_valid, is_unspecified}

abbrev pub icmp_type_neighbor_solicit : ℕ
icmp_type_neighbor_solicit = 135

abbrev pub icmp_type_neighbor_advert : ℕ
icmp_type_neighbor_advert = 136

abbrev na_flag_solicited : ℕ
na_flag_solicited = 0x40

-- `parseTarget` with the error left out: the caller asks only whether there is one.
unfoldable pub parse_target : List ℕ → ℕ → Option Addr
parse_target b want_type =
    if ltb (length b) 24
    then none
    else if not (byte_at b 0 == want_type)
    then none
    else some (v6 (get_be (slice 8 24 b)))

-- A multiple of 8 bytes.
abbrev pub link_layer_option_bytes : List ℕ → ℕ
link_layer_option_bytes mac = (2 + length mac + 7) / 8 * 8

pub link_layer_option : ℕ → List ℕ → List ℕ
link_layer_option opt_type mac =
    opt_type
    ∷ link_layer_option_bytes mac / 8 % 256
    ∷ (mac ++ replicate (link_layer_option_bytes mac - 2 - length mac) 0)

unfoldable pub marshal_neighbor_solicitation : Addr → List ℕ → List ℕ
unfolding link_layer_option
marshal_neighbor_solicitation target mac =
    (icmp_type_neighbor_solicit ∷ 0 ∷ 0 ∷ 0 ∷ 0 ∷ 0 ∷ 0 ∷ 0 ∷ [])
    ++ (as_16 target ++ link_layer_option 1 mac)

unfoldable pub marshal_neighbor_advertisement : Addr → List ℕ → Bool → List ℕ
unfolding link_layer_option
marshal_neighbor_advertisement target mac solicited =
    (icmp_type_neighbor_advert
      ∷ 0
      ∷ 0
      ∷ 0
      ∷ (if solicited then na_flag_solicited else 0)
      ∷ 0
      ∷ 0
      ∷ 0
      ∷ [])
    ++ (as_16 target ++ link_layer_option 2 mac)

-- ff02::1:ff00:0 with the low 24 bits of the address.
unfoldable pub solicited_node_multicast : Addr → Addr
solicited_node_multicast a =
    v6 (0xff02 * 2 ^ 112 + 2 ^ 32 + 0xff * 2 ^ 24 + get_be (as_16 a) % 2 ^ 24)

-- ff02::1.
abbrev pub all_nodes : Addr
all_nodes = v6 (0xff02 * 2 ^ 112 + 1)

unfoldable pub solicitation : Addr → List ℕ → List ℕ × Addr
unfolding marshal_neighbor_solicitation solicited_node_multicast
solicitation target mac =
    (marshal_neighbor_solicitation target mac, solicited_node_multicast target)

-- Whether a solicitor can be answered by unicast.
abbrev pub is_directed : Addr → Bool
is_directed solicitor = is_valid solicitor && not (is_unspecified solicitor)

unfoldable pub advertisement : Addr → Addr → List ℕ → List ℕ × Addr
unfolding marshal_neighbor_advertisement
advertisement target solicitor mac = (
  marshal_neighbor_advertisement target mac (is_directed solicitor),
  if is_directed solicitor then solicitor else all_nodes,
)

unfoldable pub parse_advertisement : List ℕ → Option Addr
unfolding parse_target
parse_advertisement b = parse_target b icmp_type_neighbor_advert

-- The target and the source of a whole IPv6 packet that is a Neighbor Solicitation.
unfoldable pub parse_solicitation_packet : List ℕ → Option (Addr × Addr)
parse_solicitation_packet b =
    if ltb (length b) 64
    then none
    else if not (byte_at b 0 / 2 ^ 4 == 6) || not (byte_at b 6 == 58) || not (byte_at b 7 == 255)
    then none
    else if not (byte_at b 40 == icmp_type_neighbor_solicit) || not (byte_at b 41 == 0)
    then none
    else some (v6 (get_be (slice 48 64 b)), v6 (get_be (slice 8 24 b)))
