-- ===== src/Netlink/Build.antt =====
-- pkg/netlink/message.go: the requests, each an nlmsghdr, a fixed header of its family, and attributes.
pub mod Read
use minuteman.Base.{ℕ, ◌+◌, ◌%◌, ◌^◌, List, [], ◌∷◌, ◌++◌, ltb, if◌then◌else◌, replicate}
use minuteman.Base.Bytes
use minuteman.Netip.{Addr, is_4, as_16, number, Prefix}
use minuteman.Netlink.{ByteOrder, put_u32, encode_rt_attr, encode_nested_attr, build_message}

-- Message types.
abbrev pub rtm_newlink : ℕ
rtm_newlink = 16

abbrev pub rtm_dellink : ℕ
rtm_dellink = 17

abbrev rtm_getlink : ℕ
rtm_getlink = 18

abbrev pub rtm_newaddr : ℕ
rtm_newaddr = 20

abbrev pub rtm_deladdr : ℕ
rtm_deladdr = 21

abbrev rtm_getaddr : ℕ
rtm_getaddr = 22

abbrev pub rtm_newroute : ℕ
rtm_newroute = 24

abbrev pub rtm_delroute : ℕ
rtm_delroute = 25

abbrev rtm_getroute : ℕ
rtm_getroute = 26

-- Flags, of different bits, so that `|` is `+`.
abbrev pub nlm_f_request : ℕ
nlm_f_request = 1

abbrev pub nlm_f_ack : ℕ
nlm_f_ack = 4

abbrev pub nlm_f_replace : ℕ
nlm_f_replace = 0x100

abbrev pub nlm_f_excl : ℕ
nlm_f_excl = 0x200

abbrev pub nlm_f_dump : ℕ
nlm_f_dump = 0x300

abbrev pub nlm_f_create : ℕ
nlm_f_create = 0x400

abbrev pub af_inet : ℕ
af_inet = 2

abbrev pub af_inet6 : ℕ
af_inet6 = 10

-- Attribute types.
abbrev pub ifa_address : ℕ
ifa_address = 1

abbrev pub ifa_local : ℕ
ifa_local = 2

abbrev pub rta_dst : ℕ
rta_dst = 1

abbrev pub rta_oif : ℕ
rta_oif = 4

abbrev pub ifla_ifname : ℕ
ifla_ifname = 3

abbrev pub ifla_mtu : ℕ
ifla_mtu = 4

abbrev pub ifla_linkinfo : ℕ
ifla_linkinfo = 18

abbrev pub ifla_info_kind : ℕ
ifla_info_kind = 1

abbrev pub ifla_info_data : ℕ
ifla_info_data = 2

abbrev pub ifla_iptun_local : ℕ
ifla_iptun_local = 2

abbrev pub ifla_iptun_remote : ℕ
ifla_iptun_remote = 3

abbrev pub ifla_iptun_flags : ℕ
ifla_iptun_flags = 8

abbrev pub ifla_iptun_proto : ℕ
ifla_iptun_proto = 9

abbrev ip6_tnl_ign_encap_limit : ℕ
ip6_tnl_ign_encap_limit = 1

abbrev ipproto_ipip : ℕ
ipproto_ipip = 4

abbrev veth_info_peer : ℕ
veth_info_peer = 1

abbrev iff_up : ℕ
iff_up = 1

module _ (o : ByteOrder) where
  -- A C string.
  abbrev zero_ended : List ℕ → List ℕ
  zero_ended name = name ++ 0 ∷ []

  abbrev u32_of : ℕ → List ℕ
  u32_of v = put_u32 o (v % 2 ^ 32)

  unfoldable pub addr_body : ℕ → Addr → ℕ → List ℕ
  addr_body ifindex addr prefix_len =
      (af_inet6 ∷ prefix_len % 256 ∷ 0 ∷ 0 ∷ [])
      ++ (u32_of ifindex
          ++ (encode_rt_attr o ifa_local (as_16 addr) ++ encode_rt_attr o ifa_address (as_16 addr)))

  unfoldable pub build_addr_message : ℕ → ℕ → ℕ → ℕ → Addr → ℕ → List ℕ
  build_addr_message rtm_type flags seq ifindex addr prefix_len =
      build_message o rtm_type flags seq (addr_body ifindex addr prefix_len)

  pub build_get_addr_message : ℕ → List ℕ
  build_get_addr_message seq =
      build_message o rtm_getaddr (nlm_f_request + nlm_f_dump) seq (af_inet6 ∷ replicate 7 0)

  -- The address family of a destination, and its bytes.
  pub family_of : Addr → ℕ
  family_of a = if is_4 a then af_inet else af_inet6

  pub dst_bytes : Addr → List ℕ
  dst_bytes a = if is_4 a then Bytes.put_u32 (number a) else as_16 a

  dst_attr : Prefix → List ℕ
  unfolding dst_bytes
  dst_attr dst = if ltb 0 dst.bits then encode_rt_attr o rta_dst (dst_bytes dst.addr) else []

  pub route_body : ℕ → Prefix → List ℕ
  unfolding family_of dst_attr
  route_body ifindex dst =
      (family_of dst.addr ∷ dst.bits % 256 ∷ 0 ∷ 0 ∷ 254 ∷ 4 ∷ 253 ∷ 1 ∷ [])
      ++ (u32_of 0 ++ (dst_attr dst ++ encode_rt_attr o rta_oif (u32_of ifindex)))

  pub build_route_message : ℕ → ℕ → ℕ → ℕ → Prefix → List ℕ
  build_route_message rtm_type flags seq ifindex dst =
      build_message o rtm_type flags seq (route_body ifindex dst)

  pub build_get_route_message : ℕ → ℕ → Addr → List ℕ
  build_get_route_message seq ifindex dst = build_message o rtm_getroute nlm_f_request seq (
      (af_inet6 ∷ 128 ∷ 0 ∷ 0 ∷ 0 ∷ 0 ∷ 0 ∷ 1 ∷ [])
      ++ (u32_of 0
          ++ (encode_rt_attr o rta_dst (as_16 dst) ++ encode_rt_attr o rta_oif (u32_of ifindex))))

  pub build_if_info_body : ℕ → ℕ → ℕ → List ℕ
  build_if_info_body ifindex flags change =
      (0 ∷ 0 ∷ 0 ∷ 0 ∷ []) ++ (u32_of ifindex ++ (u32_of flags ++ u32_of change))

  pub build_get_link_message : ℕ → List ℕ
  unfolding build_if_info_body
  build_get_link_message seq =
      build_message o rtm_getlink (nlm_f_request + nlm_f_dump) seq (build_if_info_body 0 0 0)

  pub build_ip6_tnl_link_info : Addr → Addr → List ℕ
  build_ip6_tnl_link_info local remote = encode_nested_attr o ifla_linkinfo (
      encode_rt_attr o ifla_info_kind (zero_ended (105 ∷ 112 ∷ 54 ∷ 116 ∷ 110 ∷ 108 ∷ []))
      ∷ encode_nested_attr o ifla_info_data (
          encode_rt_attr o ifla_iptun_local (as_16 local)
          ∷ encode_rt_attr o ifla_iptun_remote (as_16 remote)
          ∷ encode_rt_attr o ifla_iptun_proto (ipproto_ipip ∷ [])
          ∷ encode_rt_attr o ifla_iptun_flags (u32_of ip6_tnl_ign_encap_limit)
          ∷ [])
      ∷ [])

  pub build_add_ip6_tnl_message : ℕ → ℕ → List ℕ → Addr → Addr → ℕ → List ℕ
  unfolding build_if_info_body build_ip6_tnl_link_info
  build_add_ip6_tnl_message seq flags name local remote mtu =
      build_message o rtm_newlink flags seq (
        build_if_info_body 0 0 0
        ++ (encode_rt_attr o ifla_ifname (zero_ended name)
            ++ (encode_rt_attr o ifla_mtu (u32_of mtu) ++ build_ip6_tnl_link_info local remote)))

  pub build_change_ip6_tnl_message : ℕ → ℕ → Addr → Addr → List ℕ
  unfolding build_if_info_body build_ip6_tnl_link_info
  build_change_ip6_tnl_message seq ifindex local remote =
      build_message o rtm_newlink (nlm_f_request + nlm_f_ack) seq
        (build_if_info_body ifindex 0 0 ++ build_ip6_tnl_link_info local remote)

  pub build_add_veth_message : ℕ → ℕ → List ℕ → List ℕ → ℕ → List ℕ
  unfolding build_if_info_body
  build_add_veth_message seq flags name peer_name mtu =
      let peer =
        build_if_info_body 0 0 0
        ++ (encode_rt_attr o ifla_ifname (zero_ended peer_name)
            ++ encode_rt_attr o ifla_mtu (u32_of mtu)) in
      let info = encode_nested_attr o ifla_info_data (encode_rt_attr o veth_info_peer peer ∷ []) in
      let kind = encode_rt_attr o ifla_info_kind (zero_ended (118 ∷ 101 ∷ 116 ∷ 104 ∷ [])) in
      build_message o rtm_newlink flags seq (
        build_if_info_body 0 0 0
        ++ (encode_rt_attr o ifla_ifname (zero_ended name)
            ++ (encode_rt_attr o ifla_mtu (u32_of mtu)
                ++ encode_nested_attr o ifla_linkinfo (kind ∷ info ∷ []))))

  pub build_set_link_up_message : ℕ → ℕ → List ℕ
  unfolding build_if_info_body
  build_set_link_up_message seq ifindex =
      build_message o rtm_newlink (nlm_f_request + nlm_f_ack) seq
        (build_if_info_body ifindex iff_up iff_up)

  pub build_set_link_mtu_message : ℕ → ℕ → ℕ → List ℕ
  unfolding build_if_info_body
  build_set_link_mtu_message seq ifindex mtu =
      build_message o rtm_newlink (nlm_f_request + nlm_f_ack) seq
        (build_if_info_body ifindex 0 0 ++ encode_rt_attr o ifla_mtu (u32_of mtu))

  pub build_del_link_message : ℕ → ℕ → List ℕ
  unfolding build_if_info_body
  build_del_link_message seq ifindex =
      build_message o rtm_dellink (nlm_f_request + nlm_f_ack) seq (build_if_info_body ifindex 0 0)
