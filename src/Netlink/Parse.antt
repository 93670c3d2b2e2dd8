-- ===== src/Netlink/Parse.antt =====
-- pkg/netlink/message.go: what is read from the kernel's answers. Each loop over attributes goes through
-- `attributes`; a break ends it there.
pub mod RoundTrip
use minuteman.Base.{
  ℕ, zero, suc, ◌+◌, ◌-◌, ◌^◌, List, [], ◌∷◌, length, take, drop, ltb, leb, ◌==◌, if◌then◌else◌,
  Bool, true, false, not, ◌&&◌, ◌||◌, Option, none, some,
}
use minuteman.Base.Bytes.{byte_at, get_be}
use minuteman.Base.Bytes
use minuteman.Netip.{Addr, v4, v6, invalid, is_valid}
use minuteman.Netlink.{
  ByteOrder, get_u16, get_u32, RtAttr, Error, ack_too_short, not_an_error, wrong_sequence, errno,
  Result, ok, err, attributes,
}
use minuteman.Netlink.Build.{af_inet6, ifa_address, ifa_local, ifla_ifname}

abbrev rta_prefsrc : ℕ
rta_prefsrc = 7

abbrev ifla_xdp : ℕ
ifla_xdp = 43

abbrev ifla_xdp_prog_id : ℕ
ifla_xdp_prog_id = 4

abbrev pub nlmsg_error : ℕ
nlmsg_error = 2

-- A netip.Prefix of a valid address: an invalid one has no number of bits, which Go gives as -1.
pub record IfAddr : Type 0 where
  pub addr : Addr
  pub bits : Option ℕ

abbrev bit_len : Addr → ℕ
bit_len invalid = 0
bit_len (v4 a) = 32
bit_len (v6 a) = 128

-- netip.PrefixFrom, of a valid address.
unfoldable pub prefix_from : Addr → ℕ → IfAddr
prefix_from addr bits = record {
  addr = addr;
  bits = if leb bits (bit_len addr) then some bits else none;
}

pub record Link : Type 0 where
  pub index : ℕ
  pub name : List ℕ
  pub xdp_prog_id : ℕ

-- netip.AddrFromSlice; the zero Addr at any other length.
unfoldable pub addr_from_slice : List ℕ → Addr
addr_from_slice b =
    if length b == 4 then v4 (get_be b) else if length b == 16 then v6 (get_be b) else invalid

first_prefsrc : List RtAttr → Option Addr
first_prefsrc [] = none
first_prefsrc (a ∷ rest) =
    if a.type_code == rta_prefsrc && is_valid (addr_from_slice a.value)
    then some (addr_from_slice a.value)
    else first_prefsrc rest

-- IFA_ADDRESS and IFA_LOCAL as the loop leaves them: the last one of each wins.
assign_addrs : Addr × Addr → List RtAttr → Addr × Addr
assign_addrs (address, local) [] = (address, local)
assign_addrs (address, local) (a ∷ rest) =
    assign_addrs
      (
        if a.type_code == ifa_address then addr_from_slice a.value else address,
        if a.type_code == ifa_local then addr_from_slice a.value else local,
      )
      rest

-- The address that is found, IFA_LOCAL only where there is no other.
found_addr : Addr × Addr → ℕ → Option IfAddr
unfolding prefix_from
found_addr (address, local) prefix_len =
    let addr = if is_valid address then address else local in
    if is_valid addr then some (prefix_from addr prefix_len) else none

until_zero : List ℕ → List ℕ
until_zero [] = []
until_zero (c ∷ cs) = let rest = until_zero cs in if c == 0 then [] else c ∷ rest

module _ (o : ByteOrder) where
  pub parse_route_prefsrc : List ℕ → Option Addr
  unfolding first_prefsrc
  parse_route_prefsrc payload =
      if ltb (length payload) 12
      then none
      else if not (byte_at payload 0 == af_inet6)
      then none
      else first_prefsrc (attributes o (drop 12 payload))

  unfoldable pub parse_if_addr_msg : List ℕ → ℕ → Option IfAddr
  unfolding assign_addrs found_addr
  parse_if_addr_msg payload want_ifindex =
      if ltb (length payload) 8
      then none
      else if not (byte_at payload 0 == af_inet6)
          || not (get_u32 o (take 4 (drop 4 payload)) == want_ifindex)
          || not (byte_at payload 3 == 0)
      then none
      else found_addr (assign_addrs (invalid, invalid) (attributes o (drop 8 payload)))
          (byte_at payload 1)

  -- The first program id among the attributes; one that is too short is passed over.
  prog_id : List RtAttr → ℕ
  prog_id [] = 0
  prog_id (a ∷ rest) =
      if a.type_code == ifla_xdp_prog_id && not (ltb (length a.value) 4)
      then get_u32 o (take 4 a.value)
      else prog_id rest

  pub parse_xdp_prog_id : List ℕ → ℕ
  unfolding prog_id
  parse_xdp_prog_id attrs = prog_id (attributes o attrs)

  assign_link : Link → List RtAttr → Link
  unfolding until_zero parse_xdp_prog_id
  assign_link l [] = l
  assign_link l (a ∷ rest) =
      assign_link
        (if a.type_code == ifla_ifname
          then record l { name = until_zero a.value }
          else if a.type_code == ifla_xdp
          then record l { xdp_prog_id = parse_xdp_prog_id a.value }
          else l)
        rest

  pub parse_if_info_msg : List ℕ → Option Link
  unfolding assign_link
  parse_if_info_msg payload =
      if ltb (length payload) 16
      then none
      else let l =
          assign_link
            (record { index = get_u32 o (take 4 (drop 4 payload)); name = []; xdp_prog_id = 0 })
            (attributes o (drop 16 payload)) in
        if l.index == 0 || length l.name == 0 then none else some l

  -- `Errno(-errno)` of an int32's bits: of a negative one its size; a positive one, and the least,
  -- become negative and are extended to 64 bits.
  errno_of : ℕ → ℕ
  errno_of bits = if leb bits (2 ^ 31) then 2 ^ 64 - bits else 2 ^ 32 - bits

  pub parse_ack_errno : List ℕ → ℕ → Result (Unit {0})
  unfolding errno_of
  parse_ack_errno b want_seq =
      if ltb (length b) 36
      then err ack_too_short
      else if not (get_u16 o (take 2 (drop 4 b)) == nlmsg_error)
      then err not_an_error
      else if not (get_u32 o (take 4 (drop 8 b)) == want_seq)
      then err wrong_sequence
      else if get_u32 o (take 4 (drop 16 b)) == 0
      then ok tt
      else err (errno (errno_of (get_u32 o (take 4 (drop 16 b)))))
