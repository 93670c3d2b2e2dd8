-- ===== src/Netlink/Parse/RoundTrip.antt =====
-- pkg/netlink/message.go: addresses are read from messages as they were written into them.
use minuteman.Base.{
  ℕ, ◌%◌, ◌^◌, ◌<◌, ◌≡◌, refl, ap, ◌∙◌, arith, List, [], ◌∷◌, ◌++◌, length, drop, length-append,
  some, none, leb, if◌then◌else◌,
}
use minuteman.Base.Bytes.{length-put_be, get_be-put_be}
use minuteman.Netip.{Addr, v6, as_16}
use minuteman.Netlink.{
  ByteOrder, put_u32, get_u32, encode_rt_attr, message_header, attributes, walk_messages, ok,
}
use minuteman.Netlink.Walks.{get_u32-put_u32, length-encode_rt_attr}
use minuteman.Netlink.Messages.{Request, alone, drop-build_message}
use minuteman.Netlink.Build.{addr_body, build_addr_message, ifa_address, ifa_local}
use minuteman.Netlink.Parse.{
  prefix_from, parse_if_addr_msg, addr_from_slice, assign_addrs, found_addr,
}
use minuteman.Netlink.Build.Read.{length-as_16, pair_read}

addr_from_slice-as_16 : (a : ℕ) → a < 2 ^ 128 → addr_from_slice (as_16 (v6 a)) ≡ v6 a
unfolding addr_from_slice as_16
addr_from_slice-as_16 a h = rw (length-put_be 16 a, get_be-put_be 16 a h) refl

module _ (o : ByteOrder) where
  addrs_assigned :
      (a : ℕ)
      → a < 2 ^ 128
      → assign_addrs
          (Addr.invalid, Addr.invalid)
          (attributes o (
            encode_rt_attr o ifa_local (as_16 (v6 a))
            ++ encode_rt_attr o ifa_address (as_16 (v6 a))))
        ≡ (v6 a, v6 a)
  unfolding assign_addrs
  addrs_assigned a h =
      rw
        (pair_read o ifa_local ifa_address (as_16 (v6 a)) (as_16 (v6 a))
          (omega arith, omega (arith, length-as_16 (v6 a)))
          (omega arith, omega (arith, length-as_16 (v6 a))))
        (rw (addr_from_slice-as_16 a h) refl)

  -- The fields of an ifaddrmsg, and what the loop over its attributes leaves.
  parsed :
      (l b c d e : ℕ) (attrs : List ℕ) (ifindex a : ℕ)
      → get_u32 o (b ∷ c ∷ d ∷ e ∷ []) ≡ ifindex
      → assign_addrs (Addr.invalid, Addr.invalid) (attributes o attrs) ≡ (v6 a, v6 a)
      → parse_if_addr_msg o (10 ∷ l ∷ 0 ∷ 0 ∷ b ∷ c ∷ d ∷ e ∷ attrs) ifindex
        ≡ some (prefix_from (v6 a) l)
  unfolding parse_if_addr_msg found_addr
  parsed l b c d e attrs ifindex a index found = rw (index, found) (ground arith)

  addr_body_read :
      (ifindex a prefix_len : ℕ)
      → ifindex < 2 ^ 32
      → a < 2 ^ 128
      → prefix_len < 256
      → parse_if_addr_msg o (addr_body o ifindex (v6 a) prefix_len) ifindex
        ≡ some (prefix_from (v6 a) prefix_len)
  unfolding addr_body put_u32
  addr_body_read ifindex a prefix_len h k l =
      let index : get_u32 o (put_u32 o (ifindex % 2 ^ 32)) ≡ ifindex =
        get_u32-put_u32 o (ifindex % 2 ^ 32) (omega arith) ∙ omega arith in
      parsed (prefix_len % 256) _ _ _ _ _ ifindex a index (addrs_assigned a k)
      ∙ rw (let e : prefix_len % 256 ≡ prefix_len = omega arith in e) refl

  pub length-addr_body :
      (ifindex a prefix_len : ℕ) → length (addr_body o ifindex (v6 a) prefix_len) ≡ 48
  unfolding addr_body put_u32
  length-addr_body ifindex a prefix_len =
      let local = encode_rt_attr o ifa_local (as_16 (v6 a)) in
      let address = encode_rt_attr o ifa_address (as_16 (v6 a)) in
      omega (
        arith,
        length-append local address,
        length-encode_rt_attr o ifa_local (as_16 (v6 a)),
        length-encode_rt_attr o ifa_address (as_16 (v6 a)),
        length-as_16 (v6 a),
      )

  -- The message that sets an IPv6 address on an interface, of a type, an index, an address and a prefix
  -- length that fit their fields, is one message to the walk, and it is read for that interface: the
  -- address as it was written, with the prefix length as it was written if that is 128 at most, and as
  -- no valid prefix if it is more.
  pub parse_if_addr_msg-build_addr_message :
      (rtm_type flags seq ifindex a prefix_len : ℕ)
      → rtm_type < 2 ^ 16
      → ifindex < 2 ^ 32
      → a < 2 ^ 128
      → prefix_len < 256
      → (walk_messages o (build_addr_message o rtm_type flags seq ifindex (v6 a) prefix_len)
          ≡ some (
              ok (
                record {
                  type_code = rtm_type;
                  raw = build_addr_message o rtm_type flags seq ifindex (v6 a) prefix_len;
                }
                ∷ [])))
        × (parse_if_addr_msg o
              (drop message_header
                (build_addr_message o rtm_type flags seq ifindex (v6 a) prefix_len))
              ifindex
            ≡ some (record {
              addr = v6 a;
              bits = if leb prefix_len 128 then some prefix_len else none;
            }))
  unfolding build_addr_message
  parse_if_addr_msg-build_addr_message rtm_type flags seq ifindex a prefix_len t h k l =
      let body = addr_body o ifindex (v6 a) prefix_len in
      let r : Request o = record { rtm_type = rtm_type; flags = flags; seq = seq; body = body } in
      (
        alone o r (record {
          type_fits = t;
          length_fits = omega (arith, length-addr_body ifindex a prefix_len);
          aligned = omega (arith, length-addr_body ifindex a prefix_len);
        }),
        ap (λ b. parse_if_addr_msg o b ifindex) (drop-build_message o rtm_type flags seq body)
            ∙ addr_body_read ifindex a prefix_len h k l
            ∙ (unfold prefix_from in refl),
      )
