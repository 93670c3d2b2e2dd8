-- ===== src/Netlink/Build/Read.antt =====
-- pkg/netlink/message.go: what the requests say to one who reads them as the kernel's answers are read.
use minuteman.Base.{
  ℕ, ◌+◌, ◌*◌, ◌%◌, ◌^◌, ◌≤◌, ◌<◌, ◌≡◌, refl, sym, ap, ◌∙◌, arith, List, [], ◌∷◌, ◌++◌, length,
  take, drop, append-nil, ltb, if◌then◌else◌, Bool-cases, inl, inr,
}
use minuteman.Base.Bytes.{length-put_be}
use minuteman.Netip.{Addr, v4, v6, Prefix, as_16}
use minuteman.Netlink.{ByteOrder, put_u32, get_u32, RtAttr, encode_rt_attr, attributes}
use minuteman.Netlink.Walks.{get_u32-put_u32, encode_all, IsAttr, attributes-encode_all}
use minuteman.Netlink.Build.{route_body, dst_bytes, rta_dst, rta_oif, family_of, dst_attr}

pub length-as_16 : (a : Addr) → length (as_16 a) ≡ 16
unfolding as_16
length-as_16 (v6 a) = length-put_be 16 a
length-as_16 (v4 a) = length-put_be 16 (0xffff * 2 ^ 32 + a)
length-as_16 Addr.invalid = length-put_be 16 0

module _ (o : ByteOrder) where
  pub pair_read :
      (t u : ℕ) (x y : List ℕ)
      → IsAttr o (record { type_code = t; value = x })
      → IsAttr o (record { type_code = u; value = y })
      → attributes o (encode_rt_attr o t x ++ encode_rt_attr o u y)
        ≡ record { type_code = t; value = x } ∷ record { type_code = u; value = y } ∷ []
  pair_read t u x y p q =
      let all =
        attributes-encode_all o
          (record { type_code = t; value = x } ∷ record { type_code = u; value = y } ∷ [])
          (p, (q, tt)) in
      ap (λ z. attributes o (encode_rt_attr o t x ++ z)) (sym (append-nil (encode_rt_attr o u y)))
      ∙ (unfold encode_all in all)

  -- The attributes that a route carries.
  pub attrs_of : ℕ → Prefix → List RtAttr
  attrs_of ifindex dst =
      let out = record { type_code = rta_oif; value = put_u32 o (ifindex % 2 ^ 32) } ∷ [] in
      if ltb 0 dst.bits
      then record { type_code = rta_dst; value = dst_bytes o dst.addr } ∷ out
      else out

  length-dst_bytes : (a : Addr) → length (dst_bytes o a) ≤ 16
  unfolding dst_bytes family_of
  length-dst_bytes (v4 a) = omega arith
  length-dst_bytes (v6 a) = omega (arith, length-as_16 (v6 a))
  length-dst_bytes Addr.invalid = omega (arith, length-as_16 Addr.invalid)

  oif_read :
      (x : List ℕ)
      → length x ≡ 4
      → attributes o (encode_rt_attr o rta_oif x) ≡ record { type_code = rta_oif; value = x } ∷ []
  oif_read x h =
      ap (attributes o) (sym (append-nil (encode_rt_attr o rta_oif x)))
      ∙ (unfold encode_all in
          attributes-encode_all o (record { type_code = rta_oif; value = x } ∷ [])
            ((omega arith, omega arith), tt))

  length-put_u32 : (v : ℕ) → length (put_u32 o v) ≡ 4
  unfolding put_u32
  length-put_u32 v = refl

  route_attrs :
      (ifindex : ℕ) (dst : Prefix)
      → drop 12 (route_body o ifindex dst)
        ≡ dst_attr o dst ++ encode_rt_attr o rta_oif (put_u32 o (ifindex % 2 ^ 32))
  unfolding route_body put_u32
  route_attrs ifindex dst = refl

  attrs_read :
      (dst : Prefix) (x : List ℕ)
      → length x ≡ 4
      → attributes o (dst_attr o dst ++ encode_rt_attr o rta_oif x) ≡ (
          if ltb 0 dst.bits
          then record { type_code = rta_dst; value = dst_bytes o dst.addr }
            ∷ record { type_code = rta_oif; value = x }
            ∷ []
          else record { type_code = rta_oif; value = x } ∷ [])
  unfolding dst_attr
  attrs_read dst x h = elim (Bool-cases (ltb 0 dst.bits)) [
    | inl e ↦ rw e (
        pair_read rta_dst rta_oif (dst_bytes o dst.addr) x
          (omega arith, omega (arith, length-dst_bytes dst.addr)) (omega arith, omega arith))
    | inr e ↦ rw e (oif_read x h)
  ]

  -- A route's request carries the destination in its family's bytes, unless it is the default route, and
  -- the interface's index, which is read from it as it was if it fits 32 bits; and it names the family
  -- and the length of the destination.
  pub route_body_read :
      (ifindex : ℕ) (dst : Prefix)
      → dst.bits < 256
      → ifindex < 2 ^ 32
      → (attributes o (drop 12 (route_body o ifindex dst)) ≡ attrs_of ifindex dst)
        × (take 2 (route_body o ifindex dst) ≡ family_of o dst.addr ∷ dst.bits ∷ [])
        × (get_u32 o (put_u32 o (ifindex % 2 ^ 32)) ≡ ifindex)
  unfolding attrs_of
  route_body_read ifindex dst b h = (
    ap (attributes o) (route_attrs ifindex dst)
        ∙ attrs_read dst (put_u32 o (ifindex % 2 ^ 32)) (length-put_u32 (ifindex % 2 ^ 32)),
    unfold route_body in
        ap (λ t. family_of o dst.addr ∷ t ∷ [])
          (let e : dst.bits % 256 ≡ dst.bits = omega arith in e),
    get_u32-put_u32 o (ifindex % 2 ^ 32) (omega arith) ∙ omega arith,
  )
