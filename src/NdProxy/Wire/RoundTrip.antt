-- ===== src/NdProxy/Wire/RoundTrip.antt =====
-- pkg/ndproxy: the target and the destination of what the proxy sends.
use minuteman.Base.{
  ℕ, ◌^◌, ◌<◌, ◌≡◌, refl, ap, ◌∙◌, subst, arith, List, ◌∷◌, ◌++◌, length, take, length-append,
  take-append, true, false, if◌then◌else◌, some,
}
use minuteman.Base.Bytes.{get_be, length-put_be, get_be-put_be, put_be}
use minuteman.Netip.{Addr, v6, as_16}
use minuteman.NdProxy.Wire.{
  icmp_type_neighbor_advert, parse_target, marshal_neighbor_advertisement, advertisement,
  parse_advertisement, is_directed, all_nodes, link_layer_option,
}

length-as_16 : (a : ℕ) → length (as_16 (v6 a)) ≡ 16
unfolding as_16
length-as_16 a = length-put_be 16 a

take_target : (a : ℕ) (rest : List ℕ) → a < 2 ^ 128 → get_be (take 16 (as_16 (v6 a) ++ rest)) ≡ a
unfolding as_16
take_target a rest h =
    ap get_be (
      subst (λ n. take n (put_be 16 a ++ rest) ≡ put_be 16 a) (length-put_be 16 a)
        (take-append (put_be 16 a) rest))
    ∙ get_be-put_be 16 a h

-- A message with the target in its place.
parse_target_lem :
    (t c x y f g k l a : ℕ) (rest : List ℕ)
    → a < 2 ^ 128
    → parse_target (t ∷ c ∷ x ∷ y ∷ f ∷ g ∷ k ∷ l ∷ (as_16 (v6 a) ++ rest)) t ≡ some (v6 a)
unfolding parse_target
parse_target_lem t c x y f g k l a rest h =
    ground (arith, take_target a rest h, length-append (as_16 (v6 a)) rest, length-as_16 a)

-- What the proxy advertises for a 128-bit target to a solicitor, read back, names that target, whatever
-- the link-layer address; and it goes to the solicitor itself when that is a specified address, else to
-- all nodes.
pub parse_advertisement-advertisement :
    (a : ℕ) (solicitor : Addr) (mac : List ℕ)
    → a < 2 ^ 128
    → (parse_advertisement (advertisement (v6 a) solicitor mac).0 ≡ some (v6 a))
      × ((is_directed solicitor ≡ true → (advertisement (v6 a) solicitor mac).1 ≡ solicitor)
          × (is_directed solicitor ≡ false → (advertisement (v6 a) solicitor mac).1 ≡ all_nodes))
unfolding parse_advertisement advertisement marshal_neighbor_advertisement
parse_advertisement-advertisement a solicitor mac h = (
  parse_target_lem icmp_type_neighbor_advert 0 0 0 (if is_directed solicitor then 0x40 else 0) 0 0 0
      a (link_layer_option 2 mac) h,
  (λ e. rw e refl, λ e. rw e refl),
)
