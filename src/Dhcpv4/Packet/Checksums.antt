-- ===== src/Dhcpv4/Packet/Checksums.antt =====
-- pkg/dhcpv4/packet.go: the checksums of a frame.
use minuteman.Base.{
  ℕ, ◌+◌, ◌-◌, ◌*◌, ◌%◌, ◌^◌, ◌≤◌, ◌<◌, ◌≡◌, ap, ◌∙◌, arith, List, [], ◌∷◌, ◌++◌, length, All,
}
use minuteman.Base.Bytes.{IsByte}
use minuteman.Netip.{Addr}
use minuteman.Dhcpv4.Packet.{
  word_sum, folded, checksum, ip_header, udp_header, pseudo, udp_checksum, sent_checksum,
}

-- Two rounds leave 16 bits of a 32-bit sum.
pub folded_two : (s : ℕ) → s < 2 ^ 32 → folded 2 s < 2 ^ 16
unfolding folded
folded_two s h = ground arith

-- The sum with its complement added folds to all ones.
folded_complement : (s : ℕ) → s < 2 ^ 31 → folded 2 (s + (0xffff - folded 2 s)) ≡ 0xffff
unfolding folded
folded_complement s h = ground arith

word_sum-le : (b : List ℕ) → All IsByte b → word_sum b ≤ 32768 * length b + 32768
unfolding word_sum
word_sum-le [] h = omega arith
word_sum-le (a ∷ []) h = omega arith
word_sum-le (a ∷ b ∷ r) h = omega (arith, word_sum-le r h.1.1)

word_sum-ip_header :
    (total : ℕ) (src dst : Addr) (k : ℕ)
    → k < 2 ^ 16
    → word_sum (ip_header total src dst k) ≡ word_sum (ip_header total src dst 0) + k
unfolding word_sum ip_header
word_sum-ip_header total src dst k h = omega arith

word_sum_lt : (total : ℕ) (src dst : Addr) → word_sum (ip_header total src dst 0) < 2 ^ 31
unfolding word_sum ip_header
word_sum_lt total src dst = omega arith

checksum_eq : (b : List ℕ) → word_sum b < 2 ^ 32 → checksum b ≡ 0xffff - folded 2 (word_sum b)
unfolding checksum
checksum_eq b h =
    let e : word_sum b % 2 ^ 32 ≡ word_sum b = omega arith in ap (λ n. 0xffff - folded 2 n) e

-- The words of the header with its checksum in it.
pub ip_header-folded :
    (total : ℕ) (src dst : Addr)
    → let w = word_sum (ip_header total src dst (checksum (ip_header total src dst 0))) in
      (folded 2 w ≡ 0xffff) × (w < 2 ^ 32)
ip_header-folded total src dst =
    let h : List ℕ = ip_header total src dst 0 in
    let lt = word_sum_lt total src dst in
    let eq = checksum_eq h (omega (arith, lt)) in
    let total' : word_sum (ip_header total src dst (checksum h)) ≡ word_sum h + checksum h =
      word_sum-ip_header total src dst (checksum h) (omega (arith, eq)) in
    (
      ap (folded 2) (total' ∙ ap (λ k. word_sum h + k) eq) ∙ folded_complement (word_sum h) lt,
      omega (arith, lt, total', eq),
    )

word_sum-pseudo :
    (src dst : Addr) (n k : ℕ) (payload : List ℕ)
    → k < 2 ^ 16
    → word_sum (pseudo src dst (udp_header n k ++ payload))
      ≡ word_sum (pseudo src dst (udp_header n 0 ++ payload)) + k
unfolding word_sum pseudo udp_header
word_sum-pseudo src dst n k payload h = omega arith

pseudo_lt :
    (src dst : Addr) (n : ℕ) (payload : List ℕ)
    → All IsByte payload
    → length payload ≤ 65507
    → word_sum (pseudo src dst (udp_header n 0 ++ payload)) < 2 ^ 31
unfolding word_sum pseudo udp_header
pseudo_lt src dst n payload bs h = omega (arith, word_sum-le payload bs)

-- The sum that zero is sent as completes the words, too.
sent_complement : (s : ℕ) → s < 2 ^ 31 → folded 2 (s + sent_checksum (0xffff - folded 2 s)) ≡ 0xffff
unfolding folded sent_checksum
sent_complement s h = ground arith

pub sent_checksum_lt : (k : ℕ) → k < 2 ^ 16 → sent_checksum k < 2 ^ 16
unfolding sent_checksum
sent_checksum_lt k h = ground arith

pub sent_checksum_positive : (k : ℕ) → 0 < sent_checksum k
unfolding sent_checksum
sent_checksum_positive k = ground arith

pub checksum_lt : (b : List ℕ) → checksum b < 2 ^ 16
unfolding checksum
checksum_lt b = omega arith

-- The words that the UDP checksum is of, with the checksum in them.
pub datagram_folded :
    (src dst : Addr) (n : ℕ) (payload : List ℕ)
    → All IsByte payload
    → length payload ≤ 65507
    → let k = sent_checksum (udp_checksum src dst (udp_header n 0 ++ payload)) in
      let w = word_sum (pseudo src dst (udp_header n k ++ payload)) in
      (folded 2 w ≡ 0xffff) × (w < 2 ^ 32)
unfolding udp_checksum
datagram_folded src dst n payload bs h =
    let z : List ℕ = pseudo src dst (udp_header n 0 ++ payload) in
    let lt = pseudo_lt src dst n payload bs h in
    let eq = checksum_eq z (omega (arith, lt)) in
    let k : ℕ = sent_checksum (checksum z) in
    let fits : k < 2 ^ 16 = sent_checksum_lt (checksum z) (checksum_lt z) in
    let total : word_sum (pseudo src dst (udp_header n k ++ payload)) ≡ word_sum z + k =
      word_sum-pseudo src dst n k payload fits in
    (
      ap (folded 2) (total ∙ ap (λ k. word_sum z + sent_checksum k) eq)
          ∙ sent_complement (word_sum z) lt,
      omega (arith, total, lt, fits),
    )
