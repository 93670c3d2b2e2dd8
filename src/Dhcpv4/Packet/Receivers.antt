-- ===== src/Dhcpv4/Packet/Receivers.antt =====
-- pkg/dhcpv4/packet.go: a frame as RFC 791 and RFC 768 have a receiver read it.
use minuteman.Base.{
  ℕ, ◌+◌, ◌*◌, ◌%◌, ◌^◌, ◌≤◌, ◌<◌, ◌≡◌, refl, sym, ap, subst, arith, List, [], ◌∷◌, ◌++◌, length,
  take, drop, All, Bool, true, false,
}
use minuteman.Base.Bytes.{IsByte, byte_at, slice, get_u16, put_u16}
use minuteman.Netip.{Addr}
use minuteman.Dhcpv4.Options.{as_4}
use minuteman.Dhcpv4.Packet.{
  word_sum, folded, ip_header, udp_header, pseudo, udp_checksum, sent_checksum, build_frame,
}
use minuteman.Dhcpv4.Packet.Checksums.{
  ip_header-folded, datagram_folded, sent_checksum_lt, sent_checksum_positive, checksum_lt,
}

-- What bytes add to the sum of 16-bit words: one at an even place 256 times itself, one at an odd
-- place itself. A byte that has no other to make a word with is the high one of a word.
pub weighed : Bool → List ℕ → ℕ
weighed even [] = 0
weighed true (b ∷ bs) = b * 256 + weighed false bs
weighed false (b ∷ bs) = b + weighed true bs

-- The one's complement sum of the words, that is their sum modulo 2 ^ 16 - 1, is all ones.
abbrev pub SumsToOnes : List ℕ → Type 0
SumsToOnes b = (weighed true b % 0xffff ≡ 0) × (0 < weighed true b)

-- The pseudo-header that a receiver makes of a frame without IP options: the addresses of its IP
-- header, a zero, the protocol of the IP header, and the length of the UDP header.
abbrev pub pseudo_header : List ℕ → List ℕ
pseudo_header f = slice 12 20 f ++ (0 ∷ byte_at f 9 ∷ slice 24 26 f)

-- A frame that a receiver takes for a UDP datagram between the addresses, from port 67 to port 68,
-- with the payload.
pub record IsDatagram (src dst : Addr) (payload f : List ℕ) : Type 0 where
  pub version_and_ihl : byte_at f 0 ≡ 0x45
  pub total_length : get_u16 (drop 2 f) ≡ length f
  pub protocol : byte_at f 9 ≡ 17
  pub addresses : slice 12 20 f ≡ as_4 src ++ as_4 dst
  pub header_sum : SumsToOnes (take 20 f)
  pub source_port : get_u16 (drop 20 f) ≡ 67
  pub destination_port : get_u16 (drop 22 f) ≡ 68
  pub udp_length : get_u16 (drop 24 f) ≡ length (drop 20 f)
  -- Zero would say that there is none.
  pub udp_checksum_given : 0 < get_u16 (drop 26 f)
  pub udp_sum : SumsToOnes (pseudo_header f ++ drop 20 f)
  pub payload_last : drop 28 f ≡ payload

weighed-word_sum : (b : List ℕ) → weighed true b ≡ word_sum b
unfolding weighed word_sum
weighed-word_sum [] = refl
weighed-word_sum (a ∷ []) = omega arith
weighed-word_sum (a ∷ b ∷ r) = omega (arith, weighed-word_sum r)

folded_ones : (s : ℕ) → s < 2 ^ 32 → folded 2 s ≡ 0xffff → (s % 0xffff ≡ 0) × (0 < s)
unfolding folded
folded_ones s h e = ground arith

sums_to_ones : (b : List ℕ) → word_sum b < 2 ^ 32 → folded 2 (word_sum b) ≡ 0xffff → SumsToOnes b
sums_to_ones b h e =
    subst (λ n. (n % 0xffff ≡ 0) × (0 < n))
      (let same : word_sum b ≡ weighed true b = omega (arith, weighed-word_sum b) in same)
      (folded_ones (word_sum b) h e)

module _ (src dst : Addr) (payload : List ℕ) where
  abbrev k : ℕ
  k = sent_checksum (udp_checksum src dst (udp_header (8 + length payload) 0 ++ payload))

  abbrev udp : List ℕ
  udp = udp_header (8 + length payload) k ++ payload

  abbrev f : List ℕ
  f = build_frame src dst payload

  length-udp : length udp ≡ 8 + length payload
  unfolding udp_header
  length-udp = omega arith

  -- The receiver's pseudo-header is what the checksum was made of.
  same_pseudo : pseudo_header f ++ drop 20 f ≡ pseudo src dst udp
  unfolding build_frame ip_header udp_header pseudo
  same_pseudo =
      let e : 8 + length payload ≡ length udp = omega (arith, length-udp) in
      ap (λ n. as_4 src ++ (as_4 dst ++ (0 ∷ 17 ∷ (put_u16 (n % 2 ^ 16) ++ udp)))) e

  udp_sum_lem :
      All IsByte payload → length payload ≤ 65507 → SumsToOnes (pseudo_header f ++ drop 20 f)
  udp_sum_lem bs h =
      let (ones, lt) = datagram_folded src dst (8 + length payload) payload bs h in
      subst SumsToOnes (sym same_pseudo) (sums_to_ones (pseudo src dst udp) lt ones)

  header_sum_lem : SumsToOnes (take 20 f)
  unfolding build_frame ip_header
  header_sum_lem =
      let (ones, lt) = ip_header-folded (20 + (8 + length payload)) src dst in
      unfold ip_header in sums_to_ones _ lt ones

  lengths_lem :
      length payload ≤ 65507
      → (get_u16 (drop 2 f) ≡ length f) × (get_u16 (drop 24 f) ≡ length (drop 20 f))
  unfolding build_frame ip_header udp_header
  lengths_lem h = omega arith

  checksum_given : 0 < get_u16 (drop 26 f)
  unfolding build_frame ip_header udp_header udp_checksum
  checksum_given =
      let sum : ℕ = udp_checksum src dst (udp_header (8 + length payload) 0 ++ payload) in
      let lt : sum < 2 ^ 16 =
        checksum_lt (pseudo src dst (udp_header (8 + length payload) 0 ++ payload)) in
      omega (arith, sent_checksum_positive sum, sent_checksum_lt sum lt)

-- A frame with a payload of bytes that fits a datagram is, to a receiver that reads it by its own
-- fields, a UDP datagram between the two addresses from port 67 to port 68 with that payload. Its
-- lengths are right, and the 16-bit words of its IP header, and of its pseudo-header and datagram with
-- an odd last byte padded, each have a one's complement sum of all ones.
pub build_frame-IsDatagram :
    (src dst : Addr) (payload : List ℕ)
    → All IsByte payload
    → length payload ≤ 65507
    → IsDatagram src dst payload (build_frame src dst payload)
unfolding build_frame ip_header udp_header
build_frame-IsDatagram src dst payload bs h = record {
  version_and_ihl = refl;
  total_length = (lengths_lem src dst payload h).0;
  protocol = refl;
  addresses = refl;
  header_sum = header_sum_lem src dst payload;
  source_port = refl;
  destination_port = refl;
  udp_length = (lengths_lem src dst payload h).1;
  udp_checksum_given = checksum_given src dst payload;
  udp_sum = udp_sum_lem src dst payload bs h;
  payload_last = refl;
}
