-- ===== src/LanPrefix/Carved.antt =====
-- internal/lanprefix/carve.go: the subnets lie in the delegated prefix, and no two of them meet.
use Prim.Native.Nat.{bit_or}
use native.Mathlib.Nat.{div-add-mod, div-div-eq-div-mul, div-eq_of_lt-le}
use minuteman.Base.{
  ℕ, ◌+◌, ◌-◌, ◌*◌, ◌/◌, ◌%◌, ◌^◌, ◌<◌, ◌≤◌, ◌≡◌, ◌≢◌, sym, ap, ◌∙◌, arith, ltb, ==_iff, true,
  false, Bool-cases, inl, inr,
}
use minuteman.Base.Bits.{bit_and-mask, bit_or-shift, pow-add}
use minuteman.Netip.{Addr, invalid, v4, v6, is_4_in_6, Prefix, contains}
use minuteman.LanPrefix.{ok, subnet_for, network_of, beyond}

-- The carved bits of an index that fits.
network_of_lem :
    (network h index : ℕ)
    → index < 2 ^ h
    → network_of network h index ≡ network / 2 ^ h * 2 ^ h + index
unfolding network_of
network_of_lem network h index fits = rw (bit_and-mask h network) (
    ap (λ t. bit_or t index)
      (let low : network - network % 2 ^ h ≡ network / 2 ^ h * 2 ^ h =
          omega (arith, div-add-mod network (2 ^ h)) in
        low)
    ∙ bit_or-shift h (network / 2 ^ h) index fits)

-- What a successful carving has found of its arguments.
record IsCarved (n bits index : ℕ) (s : Prefix) : Type 0 where
  fits : index < 2 ^ (64 - bits)
  narrow : bits ≤ 64
  subnet_bits : s.bits ≡ 64
  subnet : s.addr ≡ v6 ((n / 2 ^ 64 / 2 ^ (64 - bits) * 2 ^ (64 - bits) + index) * 2 ^ 64)

within_capacity : (h index : ℕ) → h ≤ 64 → index < 2 ^ 63 → beyond h index ≡ false → index < 2 ^ h
unfolding beyond
within_capacity h index le small e = elim (Bool-cases (ltb h 64)) [
  | inl k ↦ ground (arith, k, e)
  | inr k ↦ let whole : h ≡ 64 = ground (arith, k, le) in rw whole (omega (arith, small))
]

ok-injective {ℓ} : {A : Type ℓ} {a b : A} → ok a ≡ ok b → a ≡ b
ok-injective e = cc

carved :
    (n bits index : ℕ) (s : Prefix)
    → index < 2 ^ 63
    → subnet_for (record { addr = v6 n; bits = bits }) index ≡ ok s
    → IsCarved n bits index s
unfolding subnet_for
carved n bits index s small e = elim (Bool-cases (is_4_in_6 (v6 n))) [
  | inl f ↦ absurd (ground (arith, f, e))
  | inr f ↦ elim (Bool-cases (ltb 64 bits)) [
    | inl h ↦ absurd (ground (arith, f, h, e))
    | inr h ↦ elim (Bool-cases (beyond (64 - bits) index)) [
      | inl k ↦ absurd (ground (arith, f, h, k, e))
      | inr k ↦
          let le : bits ≤ 64 = ground (arith, h) in
          let fits = within_capacity (64 - bits) index (omega arith) small k in
          let found = ok-injective (rw (f, h, k) at e) in
          record {
            fits = fits;
            narrow = le;
            subnet_bits = sym (ap (λ (p : Prefix). p.bits) found);
            subnet =
                sym (ap (λ (p : Prefix). p.addr) found)
                ∙ ap (λ t. v6 (t * 2 ^ 64)) (network_of_lem (n / 2 ^ 64) (64 - bits) index fits);
          }
    ]
  ]
]

-- The upper half of any address of the subnet.
upper :
    (n bits index a : ℕ) (s : Prefix)
    → IsCarved n bits index s
    → contains s (v6 a) ≡ true
    → a / 2 ^ 64 ≡ n / 2 ^ 64 / 2 ^ (64 - bits) * 2 ^ (64 - bits) + index
upper n bits index a s c h =
    let x : ℕ = n / 2 ^ 64 / 2 ^ (64 - bits) * 2 ^ (64 - bits) + index in
    omega
      (arith, (==_iff (a / 2 ^ 64) (x * 2 ^ 64 / 2 ^ 64)).0 (simp (c.subnet, c.subnet_bits) at h))

-- A shift by 128 - bits goes through the upper half.
halved : (x bits : ℕ) → bits ≤ 64 → x / 2 ^ (128 - bits) ≡ x / 2 ^ 64 / 2 ^ (64 - bits)
halved x bits le =
    ap (λ t. x / 2 ^ t) (let e : 128 - bits ≡ 64 + (64 - bits) = omega arith in e)
    ∙ ap (λ t. x / t) (pow-add 64 (64 - bits))
    ∙ sym (div-div-eq-div-mul x (2 ^ 64) (2 ^ (64 - bits)))

kept_above : (q d i : ℕ) → i < d → (q * d + i) / d ≡ q
kept_above q d i fits = div-eq_of_lt-le d (omega arith) (omega arith)

-- Every address of a LAN's subnet, of an index that fits an int, is one of the delegated prefix.
pub subnet_for-contains :
    (delegated s : Prefix) (index a : ℕ)
    → index < 2 ^ 63
    → subnet_for delegated index ≡ ok s
    → contains s (v6 a) ≡ true
    → contains delegated (v6 a) ≡ true
subnet_for-contains delegated s index a small e h = parts delegated.addr delegated.bits e
  where
    parts :
        (d : Addr) (bits : ℕ)
        → subnet_for (record { addr = d; bits = bits }) index ≡ ok s
        → contains (record { addr = d; bits = bits }) (v6 a) ≡ true
    parts invalid bits e = unfold subnet_for in cc
    parts (v4 n) bits e = unfold subnet_for in cc
    parts (v6 n) bits e =
        let c = carved n bits index s small e in
        let q : ℕ = n / 2 ^ 64 / 2 ^ (64 - bits) in
        let same : a / 2 ^ 64 / 2 ^ (64 - bits) ≡ q =
          ap (λ t. t / 2 ^ (64 - bits)) (upper n bits index a s c h)
          ∙ kept_above q (2 ^ (64 - bits)) index c.fits in
        (==_iff (a / 2 ^ (128 - bits)) (n / 2 ^ (128 - bits))).1
          (halved a bits c.narrow ∙ same ∙ sym (halved n bits c.narrow))

same_index :
    (delegated s t : Prefix) (i j a : ℕ)
    → i < 2 ^ 63
    → j < 2 ^ 63
    → subnet_for delegated i ≡ ok s
    → subnet_for delegated j ≡ ok t
    → contains s (v6 a) ≡ true
    → contains t (v6 a) ≡ true
    → i ≡ j
same_index delegated s t i j a small small' e f h k = parts delegated.addr delegated.bits e f
  where
    parts :
        (d : Addr) (bits : ℕ)
        → subnet_for (record { addr = d; bits = bits }) i ≡ ok s
        → subnet_for (record { addr = d; bits = bits }) j ≡ ok t
        → i ≡ j
    parts invalid bits e f = unfold subnet_for in cc
    parts (v4 n) bits e f = unfold subnet_for in cc
    parts (v6 n) bits e f = omega (
      arith,
      upper n bits i a s (carved n bits i s small e) h,
      upper n bits j a t (carved n bits j t small' f) k,
    )

-- The subnets of two LANs, of different indices that fit an int, have no address in common.
pub subnet_for-disjoint :
    (delegated s t : Prefix) (i j a : ℕ)
    → i < 2 ^ 63
    → j < 2 ^ 63
    → subnet_for delegated i ≡ ok s
    → subnet_for delegated j ≡ ok t
    → i ≢ j
    → contains s (v6 a) ≡ true
    → contains t (v6 a) ≡ false
subnet_for-disjoint delegated s t i j a small small' e f far h =
    elim (Bool-cases (contains t (v6 a))) [
      | inl k ↦ absurd (far (same_index delegated s t i j a small small' e f h k))
      | inr k ↦ k
    ]
