-- ===== src/Dhcpv6/Options/RoundTrip.antt =====
-- pkg/dhcpv6/options.go: Marshal and parseOptions are inverse to each other.
use minuteman.Base.{
  ℕ, zero, suc, ◌+◌, ◌*◌, ◌^◌, ◌≤◌, ◌≡◌, refl, sym, ap, ◌∙◌, subst, arith, List, [], ◌∷◌, ◌++◌,
  length, All, take-append, drop-append, length-append, ◌≢◌, take-append-drop, inl, inr,
  length-drop, length-take, All-drop, All-append_left, All-append_right,
}
use minuteman.Base.Bytes.{IsByte, IsU16}
use minuteman.Dhcpv6.Options.{
  DhcpOption, Options, ok, stuck, marshal_one, marshal, parse_one, parse_loop, parse_options, ◌>>=◌,
  >>=-eq_ok, Result-cases,
}

-- An option that the wire format can hold.
pub record IsOption (o : DhcpOption) : Type 0 where
  pub code_fits : IsU16 o.code
  pub data_fits : IsU16 (length o.payload)

parse_one-marshal_one :
    (o : DhcpOption) (rest : List ℕ) → IsOption o → parse_one (marshal_one o ++ rest) ≡ ok (o, rest)
unfolding parse_one marshal_one
parse_one-marshal_one o rest v =
    ground
      (arith, take-append o.payload rest, drop-append o.payload rest, length-append o.payload rest)

-- One round of the loop.
parse_loop_step :
    (fuel : ℕ) (b rest : List ℕ) (o : DhcpOption)
    → parse_one b ≡ ok (o, rest)
    → parse_loop (suc fuel) b ≡ (parse_loop fuel rest >>= λ os. ok (o ∷ os))
unfolding parse_loop
parse_loop_step fuel [] rest o e = unfold parse_one in cc
parse_loop_step fuel (b ∷ bs) rest o e = rw e

length-marshal_one : (o : DhcpOption) → length (marshal_one o) ≡ 4 + length o.payload
unfolding marshal_one
length-marshal_one o = omega arith

length-marshal :
    (o : DhcpOption) (os : Options)
    → length (marshal (o ∷ os)) ≡ 4 + length o.payload + length (marshal os)
unfolding marshal
length-marshal o os =
    omega (arith, length-append (marshal_one o) (marshal os), length-marshal_one o)

parse_loop-marshal :
    (os : Options) (fuel : ℕ)
    → All IsOption os
    → length (marshal os) ≤ fuel
    → parse_loop fuel (marshal os) ≡ ok os
parse_loop-marshal [] fuel v h = unfold marshal parse_loop in refl
parse_loop-marshal (o ∷ os) zero v h = absurd (omega (arith, length-marshal o os))
parse_loop-marshal (o ∷ os) (suc fuel) v h =
    parse_loop_step fuel (marshal (o ∷ os)) (marshal os) o
      (unfold marshal in parse_one-marshal_one o (marshal os) v.0)
    ∙ rw (parse_loop-marshal os fuel v.1 (omega (arith, length-marshal o os)))

-- Options whose codes and lengths fit 16 bits are read back as they were written.
pub parse_options-marshal : (os : Options) → All IsOption os → parse_options (marshal os) ≡ ok os
unfolding parse_options
parse_options-marshal os v = parse_loop-marshal os (length (marshal os)) v (omega arith)

-- What the first round takes off the front is what `Marshal` writes for it.
parse_one-eq_ok :
    (b : List ℕ) (o : DhcpOption) (rest : List ℕ)
    → All IsByte b
    → parse_one b ≡ ok (o, rest)
    → (b ≡ marshal_one o ++ rest) × IsOption o × (length rest + 4 ≤ length b) × All IsByte rest
unfolding parse_one marshal_one
parse_one-eq_ok [] o rest bs e = cc
parse_one-eq_ok (b ∷ []) o rest bs e = cc
parse_one-eq_ok (b ∷ b1 ∷ []) o rest bs e = cc
parse_one-eq_ok (b ∷ b1 ∷ b2 ∷ []) o rest bs e = cc
parse_one-eq_ok (b ∷ b1 ∷ b2 ∷ b3 ∷ r) o rest bs e =
    let n = b2 * 2 ^ 8 + b3 in
    ground (
      arith,
      take-append-drop n r,
      length-take n r,
      length-drop n r,
      All-drop IsByte n r bs.1.1.1.1,
    )

parse_loop-eq_ok :
    (fuel : ℕ) (b : List ℕ) (os : Options)
    → All IsByte b
    → parse_loop fuel b ≡ ok os
    → (marshal os ≡ b) × All IsOption os
unfolding parse_loop marshal
parse_loop-eq_ok fuel [] os bs e = ground arith
parse_loop-eq_ok zero (b ∷ r) os bs e = cc
parse_loop-eq_ok (suc fuel) (b ∷ r) os bs e =
    let ((o, rest), first, e') = >>=-eq_ok (parse_one (b ∷ r)) _ e in
    let (later, second, e'') = >>=-eq_ok (parse_loop fuel rest) _ e' in
    let (whole, fits, shorter, bytes) = parse_one-eq_ok (b ∷ r) o rest bs first in
    let (whole', fits') = parse_loop-eq_ok fuel rest later bytes second in
    let same : o ∷ later ≡ os = cc e'' in
    subst (λ (t : Options). (marshal t ≡ b ∷ r) × All IsOption t) same
      (ap (λ t. marshal_one o ++ t) whole' ∙ sym whole, (fits, fits'))

-- What parses as options is what `Marshal` writes for those options, and their codes and lengths
-- fit 16 bits: the encoding is unique.
pub marshal-parse_options :
    (b : List ℕ) (os : Options)
    → All IsByte b
    → parse_options b ≡ ok os
    → (marshal os ≡ b) × All IsOption os
unfolding parse_options
marshal-parse_options b os bs e = parse_loop-eq_ok (length b) b os bs e

parse_one-ne-stuck : (b : List ℕ) → parse_one b ≢ stuck
unfolding parse_one
parse_one-ne-stuck [] e = cc
parse_one-ne-stuck (b ∷ []) e = cc
parse_one-ne-stuck (b ∷ b1 ∷ []) e = cc
parse_one-ne-stuck (b ∷ b1 ∷ b2 ∷ []) e = cc
parse_one-ne-stuck (b ∷ b1 ∷ b2 ∷ b3 ∷ r) e = ground arith

parse_loop-ne-stuck :
    (fuel : ℕ) (b : List ℕ) → All IsByte b → length b ≤ fuel → parse_loop fuel b ≢ stuck
unfolding parse_loop
parse_loop-ne-stuck fuel [] bs h = λ e. cc
parse_loop-ne-stuck zero (b ∷ r) bs h = absurd (omega arith)
parse_loop-ne-stuck (suc fuel) (b ∷ r) bs h = elim (Result-cases (parse_one (b ∷ r))) [
  | inr (inr e) ↦ absurd (parse_one-ne-stuck (b ∷ r) e)
  | inr (inl (x, e)) ↦ rw e (λ k. cc)
  | inl ((o, rest), e) ↦
      let (whole, fits, shorter, bytes) = parse_one-eq_ok (b ∷ r) o rest bs e in
      rw e (λ k. ground (arith, parse_loop-ne-stuck fuel rest bytes (omega arith)))
]

-- The parsing of options ends on every byte string: its fuel is enough.
pub parse_options-ne-stuck : (b : List ℕ) → All IsByte b → parse_options b ≢ stuck
unfolding parse_options
parse_options-ne-stuck b bs = parse_loop-ne-stuck (length b) b bs (omega arith)

marshal-bytes :
    (os : Options) → All IsByte (marshal os) → All (λ (o : DhcpOption). All IsByte o.payload) os
unfolding marshal marshal_one
marshal-bytes [] bs = tt
marshal-bytes (o ∷ os) bs = (
  All-append_left IsByte o.payload (marshal os) bs.1.1.1.1,
  marshal-bytes os (All-append_right IsByte o.payload (marshal os) bs.1.1.1.1),
)

-- The options of a byte string hold bytes.
pub parse_options-bytes :
    (b : List ℕ) (os : Options)
    → All IsByte b
    → parse_options b ≡ ok os
    → All (λ (o : DhcpOption). All IsByte o.payload) os
parse_options-bytes b os bs e = marshal-bytes os (rw (marshal-parse_options b os bs e).0 bs)
