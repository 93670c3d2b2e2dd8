-- ===== src/Dhcpv4/Wire/Splits/Joined.antt =====
-- pkg/dhcpv4/options.go: the instances of an option join to it.
use minuteman.Base.{
  ℕ, zero, suc, ◌+◌, ◌-◌, ◌≤◌, ◌<◌, ◌≡◌, refl, sym, ap, ◌∙◌, subst, arith, List, [], ◌∷◌, ◌++◌,
  length, All, take, drop, length-take, length-drop, take-append-drop, take-length_le,
  drop-length_le, append_assoc, append-nil, ap₂, All-append, ltb, ◌==◌, if◌then◌else◌, Bool-cases,
  inl, inr, true, false,
}
use minuteman.Dhcpv4.Options.{DhcpOption, Options}
use minuteman.Dhcpv4.Wire.Splits.{split_chunks, split, marshal_chunks_more, marshal_chunks_last}

-- All the data under a code, in order, as RFC 3396 joins the instances of an option.
pub gathered : ℕ → Options → List ℕ
gathered c [] = []
gathered c (o ∷ os) = let rest = gathered c os in if o.code == c then o.payload ++ rest else rest

abbrev pub IsShort : DhcpOption → Type 0
IsShort o = length o.payload ≤ 255

gathered-append : (c : ℕ) (xs ys : Options) → gathered c (xs ++ ys) ≡ gathered c xs ++ gathered c ys
unfolding gathered
gathered-append c [] ys = refl
gathered-append c (x ∷ xs) ys = elim (Bool-cases (x.code == c)) [
  | inl e ↦
      rw (e, gathered-append c xs ys) (sym (append_assoc x.payload (gathered c xs) (gathered c ys)))
  | inr e ↦ rw (e, gathered-append c xs ys) refl
]

abbrev data_under : ℕ → ℕ → List ℕ → List ℕ
data_under c code p = if code == c then p else []

gathered_more :
    (c code : ℕ) (p : List ℕ) (os : Options)
    → gathered c os ≡ data_under c code (drop 255 p)
    → gathered c (record { code = code; payload = take 255 p } ∷ os) ≡ data_under c code p
unfolding gathered
gathered_more c code p os e = elim (Bool-cases (code == c)) [
  | inl f ↦ rw (f, e) (rw f (take-append-drop 255 p))
  | inr f ↦ rw (f, e) (rw f refl)
]

gathered_last :
    (c code : ℕ) (p : List ℕ)
    → length p ≤ 255
    → gathered c (record { code = code; payload = take 255 p } ∷ []) ≡ data_under c code p
unfolding gathered
gathered_last c code p h = elim (Bool-cases (code == c)) [
  | inl f ↦ rw f (append-nil (take 255 p) ∙ take-length_le 255 p h)
  | inr f ↦ rw f refl
]

shrinks : (n d k : ℕ) → d ≡ n - 255 → ltb 0 d ≡ true → n < suc k → d < k
shrinks n d k e l h = ground arith

fits : (n d : ℕ) → d ≡ n - 255 → ltb 0 d ≡ false → n ≤ 255
fits n d e l = ground arith

gathered-split_chunks :
    (c k code : ℕ) (p : List ℕ)
    → length p < k
    → gathered c (split_chunks k code p) ≡ data_under c code p
gathered-split_chunks c zero code p h = absurd (omega arith)
gathered-split_chunks c (suc k) code p h = elim (Bool-cases (ltb 0 (length (drop 255 p)))) [
  | inl e ↦
      ap (gathered c) (marshal_chunks_more k code p e).1
      ∙ gathered_more c code p _
          (gathered-split_chunks c k code (drop 255 p) (shrinks _ _ k (length-drop 255 p) e h))
  | inr e ↦
      ap (gathered c) (marshal_chunks_last k code p e).1
      ∙ gathered_last c code p (fits _ _ (length-drop 255 p) e)
]

gathered_cons :
    (c : ℕ) (o : DhcpOption) (os : Options)
    → data_under c o.code o.payload ++ gathered c os ≡ gathered c (o ∷ os)
unfolding gathered
gathered_cons c o os = elim (Bool-cases (o.code == c)) [ inl e ↦ rw e refl | inr e ↦ rw e refl ]

split_chunks_short :
    (k : ℕ) (o : DhcpOption) → IsShort o → split_chunks (k + 1) o.code o.payload ≡ o ∷ []
split_chunks_short k o h =
    let plus : k + 1 ≡ suc k = omega arith in
    ap (λ n. split_chunks n o.code o.payload) plus
    ∙ (marshal_chunks_last k o.code o.payload (rw (drop-length_le 255 o.payload h) refl)).1
    ∙ ap (λ p. record { code = o.code; payload = p } ∷ []) (take-length_le 255 o.payload h)

-- Splitting keeps the data under every code.
pub gathered-split : (c : ℕ) (os : Options) → gathered c (split os) ≡ gathered c os
unfolding split
gathered-split c [] = refl
gathered-split c (o ∷ os) =
    gathered-append c (split_chunks (length o.payload + 1) o.code o.payload) (split os)
    ∙ ap (λ x. x ++ gathered c (split os))
        (gathered-split_chunks c (length o.payload + 1) o.code o.payload (omega arith))
    ∙ ap (λ x. data_under c o.code o.payload ++ x) (gathered-split c os)
    ∙ gathered_cons c o os

split_chunks-IsShort : (k code : ℕ) (p : List ℕ) → All IsShort (split_chunks k code p)
split_chunks-IsShort zero code p = unfold split_chunks in tt
split_chunks-IsShort (suc k) code p = elim (Bool-cases (ltb 0 (length (drop 255 p)))) [
  | inl e ↦
      subst (All IsShort) (sym (marshal_chunks_more k code p e).1)
        (omega (arith, length-take 255 p), split_chunks-IsShort k code (drop 255 p))
  | inr e ↦
      subst (All IsShort) (sym (marshal_chunks_last k code p e).1)
        (omega (arith, length-take 255 p), tt)
]

pub split-IsShort : (os : Options) → All IsShort (split os)
unfolding split
split-IsShort [] = tt
split-IsShort (o ∷ os) =
    All-append IsShort (split_chunks (length o.payload + 1) o.code o.payload) (split os)
      (split_chunks-IsShort _ o.code o.payload) (split-IsShort os)

-- An option of 255 bytes at most is its one instance.
pub split_short : (os : Options) → All IsShort os → split os ≡ os
unfolding split
split_short [] v = refl
split_short (o ∷ os) v =
    ap₂ (λ (x y : Options). x ++ y) (split_chunks_short (length o.payload) o v.0)
      (split_short os v.1)
