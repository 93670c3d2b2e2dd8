-- ===== src/Dhcpv4/Wire/Splits.antt =====
-- pkg/dhcpv4/options.go: a long option is split, and read back in pieces that join to it.
pub mod Joined
use minuteman.Base.{
  ℕ, zero, suc, ◌+◌, ◌-◌, ◌≤◌, ◌<◌, ◌≡◌, ◌≢◌, refl, sym, ap, ◌∙◌, subst, arith, List, [], ◌∷◌, ◌++◌,
  length, All, take, drop, take-append, drop-append, length-append, length-take, length-drop,
  take-append-drop, take-length_le, drop-length_le, append_assoc, append-nil, ap₂, All-append, ltb,
  ◌==◌, if◌then◌else◌, Bool-cases, inl, inr, true, false, min, Bool,
}
use minuteman.Dhcpv4.Options.{DhcpOption, Options}
use minuteman.Dhcpv4.Wire.{
  ok, err, stuck, ◌>>=◌, opt_end, chunk, marshal_chunks, marshal_options, Result, Round, found,
  padded, ended, sized, next_option, parse_loop, parse_options,
}

-- A code that is neither PAD nor END.
pub record IsOption (o : DhcpOption) : Type 0 where
  pub not_pad : 0 < o.code
  pub not_end : o.code < 255

-- The instances that an option is written as, of 255 bytes at most.
pub split_chunks : ℕ → ℕ → List ℕ → Options
split_chunks zero code payload = []
split_chunks (suc fuel) code payload =
    let rest = split_chunks fuel code (drop 255 payload) in
    record { code = code; payload = take 255 payload }
    ∷ (if ltb 0 (length (drop 255 payload)) then rest else [])

pub split : Options → Options
unfolding split_chunks
split [] = []
split (o ∷ os) = split_chunks (length o.payload + 1) o.code o.payload ++ split os

next_option-chunk :
    (code : ℕ) (p r : List ℕ)
    → 0 < code
    → code < 255
    → next_option code (min (length p) 255 ∷ (take 255 p ++ r))
      ≡ ok (found (record { code = code; payload = take 255 p }) r)
unfolding next_option sized
next_option-chunk code p r lo hi =
    let l : length (take 255 p) ≡ min (length p) 255 = omega (arith, length-take 255 p) in
    let t : take (min (length p) 255) (take 255 p ++ r) ≡ take 255 p =
      subst (λ n. take n (take 255 p ++ r) ≡ take 255 p) l (take-append (take 255 p) r) in
    let d : drop (min (length p) 255) (take 255 p ++ r) ≡ r =
      subst (λ n. drop n (take 255 p ++ r) ≡ r) l (drop-append (take 255 p) r) in
    ground (arith, l, t, d, length-append (take 255 p) r)

parse_loop_found :
    (fuel b : ℕ) (bs rest : List ℕ) (o : DhcpOption)
    → next_option b bs ≡ ok (found o rest)
    → parse_loop (suc fuel) (b ∷ bs) ≡ (parse_loop fuel rest >>= (λ os. ok (o ∷ os)))
unfolding parse_loop
parse_loop_found fuel b bs rest o e = rw (e, parse_loop) refl

-- One round of the loop at an instance.
parse_loop-chunk :
    (fuel code : ℕ) (p r : List ℕ)
    → 0 < code
    → code < 255
    → parse_loop (suc fuel) (chunk code p ++ r)
      ≡ (parse_loop fuel r >>= (λ os. ok (record { code = code; payload = take 255 p } ∷ os)))
unfolding chunk
parse_loop-chunk fuel code p r lo hi =
    parse_loop_found fuel code _ r _ (next_option-chunk code p r lo hi)

-- Bytes that any fuel of their length reads as `os`.
abbrev Reads : List ℕ → Options → Type 0
Reads r os = (fuel : ℕ) → length r ≤ fuel → parse_loop fuel r ≡ ok os

chunk-Reads :
    (code : ℕ) (p r : List ℕ) (os : Options)
    → 0 < code
    → code < 255
    → Reads r os
    → Reads (chunk code p ++ r) (record { code = code; payload = take 255 p } ∷ os)
chunk-Reads code p r os lo hi h zero n = absurd (unfold chunk in omega arith)
chunk-Reads code p r os lo hi h (suc fuel) n =
    parse_loop-chunk fuel code p r lo hi
    ∙ rw (h fuel (unfold chunk in omega (arith, length-append (take 255 p) r))) refl

Reads-cong : (r r' : List ℕ) (os os' : Options) → r ≡ r' → os ≡ os' → Reads r os → Reads r' os'
Reads-cong r r' os os' e f h = subst (λ x. Reads x os') e (subst (λ x. Reads r x) f h)

-- Whether data is left is asked the same way of both.
pub marshal_chunks_more :
    (k code : ℕ) (p : List ℕ)
    → ltb 0 (length (drop 255 p)) ≡ true
    → (marshal_chunks (suc k) code p ≡ chunk code p ++ marshal_chunks k code (drop 255 p))
      × (split_chunks (suc k) code p
          ≡ record { code = code; payload = take 255 p } ∷ split_chunks k code (drop 255 p))
unfolding marshal_chunks split_chunks
marshal_chunks_more k code p e = (rw e refl, rw e refl)

pub marshal_chunks_last :
    (k code : ℕ) (p : List ℕ)
    → ltb 0 (length (drop 255 p)) ≡ false
    → (marshal_chunks (suc k) code p ≡ chunk code p ++ [])
      × (split_chunks (suc k) code p ≡ record { code = code; payload = take 255 p } ∷ [])
unfolding marshal_chunks split_chunks
marshal_chunks_last k code p e = (rw e refl, rw e refl)

marshal_chunks-Reads :
    (k code : ℕ) (p r : List ℕ) (os : Options)
    → 0 < code
    → code < 255
    → Reads r os
    → Reads (marshal_chunks k code p ++ r) (split_chunks k code p ++ os)
marshal_chunks-Reads zero code p r os lo hi h = unfold marshal_chunks split_chunks in h
marshal_chunks-Reads (suc k) code p r os lo hi h = elim (Bool-cases (ltb 0 (length (drop 255 p)))) [
  | inl e ↦
      let (m, s) = marshal_chunks_more k code p e in
      Reads-cong _ _ _ _
        (sym
          (ap (λ x. x ++ r) m ∙ append_assoc (chunk code p) (marshal_chunks k code (drop 255 p)) r))
        (sym (ap (λ x. x ++ os) s))
        (chunk-Reads code p _ _ lo hi (marshal_chunks-Reads k code (drop 255 p) r os lo hi h))
  | inr e ↦
      let (m, s) = marshal_chunks_last k code p e in
      Reads-cong _ _ _ _ (sym (ap (λ x. x ++ r) m ∙ append_assoc (chunk code p) [] r))
        (sym (ap (λ x. x ++ os) s)) (chunk-Reads code p r os lo hi h)
]

marshal_options_cons :
    (o : DhcpOption) (os : Options) (r : List ℕ)
    → marshal_options (o ∷ os) ++ r
      ≡ marshal_chunks (length o.payload + 1) o.code o.payload ++ (marshal_options os ++ r)
unfolding marshal_options
marshal_options_cons o os r =
    append_assoc (marshal_chunks (length o.payload + 1) o.code o.payload) (marshal_options os) r

split_cons :
    (o : DhcpOption) (os os' : Options)
    → split (o ∷ os) ++ os'
      ≡ split_chunks (length o.payload + 1) o.code o.payload ++ (split os ++ os')
unfolding split
split_cons o os os' =
    append_assoc (split_chunks (length o.payload + 1) o.code o.payload) (split os) os'

marshal_options-Reads :
    (os os' : Options) (r : List ℕ)
    → All IsOption os
    → Reads r os'
    → Reads (marshal_options os ++ r) (split os ++ os')
marshal_options-Reads [] os' r v h = unfold marshal_options split in h
marshal_options-Reads (o ∷ os) os' r v h =
    let n = length o.payload + 1 in
    Reads-cong _ _ _ _ (sym (marshal_options_cons o os r)) (sym (split_cons o os os')) (
      marshal_chunks-Reads n o.code o.payload _ _ v.0.not_pad v.0.not_end
        (marshal_options-Reads os os' r v.1 h))

end-Reads : (r : List ℕ) → Reads (opt_end ∷ r) []
unfolding parse_loop next_option
end-Reads r zero n = absurd (omega arith)
end-Reads r (suc fuel) n = refl

-- Options with any data, and what stands behind an END, are read back as their instances.
pub parse_options-marshal_options :
    (os : Options) (r : List ℕ)
    → All IsOption os
    → parse_options (marshal_options os ++ opt_end ∷ r) ≡ ok (split os)
unfolding parse_options
parse_options-marshal_options os r v =
    marshal_options-Reads os [] (opt_end ∷ r) v (end-Reads r) _ (omega arith)
    ∙ ap (λ (x : Options). ok x) (append-nil (split os))
