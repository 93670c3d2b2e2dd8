-- ===== src/Dhcpv4/Wire/Total.antt =====
-- pkg/dhcpv4/message.go and options.go: Parse ends on every byte string.
use minuteman.Base.{
  ℕ, zero, suc, ◌+◌, ◌≤◌, ◌≡◌, ◌≢◌, refl, arith, List, [], ◌∷◌, length, drop, length-drop, ltb,
  ◌==◌, Bool-cases, inl, inr,
}
use minuteman.Dhcpv4.Options.{Options, DhcpOption}
use minuteman.Dhcpv4.Wire.{
  Result, ok, err, stuck, ◌>>=◌, Round, ended, padded, found, sized, next_option, parse_loop,
  parse_options, parse, is_cookie, fixed_fields, Error, bootp_fixed_len, opt_pad, opt_end,
}

-- A round ends the loop, or takes a byte at least.
data Sound (bs : List ℕ) : Result Round → Type 0 where
  failed : (x : Error) → Sound bs (err x)
  finished : Sound bs (ok ended)
  skipped : (rest : List ℕ) → length rest ≤ length bs → Sound bs (ok (padded rest))
  took : (o : DhcpOption) (rest : List ℕ) → length rest ≤ length bs → Sound bs (ok (found o rest))

sized-Sound : (code : ℕ) (bs : List ℕ) → Sound bs (sized code bs)
unfolding sized
sized-Sound code [] = failed _
sized-Sound code (n ∷ rest) = elim (Bool-cases (ltb (length rest) n)) [
  | inl e ↦ rw e (failed _)
  | inr e ↦ rw e (took _ _ (omega (arith, length-drop n rest)))
]

next_option-Sound : (code : ℕ) (bs : List ℕ) → Sound bs (next_option code bs)
unfolding next_option
next_option-Sound code bs = elim (Bool-cases (code == opt_pad)) [
  | inl e ↦ rw e (skipped bs (omega arith))
  | inr e ↦ rw e (elim (Bool-cases (code == opt_end)) [
    | inl f ↦ rw f finished
    | inr f ↦ rw f (sized-Sound code bs)
  ])
]

then-ne-stuck :
    (r : Result Options) (o : DhcpOption) → r ≢ stuck → (r >>= (λ os. ok (o ∷ os))) ≢ stuck
then-ne-stuck (ok os) o h = λ e. cc
then-ne-stuck (err x) o h = λ e. cc
then-ne-stuck stuck o h = λ e. absurd (h refl)

round-ne-stuck :
    (fuel b : ℕ) (bs : List ℕ) (r : Result Round)
    → next_option b bs ≡ r
    → Sound bs r
    → ((rest : List ℕ) → length rest ≤ length bs → parse_loop fuel rest ≢ stuck)
    → parse_loop (suc fuel) (b ∷ bs) ≢ stuck
unfolding parse_loop
round-ne-stuck fuel b bs _ e (failed x) h = rw (e, parse_loop) (λ k. cc)
round-ne-stuck fuel b bs _ e finished h = rw (e, parse_loop) (λ k. cc)
round-ne-stuck fuel b bs _ e (skipped rest n) h = rw (e, parse_loop) (h rest n)
round-ne-stuck fuel b bs _ e (took o rest n) h =
    rw (e, parse_loop) (then-ne-stuck (parse_loop fuel rest) o (h rest n))

parse_loop-ne-stuck : (fuel : ℕ) (b : List ℕ) → length b ≤ fuel → parse_loop fuel b ≢ stuck
parse_loop-ne-stuck fuel [] h = unfold parse_loop in λ e. cc
parse_loop-ne-stuck zero (b ∷ bs) h = absurd (omega arith)
parse_loop-ne-stuck (suc fuel) (b ∷ bs) h =
    round-ne-stuck fuel b bs _ refl (next_option-Sound b bs)
      (λ rest n. parse_loop-ne-stuck fuel rest (omega arith))

fields-ne-stuck :
    (r : Result Options) (b : List ℕ) → r ≢ stuck → (r >>= (λ os. ok (fixed_fields b os))) ≢ stuck
fields-ne-stuck (ok os) b h = λ e. cc
fields-ne-stuck (err x) b h = λ e. cc
fields-ne-stuck stuck b h = λ e. absurd (h refl)

-- `Parse` ends on every byte string, in a message or in an error: the fuel of its loop over options,
-- the number of their bytes, is enough.
pub parse-ne-stuck : (b : List ℕ) → parse b ≢ stuck
unfolding parse parse_options
parse-ne-stuck b = elim (Bool-cases (ltb (length b) (bootp_fixed_len + 4))) [
  | inl e ↦ rw e (λ k. cc)
  | inr e ↦ rw e (elim (Bool-cases (is_cookie b)) [
    | inl f ↦
        rw f
          (fields-ne-stuck _ b (parse_loop-ne-stuck _ (drop (bootp_fixed_len + 4) b) (omega arith)))
    | inr f ↦ rw f (λ k. cc)
  ])
]
