-- ===== src/Dhcpv6/Options.antt =====
-- pkg/dhcpv6/options.go: the options codec. A byte slice is a list of numbers below 256.
pub mod RoundTrip
use minuteman.Base.{
  ℕ, zero, suc, ◌+◌, ◌-◌, ◌*◌, ◌/◌, ◌%◌, ◌^◌, ◌<◌, List, [], ◌∷◌, ◌++◌, length, take, drop, ltb,
  ◌==◌, if◌then◌else◌, Bool, true, false, Option as Maybe, none, some, min, ◌≡◌, refl, ◌⊎◌, inl,
  inr,
}
use minuteman.Base.Bytes.{put_u16, get_u16, get_u32}

pub data Error : Type 0 where
  truncated_header : ℕ → Error
  exceeds_remaining : ℕ → ℕ → ℕ → Error
  too_short : ℕ → Error
  not_multiple : ℕ → Error
  bad_prefix_length : ℕ → Error

-- Go's (value, error) pair. `stuck` is no Go value: a loop ran out of fuel.
pub data Result {ℓ} (A : Type ℓ) : Type ℓ where
  ok : A → Result A
  err : Error → Result A
  stuck : Result A

infixl 5 ◌>>=◌
abbrev pub ◌>>=◌ {ℓ ι} : {A : Type ℓ} {C : Type ι} → Result A → (A → Result C) → Result C
stuck >>= after = stuck
err x >>= after = err x
ok a >>= after = after a

-- Inversion of a successful chain.
pub >>=-eq_ok {ℓ ι} :
    {A : Type ℓ} {C : Type ι} (r : Result A) (after : A → Result C) {c : C}
    → (r >>= after) ≡ ok c
    → (a : A) × (r ≡ ok a) × (after a ≡ ok c)
>>=-eq_ok stuck after e = cc
>>=-eq_ok (err x) after e = cc
>>=-eq_ok (ok a) after e = (a, refl, e)

pub Result-cases {ℓ} :
    {A : Type ℓ} (r : Result A) → ((a : A) × (r ≡ ok a)) ⊎ ((x : Error) × (r ≡ err x)) ⊎ (r ≡ stuck)
Result-cases (ok a) = inl (a, refl)
Result-cases (err x) = inr (inl (x, refl))
Result-cases stuck = inr (inr refl)

-- The source's Option.
pub record DhcpOption : Type 0 where
  pub code : ℕ
  pub payload : List ℕ

abbrev pub Options : Type 0
Options = List DhcpOption

unfoldable pub get : Options → ℕ → Maybe DhcpOption
get [] code = none
get (o ∷ os) code = if o.code == code then some o else get os code

-- One option's bytes: its code, its length in 16 bits, its data.
unfoldable pub marshal_one : DhcpOption → List ℕ
marshal_one o = put_u16 o.code ++ (put_u16 (length o.payload % 2 ^ 16) ++ o.payload)

unfoldable pub marshal : Options → List ℕ
unfolding marshal_one
marshal [] = []
marshal (o ∷ os) = marshal_one o ++ marshal os

-- One round of the loop: the option at the front and what follows it.
unfoldable pub parse_one : List ℕ → Result (DhcpOption × List ℕ)
parse_one (a ∷ b ∷ c ∷ d ∷ rest) =
    let code = get_u16 (a ∷ b ∷ []) in
    let opt_len = get_u16 (c ∷ d ∷ []) in
    if ltb (length rest) opt_len
    then err (exceeds_remaining code opt_len (length rest))
    else ok (record { code = code; payload = take opt_len rest }, drop opt_len rest)
parse_one b = err (truncated_header (length b))

unfoldable pub parse_loop : ℕ → List ℕ → Result Options
parse_loop fuel [] = ok []
parse_loop zero (b ∷ bs) = stuck
parse_loop (suc fuel) (b ∷ bs) = do
  (o, rest) ← parse_one (b ∷ bs)
  os ← parse_loop fuel rest
  ok (o ∷ os)

-- `parseOptions`, and `ParseSubOptions` by another name: each round takes 4 bytes at least.
unfoldable pub parse_options : List ℕ → Result Options
parse_options b = parse_loop (length b) b
