-- ===== src/Base/Bytes.antt =====
-- Big-endian words in byte lists, as encoding/binary reads and writes them.
use minuteman.Base.{
  ℕ, zero, suc, ◌+◌, ◌-◌, ◌*◌, ◌/◌, ◌%◌, ◌^◌, ◌<◌, ◌≡◌, refl, arith, List, [], ◌∷◌, ◌++◌, length,
  All, take, drop, length-append, All-append, ◌∙◌,
}
use native.Mathlib.Nat.{pow-suc}
use Prim.Native.Nat.add

abbrev pub IsByte : ℕ → Type 0
IsByte b = b < 256

abbrev pub IsU16 : ℕ → Type 0
IsU16 v = v < 2 ^ 16

abbrev pub IsU32 : ℕ → Type 0
IsU32 v = v < 2 ^ 32

abbrev pub put_u16 : ℕ → List ℕ
put_u16 v = v / 2 ^ 8 % 256 ∷ v % 256 ∷ []

abbrev pub put_u32 : ℕ → List ℕ
put_u32 v = v / 2 ^ 24 % 256 ∷ v / 2 ^ 16 % 256 ∷ v / 2 ^ 8 % 256 ∷ v % 256 ∷ []

-- A read past the end, where Go panics, is 0: the callers' guards exclude it.
abbrev pub get_u16 : List ℕ → ℕ
get_u16 (a ∷ b ∷ r) = a * 2 ^ 8 + b
get_u16 _ = 0

abbrev pub get_u32 : List ℕ → ℕ
get_u32 (a ∷ b ∷ c ∷ d ∷ r) = a * 2 ^ 24 + b * 2 ^ 16 + c * 2 ^ 8 + d
get_u32 _ = 0

-- `b[i]`.
abbrev pub byte_at : List ℕ → ℕ → ℕ
byte_at [] i = 0
byte_at (b ∷ bs) zero = b
byte_at (b ∷ bs) (suc i) = byte_at bs i

-- The bytes from place `i` up to place `j`.
abbrev pub slice {ℓ} : {A : Type ℓ} → ℕ → ℕ → List A → List A
slice i j xs = take (j - i) (drop i xs)

pub get_u16-put_u16 : (v : ℕ) (r : List ℕ) → IsU16 v → get_u16 (put_u16 v ++ r) ≡ v
get_u16-put_u16 v r h = omega arith

pub get_u32-put_u32 : (v : ℕ) (r : List ℕ) → IsU32 v → get_u32 (put_u32 v ++ r) ≡ v
get_u32-put_u32 v r h = omega arith

pub put_u16-All : (v : ℕ) → All IsByte (put_u16 v)
put_u16-All v = omega arith

pub put_u32-All : (v : ℕ) → All IsByte (put_u32 v)
put_u32-All v = omega arith

-- The last `k` bytes of a number, the highest first, as an address holds them.
pub put_be : ℕ → ℕ → List ℕ
put_be zero v = []
put_be (suc k) v = put_be k (v / 256) ++ v % 256 ∷ []

unfoldable pub get_be_from : ℕ → List ℕ → ℕ
get_be_from acc [] = acc
get_be_from acc (b ∷ bs) = get_be_from (acc * 256 + b) bs

unfoldable pub get_be : List ℕ → ℕ
unfolding get_be_from
get_be bs = get_be_from 0 bs

pub length-put_be : (k v : ℕ) → length (put_be k v) ≡ k
unfolding put_be
length-put_be zero v = refl
length-put_be (suc k) v =
    omega (arith, length-append (put_be k (v / 256)) (v % 256 ∷ []), length-put_be k (v / 256))

get_be_from-append :
    (acc : ℕ) (xs ys : List ℕ) → get_be_from acc (xs ++ ys) ≡ get_be_from (get_be_from acc xs) ys
unfolding get_be_from
get_be_from-append acc [] ys = refl
get_be_from-append acc (x ∷ xs) ys = get_be_from-append (acc * 256 + x) xs ys

pub get_be-put_be : (k v : ℕ) → v < 256 ^ k → get_be (put_be k v) ≡ v
unfolding put_be get_be
get_be-put_be zero v h = omega arith
get_be-put_be (suc k) v h =
    get_be_from-append 0 (put_be k (v / 256)) (v % 256 ∷ [])
    ∙ omega (arith, get_be-put_be k (v / 256) (omega (arith, pow-suc 256 k)))

pub put_be-All : (k v : ℕ) → All IsByte (put_be k v)
unfolding put_be
put_be-All zero v = tt
put_be-All (suc k) v =
    All-append IsByte (put_be k (v / 256)) (v % 256 ∷ []) (put_be-All k (v / 256)) (omega arith)

get_be_from-lt :
    (k m acc : ℕ) (xs : List ℕ)
    → All IsByte xs
    → acc < 256 ^ k
    → length xs + k ≡ m
    → get_be_from acc xs < 256 ^ m
unfolding get_be_from
get_be_from-lt k m acc [] h low e = rw (← e, add.zero k) low
get_be_from-lt k m acc (x ∷ xs) h low e =
    get_be_from-lt (suc k) m (acc * 256 + x) xs h.1 (omega (arith, pow-suc 256 k)) (omega arith)

-- Any bytes are the number of some address.
pub get_be-lt : (xs : List ℕ) → All IsByte xs → get_be xs < 256 ^ length xs
unfolding get_be
get_be-lt xs h = get_be_from-lt 0 (length xs) 0 xs h (omega arith) (omega arith)

pub get_u32-lt : (b : List ℕ) → All IsByte b → get_u32 b < 2 ^ 32
get_u32-lt [] h = omega arith
get_u32-lt (a ∷ []) h = omega arith
get_u32-lt (a ∷ b ∷ []) h = omega arith
get_u32-lt (a ∷ b ∷ c ∷ []) h = omega arith
get_u32-lt (a ∷ b ∷ c ∷ d ∷ r) h = omega arith
