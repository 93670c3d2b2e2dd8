-- ===== src/Dhcpv4/Wire.antt =====
-- pkg/dhcpv4/message.go and options.go: messages as bytes, Marshal and Parse.
pub mod Splits
pub mod Images
pub mod RoundTrip
pub mod Total
mod Examples
use minuteman.Base.{
  ℕ, zero, suc, ◌+◌, ◌-◌, ◌*◌, ◌/◌, ◌%◌, ◌^◌, List, [], ◌∷◌, ◌++◌, length, take, drop, replicate,
  ltb, ◌==◌, not, if◌then◌else◌, min, Bool, true, false, ite,
}
use minuteman.Base.Bytes.{put_u16, put_u32, get_u16, get_u32, byte_at, slice}
use minuteman.Netip.{Addr, v4, v6, invalid, bytes_discrete}
use minuteman.Dhcpv4.Options.{DhcpOption, Options, Message}

abbrev pub opt_pad : ℕ
opt_pad = 0

abbrev pub opt_end : ℕ
opt_end = 255

abbrev pub bootp_fixed_len : ℕ
bootp_fixed_len = 236

abbrev pub min_message_len : ℕ
min_message_len = 300

-- The errors of `Parse` and of the options in it.
pub data Error : Type 0 where
  too_short : ℕ → Error
  bad_magic_cookie : Error
  truncated_header : ℕ → Error
  exceeds_remaining : ℕ → ℕ → Error

-- Go's (value, error) pair. `stuck` is no Go value: a loop ran out of fuel.
pub data Result {ℓ} (A : Type ℓ) : Type ℓ where
  ok : A → Result A
  err : Error → Result A
  stuck : Result A

infixl 5 ◌>>=◌
abbrev pub ◌>>=◌ {ℓ ι} : {A : Type ℓ} {C : Type ι} → Result A → (A → Result C) → Result C
stuck >>= after = stuck
err x >>= after = err x
ok a >>= after = after a

-- An instance of an option holds 255 bytes of its data at most.
pub chunk : ℕ → List ℕ → List ℕ
chunk code payload = code ∷ min (length payload) 255 ∷ take 255 payload

-- The inner loop of `Marshal`: a chunk always, then one for each further 255 bytes.
pub marshal_chunks : ℕ → ℕ → List ℕ → List ℕ
unfolding chunk
marshal_chunks zero code payload = []
marshal_chunks (suc fuel) code payload =
    let rest = marshal_chunks fuel code (drop 255 payload) in
    chunk code payload ++ (if ltb 0 (length (drop 255 payload)) then rest else [])

pub marshal_options : Options → List ℕ
unfolding marshal_chunks
marshal_options [] = []
marshal_options (o ∷ os) =
    marshal_chunks (length o.payload + 1) o.code o.payload ++ marshal_options os

-- What one round of `parseOptions` does.
pub data Round : Type 0 where
  ended : Round
  padded : List ℕ → Round
  found : DhcpOption → List ℕ → Round

unfoldable pub sized : ℕ → List ℕ → Result Round
sized code [] = err (truncated_header code)
sized code (opt_len ∷ rest) =
    if ltb (length rest) opt_len
    then err (exceeds_remaining code opt_len)
    else ok (found (record { code = code; payload = take opt_len rest }) (drop opt_len rest))

unfoldable pub next_option : ℕ → List ℕ → Result Round
unfolding sized
next_option code rest =
    if code == opt_pad
    then ok (padded rest)
    else if code == opt_end
    then ok ended
    else sized code rest

unfoldable pub parse_loop : ℕ → List ℕ → Result Options
unfolding next_option
parse_loop fuel [] = ok []
parse_loop zero (b ∷ bs) = stuck
parse_loop (suc fuel) (b ∷ bs) = elim (next_option b bs) [
  | stuck ↦ stuck
  | err x ↦ err x
  | ok ended ↦ ok []
  | ok (padded rest) ↦ parse_loop fuel rest
  | ok (found o rest) ↦ parse_loop fuel rest >>= (λ os. ok (o ∷ os))
]

-- Each round takes a byte at least.
unfoldable pub parse_options : List ℕ → Result Options
unfolding parse_loop
parse_options b = parse_loop (length b) b

-- `copy` into a field of zeros.
pub field : ℕ → List ℕ → List ℕ
field width xs = take width xs ++ replicate (width - length xs) 0

pub put_addr_4 : Addr → List ℕ
put_addr_4 (v4 a) = put_u32 a
put_addr_4 (v6 a) = 0 ∷ 0 ∷ 0 ∷ 0 ∷ []
put_addr_4 invalid = 0 ∷ 0 ∷ 0 ∷ 0 ∷ []

unfoldable pub get_addr_4 : List ℕ → Addr
get_addr_4 b = v4 (get_u32 b)

-- Up to the first NUL.
unfoldable pub cstr : List ℕ → List ℕ
cstr [] = []
cstr (c ∷ b) = let rest = cstr b in if c == 0 then [] else c ∷ rest

abbrev pub magic_cookie : List ℕ
magic_cookie = 0x63 ∷ 0x82 ∷ 0x53 ∷ 0x63 ∷ []

-- Without the padding.
pub marshal_unpadded : Message → List ℕ
unfolding field put_addr_4 marshal_options
marshal_unpadded m =
    (m.op ∷ m.htype ∷ m.hlen ∷ m.hops ∷ [])
    ++ (put_u32 m.xid
        ++ (put_u16 m.secs
            ++ (put_u16 m.flags
                ++ (put_addr_4 m.ciaddr
                    ++ (put_addr_4 m.yiaddr
                        ++ (put_addr_4 m.siaddr
                            ++ (put_addr_4 m.giaddr
                                ++ (field 16 m.chaddr
                                    ++ (field 64 m.sname
                                        ++ (field 128 m.file
                                            ++ (magic_cookie
                                                ++ (marshal_options m.options
                                                    ++ opt_end ∷ []))))))))))))

-- `Marshal`.
pub marshal : Message → List ℕ
unfolding marshal_unpadded
marshal m = let b = marshal_unpadded m in b ++ replicate (min_message_len - length b) opt_pad

abbrev pub is_cookie : List ℕ → Bool
is_cookie b =
    ite (bytes_discrete (slice bootp_fixed_len (bootp_fixed_len + 4) b) magic_cookie) true false

-- The fields before the options, which are given.
unfoldable pub fixed_fields : List ℕ → Options → Message
unfolding get_addr_4 cstr
fixed_fields b os = record {
  op = byte_at b 0;
  htype = byte_at b 1;
  hlen = byte_at b 2;
  hops = byte_at b 3;
  xid = get_u32 (drop 4 b);
  secs = get_u16 (drop 8 b);
  flags = get_u16 (drop 10 b);
  ciaddr = get_addr_4 (drop 12 b);
  yiaddr = get_addr_4 (drop 16 b);
  siaddr = get_addr_4 (drop 20 b);
  giaddr = get_addr_4 (drop 24 b);
  chaddr = slice 28 (28 + min (byte_at b 2) 16) b;
  sname = cstr (slice 44 108 b);
  file = cstr (slice 108 236 b);
  options = os;
}

-- `Parse`.
unfoldable pub parse : List ℕ → Result Message
unfolding parse_options fixed_fields
parse b =
    if ltb (length b) (bootp_fixed_len + 4)
    then err (too_short (length b))
    else if not (is_cookie b)
    then err bad_magic_cookie
    else parse_options (drop (bootp_fixed_len + 4) b) >>= (λ os. ok (fixed_fields b os))
