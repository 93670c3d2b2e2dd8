-- ===== src/Dhcpv4/Wire/Images.antt =====
-- pkg/dhcpv4/message.go: what Parse reads of each field of a marshalled message.
use minuteman.Base.{
  ℕ, zero, suc, ◌+◌, ◌-◌, ◌^◌, ◌≤◌, ◌<◌, ◌≡◌, refl, sym, ap, ◌∙◌, subst, arith, List, [], ◌∷◌, ◌++◌,
  length, All, take, drop, replicate, take-append, drop-append, length-append, length-take,
  length-replicate, take-length_le, append_assoc, ltb, min, true, false, ite, ℕ_discrete,
}
use minuteman.Base.Bytes.{IsU16, IsU32, put_u16, put_u32, slice, get_u32-put_u32, get_u16-put_u16}
use minuteman.Netip.{Addr, v4, bytes_discrete}
use minuteman.Dhcpv4.Options.{Options, Message}
use minuteman.Dhcpv4.Wire.{
  ok, parse_options, field, get_addr_4, cstr, magic_cookie, fixed_fields, parse, is_cookie,
}

-- A string of the header, with no NUL in it.
abbrev pub IsText : ℕ → List ℕ → Type 0
IsText width s = (length s ≤ width) × All (λ c. 0 < c) s

abbrev pub IsV4 : Addr → Type 0
IsV4 a = (n : ℕ) × (a ≡ v4 n) × (n < 2 ^ 32)

length-field : (n : ℕ) (xs : List ℕ) → length (field n xs) ≡ n
unfolding field
length-field n xs = omega (
  arith,
  length-append (take n xs) (replicate (n - length xs) 0),
  length-take n xs,
  length-replicate {A = ℕ} (n - length xs) 0,
)

field_short : (n : ℕ) (xs : List ℕ) → length xs ≤ n → field n xs ≡ xs ++ replicate (n - length xs) 0
unfolding field
field_short n xs h = ap (λ x. x ++ replicate (n - length xs) 0) (take-length_le n xs h)

cstr_zeros : (n : ℕ) → cstr (replicate n 0) ≡ []
unfolding cstr
cstr_zeros zero = refl
cstr_zeros (suc n) = refl

cstr_cons : (c : ℕ) (s : List ℕ) → 0 < c → cstr (c ∷ s) ≡ c ∷ cstr s
unfolding cstr
cstr_cons c s h = ground arith

cstr_ended : (s : List ℕ) (n : ℕ) → All (λ c. 0 < c) s → cstr (s ++ replicate n 0) ≡ s
cstr_ended [] n v = cstr_zeros n
cstr_ended (c ∷ s) n v = cstr_cons c _ v.0 ∙ ap (λ x. c ∷ x) (cstr_ended s n v.1)

-- A text in its field is read back.
cstr-field : (n : ℕ) (s : List ℕ) → IsText n s → cstr (field n s) ≡ s
cstr-field n s v = ap cstr (field_short n s v.0) ∙ cstr_ended s _ v.1

take-field : (n : ℕ) (xs rest : List ℕ) → take n (field n xs ++ rest) ≡ field n xs
take-field n xs rest =
    subst (λ k. take k (field n xs ++ rest) ≡ field n xs) (length-field n xs)
      (take-append (field n xs) rest)

drop-field : (n : ℕ) (xs rest : List ℕ) → drop n (field n xs ++ rest) ≡ rest
drop-field n xs rest =
    subst (λ k. drop k (field n xs ++ rest) ≡ rest) (length-field n xs)
      (drop-append (field n xs) rest)

drop_nil : (n : ℕ) → drop {A = ℕ} n [] ≡ []
drop_nil zero = refl
drop_nil (suc n) = refl

drop_add : (m n : ℕ) (xs : List ℕ) → drop (m + n) xs ≡ drop n (drop m xs)
drop_add zero n xs = let e : 0 + n ≡ n = omega arith in ap (λ k. drop k xs) e
drop_add (suc m) n [] =
    let e : suc m + n ≡ suc (m + n) = omega arith in
    ap (λ k. drop {A = ℕ} k []) e ∙ sym (drop_nil n)
drop_add (suc m) n (x ∷ xs) =
    let e : suc m + n ≡ suc (m + n) = omega arith in ap (λ k. drop k (x ∷ xs)) e ∙ drop_add m n xs

drop-field_add : (n k : ℕ) (xs rest : List ℕ) → drop (n + k) (field n xs ++ rest) ≡ drop k rest
drop-field_add n k xs rest = drop_add n k (field n xs ++ rest) ∙ ap (drop k) (drop-field n xs rest)

cookie_self : ite (bytes_discrete magic_cookie magic_cookie) true false ≡ true
unfolding bytes_discrete ℕ_discrete
cookie_self = refl

long-ltb : (n : ℕ) → 240 ≤ n → ltb n 240 ≡ false
long-ltb n h = ground arith

-- A message's bytes, its four addresses given as numbers, up to what follows the cookie.
module _ (op htype hlen hops xid secs flags c y s g : ℕ) (chaddr sname file tail : List ℕ) where
  abbrev pub after_file : List ℕ
  after_file = magic_cookie ++ tail

  abbrev pub texts : List ℕ
  texts = field 64 sname ++ (field 128 file ++ after_file)

  abbrev pub image : List ℕ
  image =
      (op ∷ htype ∷ hlen ∷ hops ∷ [])
      ++ (put_u32 xid
          ++ (put_u16 secs
              ++ (put_u16 flags
                  ++ (put_u32 c
                      ++ (put_u32 y ++ (put_u32 s ++ (put_u32 g ++ (field 16 chaddr ++ texts))))))))

  image-sname : IsText 64 sname → cstr (slice 44 108 image) ≡ sname
  image-sname v =
      ap (λ x. cstr (take 64 x)) (drop-field 16 chaddr texts)
      ∙ ap cstr (take-field 64 sname (field 128 file ++ after_file))
      ∙ cstr-field 64 sname v

  image_at :
      (k : ℕ)
      → drop (16 + (64 + k)) (field 16 chaddr ++ texts) ≡ drop k (field 128 file ++ after_file)
  image_at k =
      drop-field_add 16 (64 + k) chaddr texts
      ∙ drop-field_add 64 k sname (field 128 file ++ after_file)

  image-file : IsText 128 file → cstr (slice 108 236 image) ≡ file
  image-file v =
      ap (λ x. cstr (take 128 x)) (image_at 0)
      ∙ ap cstr (take-field 128 file after_file)
      ∙ cstr-field 128 file v

  image-chaddr : hlen ≤ 16 → length chaddr ≡ hlen → slice 28 (28 + min hlen 16) image ≡ chaddr
  image-chaddr h e =
      let n : 28 + min hlen 16 - 28 ≡ length chaddr = omega arith in
      ap (λ k. take k (field 16 chaddr ++ texts)) n
      ∙ ap (λ x. take (length chaddr) (x ++ texts)) (field_short 16 chaddr (omega arith))
      ∙ ap (take (length chaddr)) (append_assoc chaddr (replicate (16 - length chaddr) 0) texts)
      ∙ take-append chaddr _

  image_cookie : slice 236 240 image ≡ magic_cookie
  image_cookie = ap (take 4) (image_at 128 ∙ drop-field 128 file after_file)

  image_options : drop 240 image ≡ tail
  image_options = image_at 132 ∙ drop-field_add 128 4 file after_file

  image_long : 240 ≤ length image
  image_long = omega (
    arith,
    length-append (field 16 chaddr) texts,
    length-append (field 64 sname) (field 128 file ++ after_file),
    length-append (field 128 file) after_file,
    length-field 16 chaddr,
    length-field 64 sname,
    length-field 128 file,
  )

  image-is_cookie : is_cookie image ≡ true
  image-is_cookie =
      ap (λ x. ite (bytes_discrete x magic_cookie) true false) image_cookie ∙ cookie_self

  -- The fields as they are read.
  abbrev pub read_back : Options → Message
  read_back os = record {
    op = op;
    htype = htype;
    hlen = hlen;
    hops = hops;
    xid = xid;
    secs = secs;
    flags = flags;
    ciaddr = v4 c;
    yiaddr = v4 y;
    siaddr = v4 s;
    giaddr = v4 g;
    chaddr = chaddr;
    sname = sname;
    file = file;
    options = os;
  }

  pub fixed_fields-image :
      (os : Options)
      → IsU32 xid
      → IsU16 secs
      → IsU16 flags
      → c < 2 ^ 32
      → y < 2 ^ 32
      → s < 2 ^ 32
      → g < 2 ^ 32
      → hlen ≤ 16
      → length chaddr ≡ hlen
      → IsText 64 sname
      → IsText 128 file
      → fixed_fields image os ≡ read_back os
  unfolding fixed_fields get_addr_4
  fixed_fields-image os hx hs hf hc hy hs' hg hh hl tn tf = λ i. record {
    op = op;
    htype = htype;
    hlen = hlen;
    hops = hops;
    xid = get_u32-put_u32 xid (drop 8 image) hx i;
    secs = get_u16-put_u16 secs (drop 10 image) hs i;
    flags = get_u16-put_u16 flags (drop 12 image) hf i;
    ciaddr = v4 (get_u32-put_u32 c (drop 16 image) hc i);
    yiaddr = v4 (get_u32-put_u32 y (drop 20 image) hy i);
    siaddr = v4 (get_u32-put_u32 s (drop 24 image) hs' i);
    giaddr = v4 (get_u32-put_u32 g (drop 28 image) hg i);
    chaddr = image-chaddr hh hl i;
    sname = image-sname tn i;
    file = image-file tf i;
    options = os;
  }

  pub parse-image :
      (os : Options) → parse_options tail ≡ ok os → parse image ≡ ok (fixed_fields image os)
  unfolding parse
  parse-image os e = rw (long-ltb (length image) image_long, image-is_cookie, image_options, e) refl
