-- ===== src/Dhcpv4/Wire/RoundTrip.antt =====
-- pkg/dhcpv4/message.go: Parse reads what Marshal writes.
use minuteman.Base.{
  ℕ, ◌-◌, ◌^◌, ◌≤◌, ◌<◌, ◌≡◌, sym, ap, ◌∙◌, subst, List, [], ◌∷◌, ◌++◌, length, All, replicate,
  append_assoc,
}
use minuteman.Base.Bytes.{IsU16, IsU32, put_u16, put_u32}
use minuteman.Netip.{v4}
use minuteman.Dhcpv4.Options.{Options, Message}
use minuteman.Dhcpv4.Wire.{
  ok, opt_end, opt_pad, marshal_options, field, put_addr_4, magic_cookie, marshal_unpadded, marshal,
  parse, min_message_len,
}
use minuteman.Dhcpv4.Wire.Splits.{IsOption, split, parse_options-marshal_options}
use minuteman.Dhcpv4.Wire.Splits.Joined.{
  gathered, gathered-split, IsShort, split-IsShort, split_short,
}
use minuteman.Dhcpv4.Wire.Images.{IsText, IsV4, image, fixed_fields-image, parse-image}

-- A message that the wire format can hold, as `Parse` makes them: the fields fit, the hardware
-- address has the length that the message gives, of 16 at most.
pub record IsMessage (m : Message) : Type 0 where
  pub hlen_fits : m.hlen ≤ 16
  pub chaddr_fits : length m.chaddr ≡ m.hlen
  pub xid_fits : IsU32 m.xid
  pub secs_fits : IsU16 m.secs
  pub flags_fits : IsU16 m.flags
  pub ciaddr_fits : IsV4 m.ciaddr
  pub yiaddr_fits : IsV4 m.yiaddr
  pub siaddr_fits : IsV4 m.siaddr
  pub giaddr_fits : IsV4 m.giaddr
  pub sname_fits : IsText 64 m.sname
  pub file_fits : IsText 128 m.file
  pub options_fit : All IsOption m.options

assoc_4 :
    (a b c d e pads : List ℕ)
    → (a ++ (b ++ (c ++ (d ++ e)))) ++ pads ≡ a ++ (b ++ (c ++ (d ++ (e ++ pads))))
assoc_4 a b c d e pads =
    append_assoc a (b ++ (c ++ (d ++ e))) pads
    ∙ ap (λ x. a ++ x)
        (append_assoc b (c ++ (d ++ e)) pads
          ∙ ap (λ x. b ++ x)
              (append_assoc c (d ++ e) pads ∙ ap (λ x. c ++ x) (append_assoc d e pads)))

module _ (op htype hlen hops xid secs flags c y s g : ℕ) (chaddr sname file : List ℕ)
    (os : Options) where
  abbrev whole : Message
  whole = record {
    op = op;
    htype = htype;
    hlen = hlen;
    hops = hops;
    xid = xid;
    secs = secs;
    flags = flags;
    ciaddr = v4 c;
    yiaddr = v4 y;
    siaddr = v4 s;
    giaddr = v4 g;
    chaddr = chaddr;
    sname = sname;
    file = file;
    options = os;
  }

  marshal-image :
      marshal whole
      ≡ image op htype hlen hops xid secs flags c y s g chaddr sname file (
          marshal_options os
          ++ opt_end ∷ replicate (min_message_len - length (marshal_unpadded whole)) opt_pad)
  unfolding marshal marshal_unpadded put_addr_4
  marshal-image =
      ap
        (λ x.
          (op ∷ htype ∷ hlen ∷ hops ∷ [])
          ++ (put_u32 xid
              ++ (put_u16 secs
                  ++ (put_u16 flags
                      ++ (put_u32 c ++ (put_u32 y ++ (put_u32 s ++ (put_u32 g ++ x))))))))
        (assoc_4 (field 16 chaddr) (field 64 sname) (field 128 file) magic_cookie
            (marshal_options os ++ opt_end ∷ []) _
          ∙ ap (λ x. field 16 chaddr ++ (field 64 sname ++ (field 128 file ++ (magic_cookie ++ x))))
              (append_assoc (marshal_options os) (opt_end ∷ []) _))

  parsed_v4 :
      IsU32 xid
      → IsU16 secs
      → IsU16 flags
      → c < 2 ^ 32
      → y < 2 ^ 32
      → s < 2 ^ 32
      → g < 2 ^ 32
      → hlen ≤ 16
      → length chaddr ≡ hlen
      → IsText 64 sname
      → IsText 128 file
      → All IsOption os
      → parse (marshal whole) ≡ ok (record whole { options = split os })
  parsed_v4 hx hs hf hc hy hs' hg hh hl tn tf v =
      ap parse marshal-image
      ∙ parse-image op htype hlen hops xid secs flags c y s g chaddr sname file _ (split os)
          (parse_options-marshal_options os _ v)
      ∙ ap (λ (x : Message). ok x)
          (fixed_fields-image op htype hlen hops xid secs flags c y s g chaddr sname file _
            (split os) hx hs hf hc hy hs' hg hh hl tn tf)

parsed_in_instances :
    (m : Message) → IsMessage m → parse (marshal m) ≡ ok (record m { options = split m.options })
parsed_in_instances m v =
    let (c, ce, hc) = v.ciaddr_fits in
    let (y, ye, hy) = v.yiaddr_fits in
    let (s, se, hs) = v.siaddr_fits in
    let (g, ge, hg) = v.giaddr_fits in
    let same : record m { ciaddr = v4 c; yiaddr = v4 y; siaddr = v4 s; giaddr = v4 g } ≡ m = λ i.
      record m { ciaddr = sym ce i; yiaddr = sym ye i; siaddr = sym se i; giaddr = sym ge i } in
    subst (λ (x : Message). parse (marshal x) ≡ ok (record x { options = split x.options })) same
      (parsed_v4 m.op m.htype m.hlen m.hops m.xid m.secs m.flags c y s g m.chaddr m.sname m.file
        m.options v.xid_fits v.secs_fits v.flags_fits hc hy hs hg v.hlen_fits v.chaddr_fits
        v.sname_fits v.file_fits v.options_fit)

-- A message whose fields fit the header is read back with the same fields. Its options come back in
-- instances of 255 bytes at most that hold, under each code, the same data in the same order; they
-- are the same options when none was longer.
pub parse-marshal :
    (m : Message)
    → IsMessage m
    → (os : Options) × (parse (marshal m) ≡ ok (record m { options = os }))
      × ((c : ℕ) → gathered c os ≡ gathered c m.options)
      × All IsShort os
      × (All IsShort m.options → os ≡ m.options)
parse-marshal m v = (
  split m.options,
  parsed_in_instances m v,
  (λ c. gathered-split c m.options),
  split-IsShort m.options,
  split_short m.options,
)
