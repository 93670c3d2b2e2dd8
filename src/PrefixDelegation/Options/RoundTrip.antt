-- ===== src/PrefixDelegation/Options/RoundTrip.antt =====
-- pkg/prefixdelegation/options.go: an IA_PD is read back as it was written.
use minuteman.Base.{
  ℕ, ◌*◌, ◌/◌, ◌%◌, ◌^◌, ◌≤◌, ◌<◌, ◌≡◌, refl, ap, ◌∙◌, arith, List, [], ◌∷◌, ◌++◌, length, map, All,
  take-length_le, append_assoc, append-nil, none,
}
use minuteman.Base.Bytes.{put_u32, put_be, get_be-put_be, length-put_be, get_u32-put_u32}
use minuteman.Netip.{as_16, v6}
use minuteman.Dhcpv6.Options.{ok, ◌>>=◌, parse_options}
use minuteman.Dhcpv6.Options.RoundTrip.{IsOption, parse_options-marshal}
use minuteman.PrefixDelegation.{IaPrefix, Iapd, second, infinite_lifetime}
use minuteman.PrefixDelegation.Options.{
  option_ia_prefix, ia_prefix_option, iapd_option, parse_ia_prefix, add_suboption, add_suboptions,
  parse_iapd,
}

-- A lifetime of whole seconds that the wire format can hold.
abbrev pub IsSeconds : ℕ → Type 0
IsSeconds t = (t % second ≡ 0) × (t ≤ infinite_lifetime)

-- An IPv6 prefix with lifetimes of whole seconds.
pub record IsIaPrefix (p : IaPrefix) : Type 0 where
  pub number : ℕ
  pub address : p.prefix.addr ≡ v6 number
  pub address_fits : number < 2 ^ 128
  pub bits_fit : p.prefix.bits ≤ 128
  pub preferred_whole : IsSeconds p.preferred_lifetime
  pub valid_whole : IsSeconds p.valid_lifetime

read_ia_prefix :
    (pref valid bits n : ℕ)
    → pref < 2 ^ 32
    → valid < 2 ^ 32
    → bits ≤ 128
    → n < 2 ^ 128
    → parse_ia_prefix (put_u32 pref ++ (put_u32 valid ++ (bits ∷ put_be 16 n)))
      ≡ ok (record {
        preferred_lifetime = pref * second;
        valid_lifetime = valid * second;
        prefix = record { addr = v6 n; bits = bits };
      })
unfolding parse_ia_prefix
read_ia_prefix pref valid bits n hp hv hb hn =
    ground (arith, length-put_be 16 n, take-length_le 16 (put_be 16 n), get_be-put_be 16 n hn)

-- Seconds and back.
seconds_back :
    (t : ℕ)
    → IsSeconds t
    → (t / second % 2 ^ 32 ≡ t / second) × (t / second * second ≡ t) × (t / second < 2 ^ 32)
seconds_back t (whole, fits) = (omega arith, omega arith, omega arith)

ia_prefix_payload :
    (p : IaPrefix) (v : IsIaPrefix p)
    → (ia_prefix_option p).payload
      ≡ put_u32 (p.preferred_lifetime / second)
        ++ (put_u32 (p.valid_lifetime / second) ++ (p.prefix.bits ∷ put_be 16 v.number))
unfolding ia_prefix_option
ia_prefix_payload p v =
    rw ((seconds_back _ v.preferred_whole).0, (seconds_back _ v.valid_whole).0, address, bits) refl
  where
    address : as_16 p.prefix.addr ≡ put_be 16 v.number
    address = ap as_16 v.address ∙ (unfold as_16 in refl)

    bits : p.prefix.bits % 256 ≡ p.prefix.bits
    bits = omega (arith, v.bits_fit)

ia_prefix_option-IsOption : (p : IaPrefix) → IsIaPrefix p → IsOption (ia_prefix_option p)
ia_prefix_option-IsOption p v = record {
  code_fits = unfold ia_prefix_option in omega arith;
  data_fits = omega (arith, ap length (ia_prefix_payload p v), length-put_be 16 v.number);
}

parse_ia_prefix-option :
    (p : IaPrefix) → IsIaPrefix p → parse_ia_prefix (ia_prefix_option p).payload ≡ ok p
parse_ia_prefix-option p v =
    ap parse_ia_prefix (ia_prefix_payload p v)
    ∙ read_ia_prefix _ _ p.prefix.bits v.number pref.2 valid.2 v.bits_fit v.address_fits
    ∙ ground (arith, pref.1, valid.1, v.address)
  where
    pref :
        (p.preferred_lifetime / second % 2 ^ 32 ≡ p.preferred_lifetime / second)
        × (p.preferred_lifetime / second * second ≡ p.preferred_lifetime)
        × (p.preferred_lifetime / second < 2 ^ 32)
    pref = seconds_back p.preferred_lifetime v.preferred_whole

    valid :
        (p.valid_lifetime / second % 2 ^ 32 ≡ p.valid_lifetime / second)
        × (p.valid_lifetime / second * second ≡ p.valid_lifetime)
        × (p.valid_lifetime / second < 2 ^ 32)
    valid = seconds_back p.valid_lifetime v.valid_whole

ia_prefix_option-code : (p : IaPrefix) → (ia_prefix_option p).code ≡ option_ia_prefix
unfolding ia_prefix_option
ia_prefix_option-code p = refl

add_suboption-prefix :
    (a : Iapd) (p : IaPrefix)
    → IsIaPrefix p
    → add_suboption a (ia_prefix_option p) ≡ ok (record a { prefixes = a.prefixes ++ p ∷ [] })
unfolding add_suboption
add_suboption-prefix a p v = ground (arith, ia_prefix_option-code p, parse_ia_prefix-option p v)

add_suboptions-prefixes :
    (a : Iapd) (ps : List IaPrefix)
    → All IsIaPrefix ps
    → add_suboptions a (map ia_prefix_option ps) ≡ ok (record a { prefixes = a.prefixes ++ ps })
unfolding add_suboptions
add_suboptions-prefixes a [] vs = rw (append-nil a.prefixes)
add_suboptions-prefixes a (p ∷ ps) (v, vs) = rw (add_suboption-prefix a p v) (
    add_suboptions-prefixes (record a { prefixes = a.prefixes ++ p ∷ [] }) ps vs
    ∙ rw (append_assoc a.prefixes (p ∷ []) ps))

All-IsOption : (ps : List IaPrefix) → All IsIaPrefix ps → All IsOption (map ia_prefix_option ps)
All-IsOption [] vs = tt
All-IsOption (p ∷ ps) (v, vs) = (ia_prefix_option-IsOption p v, All-IsOption ps vs)

-- An IA_PD that the client may send: its lists and times are what the wire format can hold.
pub record IsIapd (a : Iapd) : Type 0 where
  pub iaid_length : length a.iaid ≡ 4
  pub t1_whole : IsSeconds a.t1
  pub t2_whole : IsSeconds a.t2
  pub all_prefixes : All IsIaPrefix a.prefixes
  pub no_status : a.status_code ≡ none

read_iapd :
    (code t1 t2 : ℕ) (iaid rest : List ℕ)
    → length iaid ≡ 4
    → t1 < 2 ^ 32
    → t2 < 2 ^ 32
    → parse_iapd (record { code = code; payload = iaid ++ (put_u32 t1 ++ (put_u32 t2 ++ rest)) })
      ≡ (parse_options rest >>= λ subs.
          add_suboptions
            (record {
              iaid = iaid;
              t1 = t1 * second;
              t2 = t2 * second;
              prefixes = [];
              status_code = none;
            })
            subs)
unfolding parse_iapd
read_iapd code t1 t2 [] rest h h1 h2 = absurd (omega arith)
read_iapd code t1 t2 (a ∷ []) rest h h1 h2 = absurd (omega arith)
read_iapd code t1 t2 (a ∷ b ∷ []) rest h h1 h2 = absurd (omega arith)
read_iapd code t1 t2 (a ∷ b ∷ c ∷ []) rest h h1 h2 = absurd (omega arith)
read_iapd code t1 t2 (a ∷ b ∷ c ∷ d ∷ e ∷ r) rest h h1 h2 = absurd (omega arith)
read_iapd code t1 t2 (a ∷ b ∷ c ∷ d ∷ []) rest h h1 h2 =
    ground (arith, get_u32-put_u32 t1 [] h1, get_u32-put_u32 t2 [] h2)

-- An IA_PD of IPv6 prefixes, whole seconds and no status code is read back as it was written.
pub parse_iapd-iapd_option : (a : Iapd) → IsIapd a → parse_iapd (iapd_option a) ≡ ok a
unfolding iapd_option
parse_iapd-iapd_option a v =
    rw ((seconds_back a.t1 v.t1_whole).0, (seconds_back a.t2 v.t2_whole).0)
      (read_iapd _ (a.t1 / second) (a.t2 / second) a.iaid _ v.iaid_length
          (seconds_back a.t1 v.t1_whole).2 (seconds_back a.t2 v.t2_whole).2
        ∙ rw
            (parse_options-marshal (map ia_prefix_option a.prefixes)
              (All-IsOption a.prefixes v.all_prefixes))
            (add_suboptions-prefixes _ a.prefixes v.all_prefixes
              ∙ ground (
                arith,
                (seconds_back a.t1 v.t1_whole).1,
                (seconds_back a.t2 v.t2_whole).1,
                v.no_status,
              )))
