-- ===== src/Netlink/Walks.antt =====
-- pkg/netlink/message.go: the walk over attributes reads what the encoder writes, and ends.
use minuteman.Base.{
  ℕ, zero, suc, ◌+◌, ◌-◌, ◌%◌, ◌^◌, ◌≤◌, ◌<◌, ◌≡◌, refl, ap, ◌∙◌, arith, List, [], ◌∷◌, ◌++◌,
  length, length-append, length-replicate, take-append, drop-append, append_assoc, All, none, some,
  length-drop, inl, inr, ◌⊎◌, Option-cases,
}
use minuteman.Netlink.{
  ByteOrder, little, big, put_u16, put_u32, get_u16, get_u32, nlmsg_align, attr_header, padding,
  RtAttr, encode_rt_attr, next_attr, attributes_from, attributes,
}

pub get_u16-put_u16 : (o : ByteOrder) (v : ℕ) → v < 2 ^ 16 → get_u16 o (put_u16 o v) ≡ v
unfolding get_u16 put_u16
get_u16-put_u16 little v h = omega arith
get_u16-put_u16 big v h = omega arith

pub get_u32-put_u32 : (o : ByteOrder) (v : ℕ) → v < 2 ^ 32 → get_u32 o (put_u32 o v) ≡ v
unfolding get_u32 put_u32
get_u32-put_u32 little v h = omega arith
get_u32-put_u32 big v h = omega arith

length-padding : (n : ℕ) → length (padding n) ≡ nlmsg_align n - n
length-padding n = length-replicate (nlmsg_align n - n) 0

module _ (o : ByteOrder) where
  next_attr_lem :
      (a b c d : ℕ) (payload pad rest : List ℕ)
      → get_u16 o (a ∷ b ∷ []) ≡ attr_header + length payload
      → length pad ≡ nlmsg_align (attr_header + length payload) - (attr_header + length payload)
      → next_attr o (a ∷ b ∷ c ∷ d ∷ ((payload ++ pad) ++ rest))
        ≡ some (record { type_code = get_u16 o (c ∷ d ∷ []); value = payload }, some rest)
  unfolding next_attr
  next_attr_lem a b c d payload pad rest e p = ground (
    arith,
    take-append payload (pad ++ rest),
    append_assoc payload pad rest,
    drop-append (payload ++ pad) rest,
    length-append payload pad,
    length-append (payload ++ pad) rest,
  )

  -- What fits the 16-bit fields of an attribute.
  abbrev pub IsAttr : RtAttr → Type 0
  IsAttr a = (a.type_code < 2 ^ 16) × (attr_header + length a.value < 2 ^ 16)

  pub next_attr-encode_rt_attr :
      (a : RtAttr) (rest : List ℕ)
      → IsAttr a
      → next_attr o (encode_rt_attr o a.type_code a.value ++ rest) ≡ some (a, some rest)
  unfolding encode_rt_attr put_u16
  next_attr-encode_rt_attr a rest (h, k) =
      let n = attr_header + length a.value in
      let header : get_u16 o (put_u16 o (n % 2 ^ 16)) ≡ n =
        get_u16-put_u16 o (n % 2 ^ 16) (omega arith) ∙ omega arith in
      next_attr_lem _ _ _ _ a.value (padding n) rest header (length-padding n)
      ∙ rw (get_u16-put_u16 o a.type_code h) refl

  unfoldable pub encode_all : List RtAttr → List ℕ
  encode_all [] = []
  encode_all (a ∷ xs) = encode_rt_attr o a.type_code a.value ++ encode_all xs

  pub length-encode_rt_attr :
      (t : ℕ) (payload : List ℕ)
      → length (encode_rt_attr o t payload) ≡ nlmsg_align (attr_header + length payload)
  unfolding encode_rt_attr put_u16
  length-encode_rt_attr t payload =
      let n = attr_header + length payload in
      omega (arith, length-append payload (padding n), length-padding n)

  attributes_from-encode_all :
      (xs : List RtAttr) (fuel : ℕ)
      → All IsAttr xs
      → length (encode_all xs) ≤ fuel
      → attributes_from o fuel (encode_all xs) ≡ xs
  unfolding attributes_from encode_all
  attributes_from-encode_all [] zero v h = refl
  attributes_from-encode_all [] (suc fuel) v h = unfold next_attr in refl
  attributes_from-encode_all (a ∷ xs) zero v h = absurd (
      omega (
        arith,
        length-append (encode_rt_attr o a.type_code a.value) (encode_all xs),
        length-encode_rt_attr a.type_code a.value,
      ))
  attributes_from-encode_all (a ∷ xs) (suc fuel) v h =
      let shorter : length (encode_all xs) ≤ fuel = omega (
        arith,
        length-append (encode_rt_attr o a.type_code a.value) (encode_all xs),
        length-encode_rt_attr a.type_code a.value,
      ) in
      rw (next_attr-encode_rt_attr a (encode_all xs) v.0, attributes_from)
        (ap (λ t. a ∷ t) (attributes_from-encode_all xs fuel v.1 shorter))

  -- Attributes whose types and lengths fit 16 bits are walked through as they were encoded, one behind
  -- the other.
  pub attributes-encode_all : (xs : List RtAttr) → All IsAttr xs → attributes o (encode_all xs) ≡ xs
  unfolding attributes
  attributes-encode_all xs v =
      attributes_from-encode_all xs (length (encode_all xs)) v (omega arith)

  next_attr-shorter :
      (attrs rest : List ℕ) (a : RtAttr)
      → next_attr o attrs ≡ some (a, some rest)
      → length rest < length attrs
  unfolding next_attr
  next_attr-shorter [] rest a e = cc
  next_attr-shorter (b ∷ []) rest a e = cc
  next_attr-shorter (b ∷ c ∷ []) rest a e = cc
  next_attr-shorter (b ∷ c ∷ d ∷ []) rest a e = cc
  next_attr-shorter (b ∷ c ∷ d ∷ x ∷ r) rest a e =
      ground (arith, length-drop (nlmsg_align (get_u16 o (b ∷ c ∷ [])) - attr_header) r)

  next_attr-cases :
      (attrs : List ℕ)
      → (next_attr o attrs ≡ none)
        ⊎ ((a : RtAttr) × (next_attr o attrs ≡ some (a, none)))
        ⊎ ((a : RtAttr) × (rest : List ℕ) × (next_attr o attrs ≡ some (a, some rest)))
  next_attr-cases attrs = elim (Option-cases (next_attr o attrs)) [
    | inl e ↦ inl e
    | inr ((a, r), e) ↦ elim (Option-cases r) [
      | inl last ↦ inr (inl (a, e ∙ rw last refl))
      | inr (rest, more) ↦ inr (inr (a, rest, e ∙ rw more refl))
    ]
  ]

  -- The walk over attributes ends by itself on every byte string: more rounds than there are bytes
  -- find nothing more.
  pub attributes_from-enough :
      (fuel : ℕ) (attrs : List ℕ)
      → length attrs ≤ fuel
      → attributes_from o (suc fuel) attrs ≡ attributes_from o fuel attrs
  unfolding attributes_from
  attributes_from-enough zero [] h = unfold next_attr in refl
  attributes_from-enough zero (b ∷ bs) h = absurd (omega arith)
  attributes_from-enough (suc fuel) attrs h = elim (next_attr-cases attrs) [
    | inl e ↦ rw (e, attributes_from) refl
    | inr (inl (a, e)) ↦ rw (e, attributes_from) refl
    | inr (inr (a, rest, e)) ↦
        rw (e, attributes_from)
          (ap (λ t. a ∷ t)
            (attributes_from-enough fuel rest (omega (arith, next_attr-shorter attrs rest a e))))
  ]
