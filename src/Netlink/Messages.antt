-- ===== src/Netlink/Messages.antt =====
-- pkg/netlink/message.go: the walk over messages reads what is built, and ends.
use minuteman.Base.{
  ℕ, zero, suc, ◌+◌, ◌%◌, ◌^◌, ◌≤◌, ◌<◌, ◌≡◌, refl, sym, ap, ◌∙◌, subst, arith, List, [], ◌∷◌, ◌++◌,
  length, take, drop, length-append, take-append, drop-append, append-nil, All, min, Option, none,
  some, map, length-take, length-drop, inl, inr, ◌⊎◌,
}
use minuteman.Netlink.{
  ByteOrder, put_u16, put_u32, get_u16, get_u32, nlmsg_align, message_header, RawMsg, Result, ok,
  err, build_message, next_message, walk_messages_from, walk_messages, prepend, Error,
}
use minuteman.Netlink.Walks.{get_u16-put_u16, get_u32-put_u32}

Result-cases {ℓ} :
    {A : Type ℓ} (r : Result A) → ((a : A) × (r ≡ ok a)) ⊎ ((x : Error) × (r ≡ err x))
Result-cases (ok a) = inl (a, refl)
Result-cases (err x) = inr (x, refl)

module _ (o : ByteOrder) where
  -- What a netlink message is built of.
  pub record Request : Type 0 where
    pub rtm_type : ℕ
    pub flags : ℕ
    pub seq : ℕ
    pub body : List ℕ

  -- It fits the header's fields, and its body needs no padding.
  pub record IsRequest (r : Request) : Type 0 where
    pub type_fits : r.rtm_type < 2 ^ 16
    pub length_fits : message_header + length r.body < 2 ^ 32
    pub aligned : length r.body % 4 ≡ 0

  unfoldable pub build : Request → List ℕ
  build r = build_message o r.rtm_type r.flags r.seq r.body

  length-build : (r : Request) → length (build r) ≡ message_header + length r.body
  unfolding build build_message put_u16 put_u32
  length-build r = omega arith

  header_read :
      (r : Request) (rest : List ℕ)
      → IsRequest r
      → (get_u32 o (take 4 (build r ++ rest)) ≡ length (build r))
        × (get_u16 o (take 2 (drop 4 (build r ++ rest))) ≡ r.rtm_type)
  unfolding build build_message put_u16 put_u32
  header_read r rest v =
      let n = message_header + length r.body in
      let all : get_u32 o (put_u32 o (n % 2 ^ 32)) ≡ n =
        get_u32-put_u32 o (n % 2 ^ 32) (omega arith) ∙ omega (arith, v.length_fits) in
      (all ∙ omega arith, get_u16-put_u16 o r.rtm_type v.type_fits)

  next_message-build :
      (r : Request) (rest : List ℕ)
      → IsRequest r
      → next_message o (build r ++ rest)
        ≡ ok (record { type_code = r.rtm_type; raw = build r }, rest)
  unfolding next_message
  next_message-build r rest v =
      let (len, kind) = header_read r rest v in
      ground (
        arith,
        v.aligned,
        len,
        kind,
        length-build r,
        length-append (build r) rest,
        take-append (build r) rest,
        drop-append (build r) rest,
      )

  unfoldable pub build_all : List Request → List ℕ
  build_all [] = []
  build_all (r ∷ rs) = build r ++ build_all rs

  unfoldable pub walked : Request → RawMsg
  walked r = record { type_code = r.rtm_type; raw = build r }

  -- One round of the walk.
  walk_step :
      (fuel : ℕ) (buf rest : List ℕ) (m : RawMsg)
      → next_message o buf ≡ ok (m, rest)
      → walk_messages_from o (suc fuel) buf ≡ prepend o m (walk_messages_from o fuel rest)
  unfolding walk_messages_from
  walk_step fuel [] rest m e = unfold next_message in cc
  walk_step fuel (b ∷ bs) rest m e = rw (e, walk_messages_from) refl

  walk_failed :
      (fuel : ℕ) (b : ℕ) (bs : List ℕ) (x : Error)
      → next_message o (b ∷ bs) ≡ err x
      → walk_messages_from o (suc fuel) (b ∷ bs) ≡ some (err x)
  unfolding walk_messages_from
  walk_failed fuel b bs x e = rw (e, walk_messages_from) refl

  walk_messages_from-build_all :
      (rs : List Request) (fuel : ℕ)
      → All IsRequest rs
      → length (build_all rs) ≤ fuel
      → walk_messages_from o fuel (build_all rs) ≡ some (ok (map walked rs))
  unfolding build_all walked
  walk_messages_from-build_all [] fuel v h = unfold walk_messages_from in refl
  walk_messages_from-build_all (r ∷ rs) zero v h =
      absurd (omega (arith, length-append (build r) (build_all rs), length-build r))
  walk_messages_from-build_all (r ∷ rs) (suc fuel) v h =
      let shorter : length (build_all rs) ≤ fuel =
        omega (arith, length-append (build r) (build_all rs), length-build r) in
      walk_step fuel (build r ++ build_all rs) (build_all rs) (walked r)
        (next_message-build r (build_all rs) v.0)
      ∙ rw (walk_messages_from-build_all rs fuel v.1 shorter) (unfold prepend in refl)

  -- Messages that fit their headers and need no padding are split as they were built, one behind the
  -- other.
  pub walk_messages-build_all :
      (rs : List Request)
      → All IsRequest rs
      → walk_messages o (build_all rs) ≡ some (ok (map walked rs))
  unfolding walk_messages
  walk_messages-build_all rs v =
      walk_messages_from-build_all rs (length (build_all rs)) v (omega arith)

  next_message-shorter :
      (buf rest : List ℕ) (m : RawMsg)
      → next_message o buf ≡ ok (m, rest)
      → (length rest < length buf) × (message_header ≤ length m.raw) × (length m.raw ≤ length buf)
  unfolding next_message
  next_message-shorter buf rest m e =
      let n = get_u32 o (take 4 buf) in
      ground (arith, length-drop (min (nlmsg_align n) (length buf)) buf, length-take n buf)

  -- A message with its whole header, so that the slice behind it is within bounds.
  abbrev pub HasHeader : RawMsg → Type 0
  HasHeader m = message_header ≤ length m.raw

  abbrev pub IsSplit : Option (Result (List RawMsg)) → Type 0
  IsSplit none = ⊥
  IsSplit (some (err x)) = Unit {0}
  IsSplit (some (ok ms)) = All HasHeader ms

  prepend-IsSplit :
      (m : RawMsg) (r : Option (Result (List RawMsg)))
      → HasHeader m
      → IsSplit r
      → IsSplit (prepend o m r)
  unfolding prepend
  prepend-IsSplit m none h s = s
  prepend-IsSplit m (some (err x)) h s = tt
  prepend-IsSplit m (some (ok ms)) h s = (h, s)

  walk_messages_from-IsSplit :
      (fuel : ℕ) (buf : List ℕ) → length buf ≤ fuel → IsSplit (walk_messages_from o fuel buf)
  walk_messages_from-IsSplit fuel [] h = unfold walk_messages_from in tt
  walk_messages_from-IsSplit zero (b ∷ bs) h = absurd (omega arith)
  walk_messages_from-IsSplit (suc fuel) (b ∷ bs) h = elim (Result-cases (next_message o (b ∷ bs))) [
    | inl ((m, rest), e) ↦
        let (shorter, whole, within) = next_message-shorter (b ∷ bs) rest m e in
        subst IsSplit (sym (walk_step fuel (b ∷ bs) rest m e))
          (prepend-IsSplit m _ whole (walk_messages_from-IsSplit fuel rest (omega arith)))
    | inr (x, e) ↦ subst IsSplit (sym (walk_failed fuel b bs x e)) tt
  ]

  -- The walk over messages ends on every buffer: in an error, or in messages that each have a whole
  -- header.
  pub walk_messages-IsSplit : (buf : List ℕ) → IsSplit (walk_messages o buf)
  unfolding walk_messages
  walk_messages-IsSplit buf = walk_messages_from-IsSplit (length buf) buf (omega arith)

  -- One message by itself.
  pub alone :
      (r : Request)
      → IsRequest r
      → walk_messages o (build_message o r.rtm_type r.flags r.seq r.body)
        ≡ some (
            ok (
              record {
                type_code = r.rtm_type;
                raw = build_message o r.rtm_type r.flags r.seq r.body;
              }
              ∷ []))
  alone r v =
      ap (walk_messages o) (sym (append-nil (build_message o r.rtm_type r.flags r.seq r.body)))
      ∙ (unfold build_all build walked in walk_messages-build_all (r ∷ []) (v, tt))

  pub drop-build_message :
      (rtm_type flags seq : ℕ) (body : List ℕ)
      → drop message_header (build_message o rtm_type flags seq body) ≡ body
  unfolding build_message put_u16 put_u32
  drop-build_message rtm_type flags seq body = refl
