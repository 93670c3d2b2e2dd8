-- ===== src/Netlink.antt =====
-- pkg/netlink/message.go: netlink messages and their attributes, written and walked. The byte order of
-- the machine is a parameter. The numbers are those of the Linux ABI.
pub mod Build
pub mod Parse
pub mod Socket
pub mod Walks
pub mod Messages
mod Examples
use minuteman.Base.{
  ℕ, zero, suc, ◌+◌, ◌-◌, ◌*◌, ◌/◌, ◌%◌, ◌^◌, List, [], ◌∷◌, ◌++◌, length, take, drop, replicate,
  min, ltb, if◌then◌else◌, Bool, true, false, ◌||◌, Option, none, some,
}

-- NativeEndian.
pub data ByteOrder : Type 0 where
  little big : ByteOrder

-- The byte at a place of a number of `n` bytes.
abbrev byte_of : ByteOrder → ℕ → ℕ → ℕ → ℕ
byte_of little n i v = v / 256 ^ i % 256
byte_of big n i v = v / 256 ^ (n - 1 - i) % 256

unfoldable pub put_u16 : ByteOrder → ℕ → List ℕ
put_u16 o v = byte_of o 2 0 v ∷ byte_of o 2 1 v ∷ []

unfoldable pub put_u32 : ByteOrder → ℕ → List ℕ
put_u32 o v = byte_of o 4 0 v ∷ byte_of o 4 1 v ∷ byte_of o 4 2 v ∷ byte_of o 4 3 v ∷ []

-- A read past the end, where Go panics, is 0: the callers' guards exclude it.
unfoldable pub get_u16 : ByteOrder → List ℕ → ℕ
get_u16 little (a ∷ b ∷ r) = b * 256 + a
get_u16 big (a ∷ b ∷ r) = a * 256 + b
get_u16 o r = 0

unfoldable pub get_u32 : ByteOrder → List ℕ → ℕ
get_u32 little (a ∷ b ∷ c ∷ d ∷ r) = d * 256 ^ 3 + c * 256 ^ 2 + b * 256 + a
get_u32 big (a ∷ b ∷ c ∷ d ∷ r) = a * 256 ^ 3 + b * 256 ^ 2 + c * 256 + d
get_u32 o r = 0

-- `(n + 3) &^ 3`.
abbrev pub nlmsg_align : ℕ → ℕ
nlmsg_align n = (n + 3) / 4 * 4

abbrev pub attr_header : ℕ
attr_header = 4

abbrev pub message_header : ℕ
message_header = 16

abbrev pub padding : ℕ → List ℕ
padding n = replicate (nlmsg_align n - n) 0

pub record RtAttr : Type 0 where
  pub type_code : ℕ
  pub value : List ℕ

pub record RawMsg : Type 0 where
  pub type_code : ℕ
  pub raw : List ℕ

pub data Error : Type 0 where
  trailing : ℕ → Error
  malformed : ℕ → ℕ → Error
  ack_too_short not_an_error wrong_sequence : Error
  errno : ℕ → Error
  syscall_failed : Error

pub data Result {ℓ} (A : Type ℓ) : Type ℓ where
  ok : A → Result A
  err : Error → Result A

module _ (o : ByteOrder) where
  pub encode_rt_attr : ℕ → List ℕ → List ℕ
  encode_rt_attr attr_type payload =
      put_u16 o ((attr_header + length payload) % 2 ^ 16)
      ++ (put_u16 o attr_type ++ (payload ++ padding (attr_header + length payload)))

  -- Already encoded children, one behind the other.
  abbrev pub joined : List (List ℕ) → List ℕ
  joined [] = []
  joined (c ∷ cs) = c ++ joined cs

  pub encode_nested_attr : ℕ → List (List ℕ) → List ℕ
  unfolding encode_rt_attr
  encode_nested_attr attr_type children = encode_rt_attr attr_type (joined children)

  -- One round of the loop over attributes: the attribute at the front, and what follows it, if the
  -- padded attribute ends within the bytes.
  pub next_attr : List ℕ → Option (RtAttr × Option (List ℕ))
  next_attr (a ∷ b ∷ c ∷ d ∷ r) =
      let attr_len = get_u16 o (a ∷ b ∷ []) in
      let next = nlmsg_align attr_len in
      if ltb attr_len attr_header || ltb (attr_header + length r) attr_len
      then none
      else some (
        record { type_code = get_u16 o (c ∷ d ∷ []); value = take (attr_len - attr_header) r },
        if ltb (attr_header + length r) next then none else some (drop (next - attr_header) r),
      )
  next_attr attrs = none

  -- The attributes that the loops go through, in order. A round takes four bytes at least.
  pub attributes_from : ℕ → List ℕ → List RtAttr
  attributes_from zero attrs = []
  attributes_from (suc fuel) attrs = elim (next_attr attrs) [
    | none ↦ []
    | some (a, none) ↦ a ∷ []
    | some (a, some rest) ↦ a ∷ attributes_from fuel rest
  ]

  pub attributes : List ℕ → List RtAttr
  unfolding attributes_from
  attributes attrs = attributes_from (length attrs) attrs

  -- An nlmsghdr, of the kernel's port, before the body.
  pub build_message : ℕ → ℕ → ℕ → List ℕ → List ℕ
  build_message rtm_type flags seq body =
      put_u32 o ((message_header + length body) % 2 ^ 32)
      ++ (put_u16 o rtm_type ++ (put_u16 o flags ++ (put_u32 o seq ++ (0 ∷ 0 ∷ 0 ∷ 0 ∷ body))))

  -- One round of the walk: the message at the front, and the bytes behind its padding.
  pub next_message : List ℕ → Result (RawMsg × List ℕ)
  next_message buf =
      let msg_len = get_u32 o (take 4 buf) in
      if ltb (length buf) message_header
      then err (trailing (length buf))
      else if ltb msg_len message_header || ltb (length buf) msg_len
      then err (malformed msg_len (length buf))
      else ok (
        record { type_code = get_u16 o (take 2 (drop 4 buf)); raw = take msg_len buf },
        drop (min (nlmsg_align msg_len) (length buf)) buf,
      )

  -- An error further on is the whole walk's.
  prepend : RawMsg → Option (Result (List RawMsg)) → Option (Result (List RawMsg))
  prepend m none = none
  prepend m (some (err x)) = some (err x)
  prepend m (some (ok ms)) = some (ok (m ∷ ms))

  pub walk_messages_from : ℕ → List ℕ → Option (Result (List RawMsg))
  unfolding prepend
  walk_messages_from fuel [] = some (ok [])
  walk_messages_from zero (b ∷ bs) = none
  walk_messages_from (suc fuel) (b ∷ bs) = elim (next_message (b ∷ bs)) [
    | err x ↦ some (err x)
    | ok (m, rest) ↦ prepend m (walk_messages_from fuel rest)
  ]

  -- `none` is no Go value: the fuel ran out.
  pub walk_messages : List ℕ → Option (Result (List RawMsg))
  unfolding walk_messages_from
  walk_messages buf = walk_messages_from (length buf) buf
