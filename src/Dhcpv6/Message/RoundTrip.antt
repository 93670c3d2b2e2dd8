-- ===== src/Dhcpv6/Message/RoundTrip.antt =====
-- pkg/dhcpv6/message.go and exchange.go: messages are read back as they were written, and what is
-- sent and answered.
use minuteman.Base.{
  ℕ, ◌≡◌, refl, ap, subst, arith, List, [], ◌∷◌, ◌++◌, length, true, All, ◌≢◌, none, some, ◌↔◌, ◌⊎◌,
}
use minuteman.Base.Bytes.{IsByte}
use minuteman.Dhcpv6.Options.{Options, ok, marshal, parse_options, >>=-eq_ok}
use minuteman.Dhcpv6.Options.RoundTrip.{IsOption, parse_options-marshal, marshal-parse_options}
use minuteman.Dhcpv6.Message.{
  Message, marshal_binary, parse_message, Exchange, answers, server_id, client_id,
}

pub record IsMessage (m : Message) : Type 0 where
  pub xid_length : length m.xid ≡ 3
  pub items : All IsOption m.options

parse_message-bytes :
    (t : ℕ) (xid : List ℕ) (os : Options)
    → length xid ≡ 3
    → All IsOption os
    → parse_message (t ∷ (xid ++ marshal os))
      ≡ ok (record { type_code = t; xid = xid; options = os })
unfolding parse_message
parse_message-bytes t [] os h v = absurd (omega arith)
parse_message-bytes t (a ∷ []) os h v = absurd (omega arith)
parse_message-bytes t (a ∷ b ∷ []) os h v = absurd (omega arith)
parse_message-bytes t (a ∷ b ∷ c ∷ []) os h v = rw (parse_options-marshal os v)
parse_message-bytes t (a ∷ b ∷ c ∷ d ∷ r) os h v = absurd (omega arith)

-- A message with a transaction ID of 3 bytes and options that fit the wire format is read back as
-- it was written.
pub parse_message-marshal_binary :
    (m : Message) → IsMessage m → parse_message (marshal_binary m) ≡ ok m
unfolding marshal_binary
parse_message-marshal_binary m v =
    parse_message-bytes m.type_code m.xid m.options v.xid_length v.items

-- A byte string that parses as a message is the encoding of that message, which fits the wire
-- format.
pub marshal_binary-parse_message :
    (b : List ℕ) (m : Message)
    → All IsByte b
    → parse_message b ≡ ok m
    → (marshal_binary m ≡ b) × IsMessage m
unfolding parse_message marshal_binary
marshal_binary-parse_message [] m bs e = cc
marshal_binary-parse_message (t ∷ []) m bs e = cc
marshal_binary-parse_message (t ∷ a ∷ []) m bs e = cc
marshal_binary-parse_message (t ∷ a ∷ b ∷ []) m bs e = cc
marshal_binary-parse_message (t ∷ a ∷ b ∷ c ∷ rest) m bs e =
    let (os, first, e') = >>=-eq_ok (parse_options rest) _ e in
    let (whole, fits) = marshal-parse_options rest os bs.1.1.1.1 first in
    let same : record { type_code = t; xid = a ∷ b ∷ c ∷ []; options = os } ≡ m = cc e' in
    subst (λ (n : Message). (marshal_binary n ≡ t ∷ a ∷ b ∷ c ∷ rest) × IsMessage n) same
      (ap (λ r. t ∷ a ∷ b ∷ c ∷ r) whole, record { xid_length = refl; items = fits })

-- A reply ends an exchange exactly if it is of the expected type and transaction, names a server,
-- and names the client that sent the request or none.
pub answers_iff :
    (x : Exchange) (reply : Message) (xid duid : List ℕ)
    → (answers x reply xid duid ≡ true) ↔ (
        (reply.type_code ≡ x.expect)
        × (reply.xid ≡ xid)
        × (server_id reply.options ≢ none)
        × ((client_id reply.options ≡ none) ⊎ (client_id reply.options ≡ some duid)))
unfolding answers
answers_iff x reply xid duid = (λ h. ground arith, λ h. ground arith)
