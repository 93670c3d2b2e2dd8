-- ===== src/Netlink/Examples.antt =====
-- pkg/netlink: an address on interface 3 of a little-endian machine, and a dump that lists it.
use minuteman.Base.{ℕ, ◌≡◌, refl, arith, List, [], ◌∷◌, drop, map, some, none, Option, true}
use minuteman.Netip.{v6}
use minuteman.Netlink.{little, RtAttr, attributes, message_header, walk_messages, ok}
use minuteman.Netlink.Build.{rtm_newaddr, build_addr_message, addr_body}
use minuteman.Netlink.Parse.{IfAddr, parse_if_addr_msg}
use minuteman.Netlink.Parse.RoundTrip.{parse_if_addr_msg-build_addr_message, length-addr_body}
use minuteman.Netlink.Walks.{encode_all, attributes-encode_all}
use minuteman.Netlink.Messages.{
  Request, IsRequest, IsSplit, build_all, walked, walk_messages-build_all, walk_messages-IsSplit,
}
use minuteman.Netlink.Socket.{Kernel, dump_reads}
use minuteman.Netlink.Socket.Dumps.{Dumped, reads, entries_of, dump-entries}

abbrev attrs : List RtAttr
attrs =
    record { type_code = 3; value = 119 ∷ 97 ∷ 110 ∷ 0 ∷ [] }
    ∷ record { type_code = 4; value = 220 ∷ 5 ∷ [] }
    ∷ []

attributes-encode_all_example : attributes little (encode_all little attrs) ≡ attrs
attributes-encode_all_example =
    attributes-encode_all little attrs
      ((omega arith, omega arith), ((omega arith, omega arith), tt))

parse_if_addr_msg-build_addr_message_example :
    (walk_messages little (build_addr_message little rtm_newaddr 0 7 3 (v6 5) 64)
      ≡ some (
          ok (
            record {
              type_code = rtm_newaddr;
              raw = build_addr_message little rtm_newaddr 0 7 3 (v6 5) 64;
            }
            ∷ [])))
    × (parse_if_addr_msg little
          (drop message_header (build_addr_message little rtm_newaddr 0 7 3 (v6 5) 64))
          3
        ≡ some (record { addr = v6 5; bits = some 64 }))
parse_if_addr_msg-build_addr_message_example =
    parse_if_addr_msg-build_addr_message little rtm_newaddr 0 7 3 5 64 (omega arith) (omega arith)
      (omega arith) (omega arith)

abbrev listed : Request little
listed = record { rtm_type = rtm_newaddr; flags = 2; seq = 1; body = addr_body little 3 (v6 5) 64 }

abbrev ended : Request little
ended = record { rtm_type = 3; flags = 2; seq = 1; body = 0 ∷ 0 ∷ 0 ∷ 0 ∷ [] }

listed-IsRequest : IsRequest little listed
listed-IsRequest = record {
  type_fits = omega arith;
  length_fits = omega (arith, length-addr_body little 3 5 64);
  aligned = omega (arith, length-addr_body little 3 5 64);
}

ended-IsRequest : IsRequest little ended
ended-IsRequest = record {
  type_fits = omega arith;
  length_fits = omega arith;
  aligned = omega arith;
}

walk_messages-build_all_example :
    walk_messages little (build_all little (listed ∷ ended ∷ []))
    ≡ some (ok (map (walked little) (listed ∷ ended ∷ [])))
walk_messages-build_all_example =
    walk_messages-build_all little (listed ∷ ended ∷ []) (listed-IsRequest, (ended-IsRequest, tt))

walk_messages-IsSplit_example : IsSplit little (walk_messages little (1 ∷ 2 ∷ 3 ∷ []))
walk_messages-IsSplit_example = walk_messages-IsSplit little (1 ∷ 2 ∷ 3 ∷ [])

-- Its state is the buffers still to come.
abbrev queued : Kernel
queued = record {
  State = List (List ℕ);
  send = λ s b. (true, s);
  recv = λ s. elim s [ [] ↦ (none, []) | b ∷ rest ↦ (some b, rest) ];
}

abbrev reader : List ℕ → Option IfAddr
reader payload = parse_if_addr_msg little payload 3

listed-Dumped :
    Dumped little queued rtm_newaddr reader 1
      (build_all little (listed ∷ ended ∷ []) ∷ [])
      (walked little listed ∷ [])
unfolding walked
listed-Dumped =
    Dumped.last (build_all little (listed ∷ ended ∷ [])) (walked little listed ∷ []) []
      (walked little ended) refl
      (walk_messages-build_all little (listed ∷ ended ∷ [])
        (listed-IsRequest, (ended-IsRequest, tt)))
      ((omega arith, omega arith), tt) refl

dump-entries_example :
    (dump_reads little queued rtm_newaddr reader 1
      (reads little queued rtm_newaddr reader 1 listed-Dumped)
      []
      (build_all little (listed ∷ ended ∷ []) ∷ [])).0
    ≡ some (ok (entries_of little queued rtm_newaddr reader 1 (walked little listed ∷ [])))
dump-entries_example = dump-entries little queued rtm_newaddr reader 1 listed-Dumped
