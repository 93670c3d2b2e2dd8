-- ===== src/Dhcpv4Server/Examples.antt =====
-- internal/dhcpv4server: a client with a lease asks for information.
use minuteman.Base.{
  ℕ, ◌+◌, ◌≡◌, refl, ap, ◌∙◌, arith, List, [], ◌∷◌, ◌++◌, true, none, some, replicate, Option,
  ℕ_discrete,
}
use minuteman.Base.Maps.{Map, insert, delete}
use minuteman.Netip.{v4, Addr-discrete, bytes_key, bytes_discrete}
use minuteman.Dhcpv4.Options.{client_id, get}
use minuteman.Dhcpv4.Pool.{Pool, Lease, ClientId}
use minuteman.Dhcpv4.Pool.Calls.{committed_lease}
use minuteman.Dhcpv4.Pool.Lasting.{good, committed_lease_later}
use minuteman.Dhcpv4.Pool.Examples.{one_lease, one_lease-IsValid, one_lease_lem, anna, hour}
use minuteman.Dhcpv4.Options.{Message as DhcpMessage}
use minuteman.Dhcpv4.Handler.{build_inform_ack}
use minuteman.Dhcpv4.Handler.Examples.{config, inform, inform_answered}
use minuteman.Dhcpv4.Wire.{
  parse, parse_options, parse_loop, next_option, sized, fixed_fields, get_addr_4, cstr,
}
use minuteman.Dhcpv4.Packet.{parse_request, parse_udp_to_bootp, udp_payload, message_of}
use minuteman.Dhcpv4Server.{
  Server, Effect, unchanged, received, expire_due, handle_info, framed, keep, respond, reply,
  change, is_empty, same_lease,
}
use minuteman.Dhcpv4Server.Tables.{Table, IsTable}
use minuteman.Dhcpv4Server.Kept.{Kept, run, run-Kept, request_lem}
use minuteman.Dhcpv4Server.Waits.{sends, handle_info-waits}

abbrev keeping : Server
keeping = record { cfg = config; keeps = true }

-- A table as a map, that is pruned of what has expired.
abbrev maps : Table
maps = record {
  Store = Map ClientId Lease;
  entry = λ s c. s c;
  insert = λ s c l. insert c l s;
  erase = λ s c. delete c s;
  prune = λ s t c. good t (s c);
}

good_again : (t : ℕ) (l : Option Lease) → good t (good t l) ≡ good t l
unfolding good
good_again t none = refl
good_again t (some l) = ground arith

maps-IsTable : IsTable maps
maps-IsTable = record {
  insert_own = λ s c l. ground arith;
  insert_other = λ s c d l far. ground arith;
  erase_own = λ s c. ground arith;
  erase_other = λ s c d far. ground arith;
  prune_good = λ s t c. good_again t (s c);
}

-- The table that the pool would be restored from.
abbrev table : Map ClientId Lease
table = λ c. committed_lease one_lease c 9

table-Kept : Kept keeping maps maps-IsTable 9 one_lease table
unfolding Kept
table-Kept c e = committed_lease_later one_lease c 9 9 (omega arith)

-- An INFORM of anna's, as the socket delivers it.
abbrev packet : List ℕ
packet =
    (0x45 ∷ 0 ∷ 1 ∷ 16 ∷ 0 ∷ 0 ∷ 0 ∷ 0 ∷ 64 ∷ 17 ∷ 0 ∷ 0 ∷ 10 ∷ 0 ∷ 0 ∷ 2 ∷ 10 ∷ 0 ∷ 0 ∷ 1 ∷ [])
    ++ ((0 ∷ 68 ∷ 0 ∷ 67 ∷ 0 ∷ 252 ∷ 0 ∷ 0 ∷ [])
        ++ ((1 ∷ 1 ∷ 1 ∷ 0 ∷ 0 ∷ 0 ∷ 0 ∷ 77 ∷ 0 ∷ 0 ∷ 0 ∷ 0 ∷ 10 ∷ 0 ∷ 0 ∷ 2 ∷ [])
            ++ (replicate 12 0
                ++ ((1 ∷ [])
                    ++ (replicate 207 0 ++ (0x63 ∷ 0x82 ∷ 0x53 ∷ 0x63 ∷ 53 ∷ 1 ∷ 8 ∷ 255 ∷ []))))))

run-Kept_example :
    Kept keeping maps maps-IsTable
      (run keeping maps maps-IsTable 9 one_lease table
        ((1, received packet) ∷ (2, expire_due) ∷ [])).0
      (run keeping maps maps-IsTable 9 one_lease table
        ((1, received packet) ∷ (2, expire_due) ∷ [])).1
      (run keeping maps maps-IsTable 9 one_lease table
        ((1, received packet) ∷ (2, expire_due) ∷ [])).2
run-Kept_example =
    run-Kept keeping maps maps-IsTable 9 one_lease table
      ((1, received packet) ∷ (2, expire_due) ∷ []) refl one_lease-IsValid table-Kept

abbrev annas : Lease
annas = record { ip = v4 167772162; expiry = 8 + hour }

packet_parsed : parse_request packet ≡ some inform
unfolding parse_request parse_udp_to_bootp udp_payload message_of parse parse_options parse_loop
    next_option sized fixed_fields get_addr_4 cstr bytes_discrete ℕ_discrete
packet_parsed = refl

-- The packet changes nothing, and is answered.
packet_lem : handle_info keeping one_lease 9 (received packet) ≡ (
  one_lease,
  respond keeping
      (keep keeping one_lease one_lease anna 9)
      anna
      (framed keeping (some (build_inform_ack config inform))),
)
packet_lem =
    request_lem keeping maps maps-IsTable one_lease 9 packet inform packet_parsed
    ∙ ap
        (λ (o : Option DhcpMessage × Pool). (
          o.1,
          respond keeping (keep keeping one_lease o.1 (client_id inform.options anna) 9)
              (client_id inform.options anna) (framed keeping o.0),
        ))
        (inform_answered one_lease 9)
    ∙ (unfold client_id get in refl)

same_lease_kept : keep keeping one_lease one_lease anna 9 ≡ unchanged
unfolding keep is_empty
same_lease_kept = rw one_lease_lem (unfold change same_lease Addr-discrete ℕ_discrete in refl)

packet_answered : sends (handle_info keeping one_lease 9 (received packet)).1 ≡ true
packet_answered =
    ap (λ (o : Pool × List Effect). sends o.1) packet_lem
    ∙ rw same_lease_kept (unfold respond reply framed sends in refl)

handle_info-waits_example : good 9 (table anna) ≡ some annas
handle_info-waits_example =
    handle_info-waits keeping maps maps-IsTable one_lease table 9 packet anna annas refl
      one_lease-IsValid table-Kept packet_answered (unfold is_empty in refl)
      (ap (λ (o : Pool × List Effect). committed_lease o.0 anna 9) packet_lem ∙ one_lease_lem)
