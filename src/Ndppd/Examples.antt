-- ===== src/Ndppd/Examples.antt =====
-- Tests of the proxy and its host routes.
use minuteman.Base.{ℕ, refl, List, [], ◌∷◌, ◌++◌, none}
use minuteman.Netip.{Addr, v6, as_16}
use minuteman.NdProxy.Wire.{solicitation, advertisement}
use minuteman.NdProxy.Entries.{iface_of, IsMap}
use minuteman.Ndppd.{Lan, Proxy, Message, received, swept, new_state, HostRoutes}
use minuteman.Ndppd.InStep.{InStep, run, run-InStep}

abbrev lan : Lan
lan = record { name = 7 ∷ []; index = 3; mac = 1 ∷ 2 ∷ 3 ∷ 4 ∷ 5 ∷ 6 ∷ []; sock = 12 }

abbrev proxy : Proxy
proxy = record {
  wan_rx = 10;
  wan_tx = 11;
  wan_index = 2;
  wan_mac = 6 ∷ 5 ∷ 4 ∷ 3 ∷ 2 ∷ 1 ∷ [];
  lans = lan ∷ [];
}

abbrev no_routes : HostRoutes
no_routes = λ t. none

abbrev host : Addr
host = v6 0x20010db8000000000000000000000005

-- A packet from the router that asks for the host.
abbrev question : List ℕ
question =
    (0x60 ∷ 0 ∷ 0 ∷ 0 ∷ 0 ∷ 32 ∷ 58 ∷ 255 ∷ [])
    ++ (as_16 (v6 0xfe800000000000000000000000000001)
        ++ (as_16 (v6 0xff0200000000000000000001ff000005)
            ++ (solicitation host (1 ∷ 1 ∷ 1 ∷ 1 ∷ 1 ∷ 1 ∷ [])).0))

-- The host's answer on the LAN.
abbrev answer : List ℕ
answer = (advertisement host (v6 0xfe800000000000000000000000000009) (2 ∷ 2 ∷ 2 ∷ 2 ∷ 2 ∷ 2 ∷ [])).0

-- The question, the host's answer, and a sweep.
abbrev messages : List (ℕ × Message)
messages = (5, received 10 question) ∷ (6, received 12 answer) ∷ (7, swept) ∷ []

new_state-InStep : InStep new_state no_routes
new_state-InStep = record { entries = unfold IsMap in tt; same = λ t. unfold iface_of in refl }

run-InStep_example :
    InStep (run proxy new_state no_routes messages).0 (run proxy new_state no_routes messages).1
run-InStep_example = run-InStep proxy new_state no_routes messages new_state-InStep
