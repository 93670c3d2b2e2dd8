-- ===== src/NdProxy/Examples.antt =====
-- pkg/ndproxy/state.go: one target that is probed, once with an answer and once without.
use minuteman.Base.{◌+◌, ◌*◌, ◌≡◌, refl, arith, All, [], ◌∷◌, some, true, false, ℕ_discrete}
use minuteman.Netip.{v6, Addr-discrete}
use minuteman.NdProxy.Wire.{advertisement, parse_advertisement, is_directed, all_nodes}
use minuteman.NdProxy.Wire.RoundTrip.{parse_advertisement-advertisement}
use minuteman.NdProxy.{State, PendingProbe, lookup, second}
use minuteman.NdProxy.Sweeps.{IsProbed, swept, happen_all, sweep-gives_up}

abbrev probe : PendingProbe
probe = record { attempts = 2; next_probe = 50; solicitor = v6 8 }

abbrev probing : State
probing = record { pending = (v6 5, probe) ∷ []; active = [] }

probing-All : All IsProbed probing.pending
probing-All = omega arith

sweep-gives_up_example :
    (happen_all probing (swept 60 ∷ swept (60 + second) ∷ swept (60 + 2 * second) ∷ [])).pending
    ≡ []
sweep-gives_up_example =
    sweep-gives_up probing 60 (60 + second) (60 + 2 * second) probing-All (omega arith)
      (omega arith) (omega arith)

pending_probe : lookup probing.pending (v6 5) ≡ some probe
unfolding lookup Addr-discrete ℕ_discrete
pending_probe = refl

parse_advertisement-advertisement_example :
    (parse_advertisement (advertisement (v6 5) (v6 8) (1 ∷ 2 ∷ 3 ∷ 4 ∷ 5 ∷ 6 ∷ [])).0 ≡ some (v6 5))
    × ((is_directed (v6 8) ≡ true
          → (advertisement (v6 5) (v6 8) (1 ∷ 2 ∷ 3 ∷ 4 ∷ 5 ∷ 6 ∷ [])).1 ≡ v6 8)
        × (is_directed (v6 8) ≡ false
            → (advertisement (v6 5) (v6 8) (1 ∷ 2 ∷ 3 ∷ 4 ∷ 5 ∷ 6 ∷ [])).1 ≡ all_nodes))
parse_advertisement-advertisement_example =
    parse_advertisement-advertisement 5 (v6 8) (1 ∷ 2 ∷ 3 ∷ 4 ∷ 5 ∷ 6 ∷ []) (omega arith)
