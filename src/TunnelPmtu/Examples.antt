-- ===== src/TunnelPmtu/Examples.antt =====
-- internal/tunnelpmtu/tunnelpmtu.go: a path of 1400 bytes behind a WAN of 1500.
use minuteman.Base.{◌≤◌, ◌≡◌, refl, [], some, true, false}
use minuteman.TunnelPmtu.{Outside, effective, init, tick}
use minuteman.TunnelPmtu.Applied.{tick-settles}

abbrev narrow : Outside
narrow = record { learned = some 1400; fragmenter_fails = false; tunnel_fails = false }

abbrev refusing : Outside
refusing = record { learned = some 1400; fragmenter_fails = false; tunnel_fails = true }

tick-settles_example :
    ((tick 1500 narrow (init 1500)).0.frag ≡ effective 1500 narrow.learned)
    × ((tick 1500 narrow (init 1500)).0.tunnel ≡ effective 1500 narrow.learned)
    × (effective 1500 narrow.learned ≤ 1500)
    × (tick 1500 narrow (tick 1500 narrow (init 1500)).0 ≡ ((tick 1500 narrow (init 1500)).0, []))
tick-settles_example = tick-settles 1500 narrow (init 1500) refl refl
