-- ===== src/TunnelPmtu/Applied.antt =====
-- internal/tunnelpmtu/tunnelpmtu.go: what the ticks apply.
use minuteman.Base.{ℕ, ◌≤◌, ◌≡◌, ◌≢◌, arith, [], ◌∷◌, true, false}
use minuteman.TunnelPmtu.{State, set_tunnel, Outside, effective, apply, report, tick}

-- A tick whose updates take brings both to the effective MTU, which is at most the WAN's, and a tick
-- after it that finds the same reading makes no call and changes nothing.
pub tick-settles :
    (wan_mtu : ℕ) (o : Outside) (st : State)
    → o.fragmenter_fails ≡ false
    → o.tunnel_fails ≡ false
    → ((tick wan_mtu o st).0.frag ≡ effective wan_mtu o.learned)
      × ((tick wan_mtu o st).0.tunnel ≡ effective wan_mtu o.learned)
      × (effective wan_mtu o.learned ≤ wan_mtu)
      × (tick wan_mtu o (tick wan_mtu o st).0 ≡ ((tick wan_mtu o st).0, []))
unfolding tick apply report effective
tick-settles wan_mtu o st a b = ground arith

-- An update of the tunnel that is refused is made again by the next tick with that reading, and
-- does not keep the fragmenter's from taking.
pub tick-retries :
    (wan_mtu : ℕ) (o : Outside) (st : State)
    → o.tunnel_fails ≡ true
    → o.fragmenter_fails ≡ false
    → st.tunnel ≢ effective wan_mtu o.learned
    → ((tick wan_mtu o st).0.frag ≡ effective wan_mtu o.learned)
      × ((tick wan_mtu o (tick wan_mtu o st).0).1 ≡ set_tunnel (effective wan_mtu o.learned) ∷ [])
unfolding tick apply report
tick-retries wan_mtu o st a b far = ground arith
