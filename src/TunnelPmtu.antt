-- ===== src/TunnelPmtu.antt =====
-- internal/tunnelpmtu/tunnelpmtu.go: the watcher of the learned path MTU. What the datapath has
-- learned, and whether the two updates are refused, are arguments of a tick.
pub mod Applied
mod Examples
use minuteman.Base.{
  ℕ, List, [], ◌∷◌, ◌++◌, ltb, ◌==◌, not, ◌&&◌, if◌then◌else◌, Bool, true, false, Option, none,
  some,
}

-- Zero is not known.
pub record State : Type 0 where
  pub frag : ℕ
  pub tunnel : ℕ
  pub reported : ℕ

-- The updates that a tick makes, whether they take or not.
pub data Call : Type 0 where
  set_fragmenter set_tunnel : ℕ → Call

-- What a tick finds: the datapath's TunnelPMTU, and whether each update would be refused.
pub record Outside : Type 0 where
  pub learned : Option ℕ
  pub fragmenter_fails : Bool
  pub tunnel_fails : Bool

pub effective : ℕ → Option ℕ → ℕ
effective wan_mtu none = wan_mtu
effective wan_mtu (some learned) = if ltb learned wan_mtu then learned else wan_mtu

pub init : ℕ → State
init wan_mtu = record { frag = 0; tunnel = 0; reported = wan_mtu }

-- One value and its update: nothing to do, or a call that may be refused.
apply : (ℕ → Call) → Bool → ℕ → ℕ → ℕ × List Call
apply call fails mtu current =
    if mtu == current
    then (current, [])
    else if fails
    then (current, call mtu ∷ [])
    else (mtu, call mtu ∷ [])

report : ℕ → ℕ → ℕ → ℕ
report frag mtu reported = if frag == mtu && not (mtu == reported) then mtu else reported

pub tick : ℕ → Outside → State → State × List Call
tick wan_mtu o st =
    let mtu = effective wan_mtu o.learned in
    let (frag, first) = apply set_fragmenter o.fragmenter_fails mtu st.frag in
    let (tunnel, second) = apply set_tunnel o.tunnel_fails mtu st.tunnel in
    (
      record { frag = frag; tunnel = tunnel; reported = report frag mtu st.reported },
      first ++ second,
    )
