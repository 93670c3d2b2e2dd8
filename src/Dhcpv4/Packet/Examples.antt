-- ===== src/Dhcpv4/Packet/Examples.antt =====
-- pkg/dhcpv4/packet.go: a short frame with an odd payload.
use minuteman.Base.{arith, [], ◌∷◌}
use minuteman.Netip.{v4}
use minuteman.Dhcpv4.Packet.{build_frame}
use minuteman.Dhcpv4.Packet.Receivers.{IsDatagram, build_frame-IsDatagram}

build_frame-IsDatagram_example :
    IsDatagram
      (v4 167772161)
      (v4 167772162)
      (1 ∷ 2 ∷ 3 ∷ [])
      (build_frame (v4 167772161) (v4 167772162) (1 ∷ 2 ∷ 3 ∷ []))
build_frame-IsDatagram_example =
    build_frame-IsDatagram (v4 167772161) (v4 167772162) (1 ∷ 2 ∷ 3 ∷ []) (omega arith)
      (omega arith)
