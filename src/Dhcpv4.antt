-- ===== src/Dhcpv4.antt =====
-- pkg/dhcpv4: the DHCPv4 server of a LAN.
pub mod Pool
pub mod Opt
pub mod Kind
pub mod Options
pub mod Handler
pub mod Wire
pub mod Packet
