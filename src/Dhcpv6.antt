-- ===== src/Dhcpv6.antt =====
-- pkg/dhcpv6: the DHCPv6 client's messages, options and retransmission.
pub mod Options
pub mod Message
pub mod Retransmit
mod Examples
