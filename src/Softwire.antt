-- ===== src/Softwire.antt =====
-- internal/softwirectl: the live softwire and its server. The tunnel, the netlink socket and the
-- counters of the kernel are not code of the program: what they answer is a parameter.
pub mod Server
pub mod Events
pub mod Controller
