-- ===== src/Lib.antt =====
-- minuteman, the userspace side of a DS-Lite B4 router, in Go: what its parts promise, and why they
-- keep it.
--
-- The parts. On the LAN a DHCPv4 server hands out private addresses from a pool. On the WAN a DHCPv6
-- client asks for a delegated prefix and for the AFTR, the far end of the IPv4-in-IPv6 softwire. The
-- packets themselves are forwarded by BPF programs; userspace writes their maps: which endpoints new
-- flows take, and how a migration moves the softwire from one AFTR to another without breaking the
-- flows that it carries. A softwire server makes these operations for a controller.
--
-- Files and code:
--   Netip             net/netip, as far as the program uses it: addresses as numbers, prefixes
--   Dhcpv4/Pool       pkg/dhcpv4/lease.go: Pool as a record of three maps; Calls has the methods
--   Dhcpv4/Options    pkg/dhcpv4/options.go and the Message of message.go, decoded; Opt and Kind are
--                     their codes
--   Dhcpv4/Wire       pkg/dhcpv4/message.go and options.go: Marshal and Parse on bytes
--   Dhcpv4/Handler    pkg/dhcpv4/handler.go: Handle as a function to the reply and the new pool
--   Dhcpv4/Packet     pkg/dhcpv4/packet.go: requests and replies as IPv4 packets
--   Dhcpv4Server      internal/dhcpv4server/server.go: the server of an interface as a step function;
--                     Tables is the table of leases that its effects write
--   Dhcpv6/Options    pkg/dhcpv6/options.go: Marshal and parseOptions on bytes
--   Dhcpv6/Message    pkg/dhcpv6/message.go, exchange.go and the option readers of options.go
--   Dhcpv6/Retransmit pkg/dhcpv6/retransmit.go and client.go: the timeouts, and each kind of exchange
--   Dhcpv6Client      internal/dhcpv6client/machine.go: the client as a step function on events
--   PrefixDelegation  pkg/prefixdelegation: Options (options.go), Timers (timers.go), Lease
--                     (acquire.go, lease.go and renew.go); Exchanges has the exchanges that get one
--   PdLease           internal/pdlease/lease.go: the renewal ladder as a step function; Ladder is the
--                     step relation with its timer and its exchange, Leases runs it on Exchanges
--   Datapath          pkg/datapath/config.go, migration.go and clearTunnelPMTU of pmtu.go: the Loader
--                     as its BPF maps; Flows has GCFlowAffinity
--   Softwire/Server   internal/softwirectl/softwire.go: Softwire.handle on that Loader
--   Softwire/Events   internal/softwirectl/controller.go: the phases, the data, the events and effects
--   Softwire/Controller  the same file: HandleEvent as a step function
--   NdProxy           pkg/ndproxy/state.go: the probes and the confirmed targets; Wire has message.go,
--                     packet.go and wire.go, on bytes
--   Ndppd             internal/ndppd/proxy.go and routes.go: the proxy's process, whose casts keep the
--                     host routes (internal/wanextend/hostroutes.go)
--   Netlink           pkg/netlink/message.go: attributes and messages; Build and Parse have each kind;
--                     Socket has socket.go, on a kernel that answers as it likes
--   LanPrefix         internal/lanprefix/carve.go: a /64 for each LAN
--   TunnelPmtu        internal/tunnelpmtu/tunnelpmtu.go: the learned path MTU applied
--   Base              lists, tests and maps; Bits and Bytes for masks and big-endian words
-- The other modules below these hold proofs and are named for what they prove; each Examples module
-- holds tests.
--
-- Conventions. Instants and durations are natural numbers of nanoseconds, and a sum of an instant and
-- a duration does not overflow; a refresh interval below zero counts as 0. Bytes are numbers below
-- 256; IsByte, IsU16 and IsU32 bound them. An IPv4 address is a number below 2 ^ 32, an IPv6 address
-- one below 2 ^ 128; zones are left out. A Go map is a function into Option, or a table where the code
-- goes through it. A method that mutates returns the new state beside its result. A Go (value, error)
-- is a Result; errors carry their kind, or their text where the code keeps it. Log lines are left out.
--
-- Fuel. nextFree runs for as many rounds as the subnet has addresses, 2 ^ (32 - bits), and parseOptions
-- for as many as there are bytes, since each round takes one at least; for both the fuel is proved
-- enough. So do the walks over netlink attributes and messages. Acquire's rounds and a dump's reads have no bound
-- in the code, so their fuel is an argument, and `none` says that it ran out.
--
-- The kernel. Every BPF map operation is one system call, and a function `fails` says of each call,
-- counted from the start, whether the kernel refuses it; the theorems hold for all such functions. The
-- walk over the flow table counts as one call. The tunnel, the kernel's source selection, the
-- counters and the clock are parameters of the softwire server.
--
-- Parameters. The DHCPv6 client's random generator has any state and any draws between 0 and 1, which
-- are fractions, exact where the code rounds to floating point. The Exchanger of the prefix delegation
-- has any state, its context and its clock with it. A netlink socket's kernel takes or refuses a
-- request and answers a read as it likes, in either byte order; the numbers of the Linux ABI are
-- written out. A kvs table has any contents, and laws of insertion, erasure and pruning.
--
-- Not modelled: sockets, the BPF programs, the supervision trees and timers of the molecule library,
-- the inside of the kvs table of kept leases, router advertisements, the DNS proxy, HB46PP, ethtool,
-- and the set-up of devices: they are I/O, or not yet reached. In the host routes of the Neighbor
-- Discovery proxy, a netlink call that fails is left out.
pub mod Base
pub mod Netip
pub mod Dhcpv4
pub mod Dhcpv4Server
pub mod Dhcpv6
pub mod Dhcpv6Client
pub mod PrefixDelegation
pub mod PdLease
pub mod Datapath
pub mod Softwire
pub mod NdProxy
pub mod Ndppd
pub mod Netlink
pub mod LanPrefix
pub mod TunnelPmtu
