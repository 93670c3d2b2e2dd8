-- ===== src/Dhcpv4/Opt.antt =====
-- pkg/dhcpv4/options.go: the option codes.
use minuteman.Base.{ℕ}

abbrev pub subnet_mask : ℕ
subnet_mask = 1

abbrev pub router : ℕ
router = 3

abbrev pub dns_servers : ℕ
dns_servers = 6

abbrev pub interface_mtu : ℕ
interface_mtu = 26

abbrev pub broadcast_addr : ℕ
broadcast_addr = 28

abbrev pub requested_ip : ℕ
requested_ip = 50

abbrev pub lease_time : ℕ
lease_time = 51

abbrev pub message_type : ℕ
message_type = 53

abbrev pub server_id : ℕ
server_id = 54

abbrev pub renewal_time : ℕ
renewal_time = 58

abbrev pub rebinding_time : ℕ
rebinding_time = 59

abbrev pub client_id : ℕ
client_id = 61
