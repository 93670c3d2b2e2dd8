-- ===== src/Dhcpv4/Handler/Examples.antt =====
-- pkg/dhcpv4/handler.go: a client that selects an address that it was never offered.
use minuteman.Base.{arith, ap, ◌≢◌, ℕ, ℕ_discrete, ◌≡◌, refl, [], ◌∷◌, some}
use minuteman.Netip.{number, v4, Addr-discrete}
use minuteman.Dhcpv4.Opt
use minuteman.Dhcpv4.Kind
use minuteman.Dhcpv4.Options.{
  Message, message_type, client_id, server_id, requested_ip, addr_option, get,
}
use minuteman.Dhcpv4.Pool.Calls.{binding}
use minuteman.Dhcpv4.Pool.Examples.{fresh, anna, server, lan, hour}
use minuteman.Dhcpv4.Handler.{
  InterfaceConfig, handle, handle_request, selecting, build_nak, dispatch, addressed,
  build_inform_ack,
}
use minuteman.Dhcpv4.Pool.{Pool}
use minuteman.Dhcpv4.Handler.Elsewhere.{IsLeft, handle-IsLeft}
use minuteman.Dhcpv4.Handler.Answers.{IsAnswer, about, handle_request-IsAnswer}

abbrev pub config : InterfaceConfig
config = record {
  iface = [];
  server_ip = server;
  subnet = lan;
  dns_servers = [];
  mtu = 1460;
  lease_time = hour;
}

abbrev request : Message
request = record {
  op = 1;
  htype = 1;
  hlen = 6;
  hops = 0;
  xid = 77;
  secs = 0;
  flags = 0;
  ciaddr = v4 0;
  yiaddr = v4 0;
  siaddr = v4 0;
  giaddr = v4 0;
  chaddr = anna;
  sname = [];
  file = [];
  options =
      record { code = Opt.message_type; payload = Kind.request ∷ [] }
      ∷ record { code = Opt.server_id; payload = 10 ∷ 0 ∷ 0 ∷ 1 ∷ [] }
      ∷ record { code = Opt.requested_ip; payload = 10 ∷ 0 ∷ 0 ∷ 3 ∷ [] }
      ∷ [];
}

refused : (handle_request config fresh request anna 7).0 ≡ some (build_nak config request)
unfolding handle_request selecting server_id requested_ip addr_option get binding Addr-discrete
    ℕ_discrete
refused = refl

handle_request-IsAnswer_example :
    IsAnswer fresh
      (handle_request config fresh request anna 7).1
      anna
      (about request)
      7
      (build_nak config request)
handle_request-IsAnswer_example =
    handle_request-IsAnswer config fresh request anna 7 (build_nak config request) refused

-- An INFORM of anna's.
abbrev pub inform : Message
inform = record request {
  hlen = 1;
  ciaddr = v4 167772162;
  options = record { code = Opt.message_type; payload = Kind.inform ∷ [] } ∷ [];
}

pub inform_answered :
    (p : Pool) (t : ℕ) → handle config p inform t ≡ (some (build_inform_ack config inform), p)
unfolding handle dispatch addressed message_type get Addr-discrete ℕ_discrete
inform_answered p t = refl

-- The request of the server 10.0.0.1 comes to 10.0.0.2.
abbrev elsewhere : InterfaceConfig
elsewhere = record config { server_ip = v4 167772162 }

names_server : server_id request.options ≡ some server
unfolding server_id addr_option get ℕ_discrete
names_server = refl

is_request : message_type request.options ≡ some Kind.request
unfolding message_type get ℕ_discrete
is_request = refl

other_server : server ≢ elsewhere.server_ip
other_server h = let same : ◌≡◌ {A = ℕ} 167772161 167772162 = ap number h in absurd (omega arith)

handle-IsLeft_example :
    IsLeft fresh (client_id request.options anna) 7 Kind.request (handle elsewhere fresh request 7)
handle-IsLeft_example =
    handle-IsLeft elsewhere fresh request 7 server Kind.request names_server other_server is_request
      (omega arith)
