-- ===== src/Dhcpv4/Wire/Examples.antt =====
-- pkg/dhcpv4/message.go: an ACK with an option that does not fit one instance.
use minuteman.Base.{ℕ, ◌≡◌, ◌≢◌, refl, arith, [], ◌∷◌, All, replicate}
use minuteman.Netip.{v4}
use minuteman.Dhcpv4.Options.{Message, Options}
use minuteman.Dhcpv4.Wire.{ok, stuck, parse, marshal}
use minuteman.Dhcpv4.Wire.Splits.Joined.{gathered, IsShort}
use minuteman.Dhcpv4.Wire.RoundTrip.{IsMessage, parse-marshal}
use minuteman.Dhcpv4.Wire.Total.{parse-ne-stuck}

abbrev ack : Message
ack = record {
  op = 2;
  htype = 1;
  hlen = 6;
  hops = 0;
  xid = 77;
  secs = 0;
  flags = 0x8000;
  ciaddr = v4 0;
  yiaddr = v4 3232235876;
  siaddr = v4 0;
  giaddr = v4 0;
  chaddr = 2 ∷ 0 ∷ 0 ∷ 0 ∷ 0 ∷ 9 ∷ [];
  sname = 98 ∷ 52 ∷ [];
  file = [];
  options =
      record { code = 53; payload = 5 ∷ [] } ∷ record { code = 6; payload = replicate 300 8 } ∷ [];
}

ack-IsMessage : IsMessage ack
ack-IsMessage = record {
  hlen_fits = omega arith;
  chaddr_fits = refl;
  xid_fits = omega arith;
  secs_fits = omega arith;
  flags_fits = omega arith;
  ciaddr_fits = (0, refl, omega arith);
  yiaddr_fits = (3232235876, refl, omega arith);
  siaddr_fits = (0, refl, omega arith);
  giaddr_fits = (0, refl, omega arith);
  sname_fits = omega arith;
  file_fits = omega arith;
  options_fit = (
    record { not_pad = omega arith; not_end = omega arith },
    (record { not_pad = omega arith; not_end = omega arith }, tt),
  );
}

parse-marshal_example :
    (os : Options) × (parse (marshal ack) ≡ ok (record ack { options = os }))
    × ((c : ℕ) → gathered c os ≡ gathered c ack.options)
    × All IsShort os
    × (All IsShort ack.options → os ≡ ack.options)
parse-marshal_example = parse-marshal ack ack-IsMessage

parse-ne-stuck_example : parse (0 ∷ 1 ∷ 2 ∷ []) ≢ stuck
parse-ne-stuck_example = parse-ne-stuck (0 ∷ 1 ∷ 2 ∷ [])
