-- ===== src/Dhcpv4/Kind.antt =====
-- pkg/dhcpv4/options.go: the message types.
use minuteman.Base.{ℕ}

abbrev pub discover : ℕ
discover = 1

abbrev pub offer : ℕ
offer = 2

abbrev pub request : ℕ
request = 3

abbrev pub decline : ℕ
decline = 4

abbrev pub ack : ℕ
ack = 5

abbrev pub nak : ℕ
nak = 6

abbrev pub release : ℕ
release = 7

abbrev pub inform : ℕ
inform = 8
