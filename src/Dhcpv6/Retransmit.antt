-- ===== src/Dhcpv6/Retransmit.antt =====
-- pkg/dhcpv6/retransmit.go and client.go: the retransmission timeouts, and the exchanges with their
-- timings. A draw of `Float64` is its numerator over 2 ^ 53, and a product of a duration with a float
-- is exact before it is cut to a whole number of nanoseconds: the rounding of floats is left out.
pub mod Bounds
use minuteman.Base.{
  ℕ, ◌+◌, ◌-◌, ◌*◌, ◌/◌, ◌^◌, List, [], ◌∷◌, ltb, leb, ◌==◌, not, ◌&&◌, if◌then◌else◌, Bool, true,
  false,
}
use minuteman.Dhcpv6.Options.{DhcpOption, Options}
use minuteman.Dhcpv6.Message.{Exchange, Timing, new_oro, second}

-- A half of the unit interval's draws.
abbrev pub half : ℕ
half = 2 ^ 52

-- The size of the jitter of a duration, at a draw `r`: 0.2 r - 0.1 of it, whatever its sign.
unfoldable pub jitter_size : ℕ → ℕ → ℕ
jitter_size base r = base * (if leb half r then 2 * (r - half) else 2 * (half - r)) / 2 ^ 53 / 10

-- `x + jitter(base, r)`.
unfoldable pub add_jitter : ℕ → ℕ → ℕ → ℕ
add_jitter x base r = if leb half r then x + jitter_size base r else x - jitter_size base r

unfoldable pub initial_delay : ℕ → ℕ → ℕ
initial_delay most r = if most == 0 then 0 else r * most / 2 ^ 53

unfoldable pub first_rt : ℕ → ℕ → ℕ
first_rt irt r = add_jitter irt irt r

-- The second draw is made only at the ceiling.
unfoldable pub next_rt : ℕ → ℕ → ℕ → ℕ → ℕ
next_rt prev mrt r s =
    let rt = add_jitter (2 * prev) prev r in
    if not (mrt == 0) && ltb mrt rt then add_jitter mrt mrt s else rt

-- Whether `next_rt` makes its second draw.
unfoldable pub draws_twice : ℕ → ℕ → ℕ → Bool
draws_twice prev mrt r = not (mrt == 0) && ltb mrt (add_jitter (2 * prev) prev r)

unfoldable pub information_request : List ℕ → Exchange
information_request codes = record {
  type_code = 11;
  expect = 7;
  options = new_oro codes ∷ [];
  timing = record {
    initial_delay_max = 1 * second;
    irt = 1 * second;
    mrt = 3600 * second;
    mrc = 0;
  };
}

unfoldable pub solicit : Options → Exchange
solicit os = record {
  type_code = 1;
  expect = 2;
  options = os;
  timing = record {
    initial_delay_max = 1 * second;
    irt = 1 * second;
    mrt = 3600 * second;
    mrc = 0;
  };
}

unfoldable pub request : Options → Exchange
request os = record {
  type_code = 3;
  expect = 7;
  options = os;
  timing = record { initial_delay_max = 0; irt = 1 * second; mrt = 30 * second; mrc = 10 };
}

unfoldable pub renew : Options → Exchange
renew os = record {
  type_code = 5;
  expect = 7;
  options = os;
  timing = record { initial_delay_max = 0; irt = 10 * second; mrt = 600 * second; mrc = 0 };
}

unfoldable pub rebind : Options → Exchange
rebind os = record {
  type_code = 6;
  expect = 7;
  options = os;
  timing = record { initial_delay_max = 0; irt = 10 * second; mrt = 600 * second; mrc = 0 };
}

unfoldable pub release : Options → Exchange
release os = record {
  type_code = 8;
  expect = 7;
  options = os;
  timing = record { initial_delay_max = 0; irt = 1 * second; mrt = 0; mrc = 5 };
}
