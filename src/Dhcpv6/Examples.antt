-- ===== src/Dhcpv6/Examples.antt =====
-- pkg/dhcpv6: a Reply with two options.
use minuteman.Base.{ℕ, ◌≡◌, ◌≢◌, refl, arith, List, [], ◌∷◌, All}
use minuteman.Base.Bytes.{IsByte}
use minuteman.Dhcpv6.Options.{Options, ok, stuck, marshal, parse_options, parse_loop, parse_one}
use minuteman.Dhcpv6.Options.RoundTrip.{
  IsOption, parse_options-marshal, marshal-parse_options, parse_options-ne-stuck,
}
use minuteman.Dhcpv6.Message.{Message}

abbrev options : Options
options = record { code = 2; payload = 0 ∷ 3 ∷ [] } ∷ record { code = 25; payload = [] } ∷ []

options-All : All IsOption options
options-All = (
  record { code_fits = omega arith; data_fits = omega arith },
  (record { code_fits = omega arith; data_fits = omega arith }, tt),
)

parse_options-marshal_example : parse_options (marshal options) ≡ ok options
parse_options-marshal_example = parse_options-marshal options options-All

abbrev wire : List ℕ
wire = 0 ∷ 2 ∷ 0 ∷ 2 ∷ 0 ∷ 3 ∷ 0 ∷ 25 ∷ 0 ∷ 0 ∷ []

wire-All : All IsByte wire
wire-All = omega arith

wire_parsed : parse_options wire ≡ ok options
unfolding parse_options parse_loop parse_one
wire_parsed = refl

marshal-parse_options_example : (marshal options ≡ wire) × All IsOption options
marshal-parse_options_example = marshal-parse_options wire options wire-All wire_parsed

parse_options-ne-stuck_example : parse_options wire ≢ stuck
parse_options-ne-stuck_example = parse_options-ne-stuck wire wire-All

abbrev reply : Message
reply = record { type_code = 7; xid = 1 ∷ 2 ∷ 3 ∷ []; options = options }
