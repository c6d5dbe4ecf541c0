-- ===== src/Links/Tests.antt =====
-- The latency field of a three-tier template, and the theorems there.
use cloud_native_emulator.Prelude.{
  ℕ, ◌≤◌, ◌≡◌, ◌≢◌, refl, String, true, [], ◌∷◌, text_dec, text_le, codes,
}
use cloud_native_emulator.Prelude.Int.{ℤ, pos, ◌*ℤ◌}
use cloud_native_emulator.Prelude.Result.{ok, err, value_error, given_twice, below_minimum}
use cloud_native_emulator.Samples.{whole}
use cloud_native_emulator.Json.{Fields, entries, text, object, field, no_fields}
use cloud_native_emulator.Links.{
  Pairs, max_rtt_us, pair_key, has_pair, same_pair, add_pair, add_peers, add_tier, add_tiers,
  validate_pairs, validate_latency, parse_rtt_us, parse_rate, checked_rate, validate_bandwidth,
  match_quantity, scaled, in_range, number_part, unit_of, is_unit, take_digits, skip_spaces,
  fraction,
}
use cloud_native_emulator.Links.Accepted.{
  IsAccepted, IsRead, validate_pairs-IsRead, validate_pairs-accepts,
}
use cloud_native_emulator.Links.Limits.{validate_latency-bounds}

abbrev latency : Fields ℤ
latency =
    field "edge" (object (field "fog" (text "30ms") (field "cloud" (text " 120 ms ") no_fields)))
      (field "fog" (object (field "cloud" (text "1s") no_fields)) no_fields)

abbrev delays : Pairs ℕ
delays = (("edge", "fog"), 30000) ∷ (("cloud", "edge"), 120000) ∷ (("cloud", "fog"), 1000000) ∷ []

program : Unit {0}
unfolding validate_latency validate_pairs add_tiers add_tier add_peers add_pair pair_key has_pair
    same_pair parse_rtt_us parse_rate checked_rate validate_bandwidth match_quantity scaled in_range
    number_part unit_of is_unit take_digits skip_spaces fraction text_dec text_le codes ◌*ℤ◌
program = tt

validate_latency-delays : validate_latency whole (object latency) ≡ ok delays
unfolding program
validate_latency-delays = refl

-- The same pair in the other orientation.
validate_latency-twice :
    validate_latency whole
      (object (field "fog" (object (field "edge" (text "5ms") no_fields)) latency))
    ≡ err (value_error (given_twice ("edge", "fog")))
unfolding program
validate_latency-twice = refl

-- One microsecond is refused.
validate_latency-one :
    validate_latency whole
      (object (field "fog" (object (field "edge" (text "1us") no_fields)) no_fields))
    ≡ err (value_error below_minimum)
unfolding program
validate_latency-one = refl

parse_rate-Mbps : parse_rate whole (text "100Mbps") ≡ ok (pos 12500000)
unfolding program
parse_rate-Mbps = refl

abbrev edge_tier : String
edge_tier = "edge"

abbrev fog_tier : String
fog_tier = "fog"

validate_latency-bounds_example :
    (2 ≤ 30000)
    × (30000 ≤ max_rtt_us)
    × (text_le edge_tier fog_tier ≡ true)
    × (edge_tier ≢ fog_tier)
unfolding program
validate_latency-bounds_example =
    validate_latency-bounds whole latency delays validate_latency-delays ("edge", "fog") 30000 refl

latency-IsAccepted : IsAccepted (parse_rtt_us whole) (entries latency)
unfolding validate_latency
latency-IsAccepted =
    (validate_pairs-IsRead (parse_rtt_us whole) latency delays validate_latency-delays).0

validate_pairs-IsRead_example :
    IsAccepted (parse_rtt_us whole) (entries latency)
    × IsRead (parse_rtt_us whole) (entries latency) delays
unfolding validate_latency
validate_pairs-IsRead_example =
    validate_pairs-IsRead (parse_rtt_us whole) latency delays validate_latency-delays

validate_pairs-accepts_example :
    (r : Pairs ℕ) × (validate_pairs (parse_rtt_us whole) (object latency) ≡ ok r)
    × IsRead (parse_rtt_us whole) (entries latency) r
validate_pairs-accepts_example =
    validate_pairs-accepts (parse_rtt_us whole) latency latency-IsAccepted
