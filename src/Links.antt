-- ===== src/Links.antt =====
-- controller/linkspec.py: the latency and bandwidth fields of a template. The regular expressions
-- are read over code points.
pub mod Pairs
pub mod Entries
pub mod Accepted
pub mod Limits
mod Tests
use cloud_native_emulator.Prelude.{
  ℕ, ◌+◌, String, Bool, true, false, ◌&&◌, ◌||◌, not, Option, none, some, List, [], ◌∷◌, ◌++◌,
  if◌then◌else◌, leb, ◌==◌, null, text_dec, ite, text_le, codes,
}
use cloud_native_emulator.Prelude.Dict.{Dict}
use cloud_native_emulator.Prelude.Float.{Float}
use cloud_native_emulator.Prelude.Int.{ℤ, pos, negsuc}
use cloud_native_emulator.Prelude.Result.{
  Result, ok, err, value_error, overflow_error, ◌>>=◌, ◌>>◌, guard, not_a_duration, below_minimum,
  above_cap, not_a_rate, rate_not_positive, not_an_object, no_tier_name, peers_not_an_object,
  no_peer_name, same_tier, given_twice,
}
use cloud_native_emulator.Json
use cloud_native_emulator.Json.{Json, Fields, entries}

-- \d and \s; the classes of code points beyond ASCII are left out.
abbrev pub is_digit : ℕ → Bool
is_digit c = leb b'0' c && leb c b'9'

abbrev pub is_space : ℕ → Bool
is_space c = c == 32 || ((leb 9 c && leb c 13) || (leb 28 c && leb c 31))

-- \s*
unfoldable pub skip_spaces : List ℕ → List ℕ
skip_spaces [] = []
skip_spaces (c ∷ cs) = if is_space c then skip_spaces cs else c ∷ cs

-- \d*, and what follows it
unfoldable pub take_digits : List ℕ → List ℕ × List ℕ
take_digits [] = ([], [])
take_digits (c ∷ cs) =
    let rest = take_digits cs in if is_digit c then (c ∷ rest.0, rest.1) else ([], c ∷ cs)

-- (?:\.\d+)?
unfoldable pub fraction : List ℕ → List ℕ × List ℕ
unfolding take_digits
fraction [] = ([], [])
fraction (c ∷ cs) =
    let rest = take_digits cs in
    if c == b'.' && not (null rest.0) then (c ∷ rest.0, rest.1) else ([], c ∷ cs)

-- ^\s*(\d+(?:\.\d+)?)\s*, and what follows it
unfoldable pub number_part : List ℕ → Option (List ℕ × List ℕ)
unfolding skip_spaces take_digits fraction
number_part cs =
    let whole = take_digits (skip_spaces cs) in
    let decimals = fraction whole.1 in
    if null whole.0 then none else some (whole.0 ++ decimals.0, skip_spaces decimals.1)

-- A unit, then \s*$
unfoldable pub is_unit : List ℕ → List ℕ → Bool
unfolding skip_spaces
is_unit [] cs = null (skip_spaces cs)
is_unit (u ∷ us) [] = false
is_unit (u ∷ us) (c ∷ cs) = if u == c then is_unit us cs else false

-- The factor of the first unit that fits.
unfoldable pub unit_of : List (String × ℕ) → List ℕ → Option ℕ
unfolding is_unit codes
unit_of [] cs = none
unit_of ((u, n) ∷ us) cs = if is_unit (codes u) cs then some n else unit_of us cs

-- re.IGNORECASE, on the letters of ASCII.
abbrev pub lower : List ℕ → List ℕ
lower [] = []
lower (c ∷ cs) = (if leb 65 c && leb c 90 then c + 32 else c) ∷ lower cs

-- _RTT_RE with _UNIT_US
abbrev pub duration_units : List (String × ℕ)
duration_units = ("us", 1) ∷ ("ms", 1000) ∷ ("s", 1000000) ∷ []

-- _BW_RE with _BW_UNIT_BYTES
abbrev pub rate_units : List (String × ℕ)
rate_units = ("kbps", 125) ∷ ("mbps", 125000) ∷ ("gbps", 125000000) ∷ []

-- The groups of a match: the number and the factor of its unit.
unfoldable pub match_quantity : List (String × ℕ) → List ℕ → Option (List ℕ × ℕ)
unfolding number_part unit_of
match_quantity units cs = elim (number_part cs) [
  | none ↦ none
  | some (digits, rest) ↦ elim (unit_of units rest) [ none ↦ none | some n ↦ some (digits, n) ]
]

-- _MAX_RTT_US
abbrev pub max_rtt_us : ℕ
max_rtt_us = 10000000

module _ (fl : Float) where
  open fl use {F, of_int, mul, less, trunc, parse}

  -- int(num * unit)
  unfoldable pub scaled : F → ℕ → Result ℤ
  scaled num unit = elim (trunc (mul num (of_int (pos unit)))) [
    | none ↦ err overflow_error
    | some n ↦ ok n
  ]

  -- The tests after `us = int(…)`
  unfoldable pub in_range : ℤ → Result ℕ
  in_range (negsuc n) = err (value_error below_minimum)
  in_range (pos n) =
      if leb 2 n
      then (if leb n max_rtt_us then ok n else err (value_error above_cap))
      else err (value_error below_minimum)

  -- `_parse_rtt_us`
  unfoldable pub parse_rtt_us : Json F → Result ℕ
  unfolding match_quantity scaled in_range
  parse_rtt_us (Json.text s) = elim (match_quantity duration_units (codes s)) [
    | none ↦ err (value_error not_a_duration)
    | some (digits, unit) ↦ elim (parse digits) [
      | none ↦ err (value_error not_a_duration)
      | some num ↦ scaled num unit >>= in_range
    ]
  ]
  parse_rtt_us v = err (value_error not_a_duration)

  -- `_parse_rate`
  unfoldable pub parse_rate : Json F → Result ℤ
  unfolding match_quantity scaled
  parse_rate (Json.text s) = elim (match_quantity rate_units (lower (codes s))) [
    | none ↦ err (value_error not_a_rate)
    | some (digits, unit) ↦ elim (parse digits) [
      | none ↦ err (value_error not_a_rate)
      | some num ↦ do
        guard (less (of_int (pos 0)) num) (value_error rate_not_positive)
        scaled num unit
    ]
  ]
  parse_rate v = err (value_error not_a_rate)

  -- The value that `validate_bandwidth` keeps: the text itself, once it is known to be a rate.
  unfoldable pub checked_rate : Json F → Result (Json F)
  unfolding parse_rate
  checked_rate rate = do bytes ← parse_rate rate; ok rate

-- (min(a, b), max(a, b))
unfoldable pub pair_key : String → String → String × String
pair_key a b = (if text_le a b then a else b, if text_le b a then a else b)

unfoldable pub same_pair : String × String → String × String → Bool
same_pair p q = ite (text_dec p.0 q.0) (ite (text_dec p.1 q.1) true false) false

abbrev pub Pairs {ℓ} : Type ℓ → Type ℓ
Pairs V = List ((String × String) × V)

-- `key in pairs`
unfoldable pub has_pair {ℓ} : {V : Type ℓ} → String × String → Pairs V → Bool
unfolding same_pair
has_pair key [] = false
has_pair key ((k, v) ∷ pairs) = if same_pair k key then true else has_pair key pairs

-- `not text`
abbrev pub is_empty : String → Bool
is_empty s = ite (text_dec s "") true false

-- The loops that validate_latency and validate_bandwidth share, with what each makes of a value.
module _ {F V : Type 0} (value : Json F → Result V) where
  -- The body of the inner loop. (A key of an object is a text.)
  unfoldable pub add_pair : String → String → Json F → Pairs V → Result (Pairs V)
  unfolding pair_key has_pair
  add_pair a b j pairs = do
    guard (not (is_empty b)) (value_error (no_peer_name a))
    guard (ite (text_dec a b) false true) (value_error (same_tier a))
    guard (not (has_pair (pair_key a b) pairs)) (value_error (given_twice (pair_key a b)))
    v ← value j
    ok (pairs ++ ((pair_key a b, v) ∷ []))

  unfoldable pub add_peers : String → Dict (Json F) → Pairs V → Result (Pairs V)
  unfolding add_pair
  add_peers a [] pairs = ok pairs
  add_peers a ((b, j) ∷ rest) pairs = add_pair a b j pairs >>= λ next. add_peers a rest next

  -- The body of the outer loop.
  unfoldable pub add_tier : String → Json F → Pairs V → Result (Pairs V)
  unfolding add_peers
  add_tier a (Json.object peers) pairs = do
    guard (not (is_empty a)) (value_error no_tier_name)
    add_peers a (entries peers) pairs
  add_tier a peers pairs = do
    guard (not (is_empty a)) (value_error no_tier_name)
    err (value_error (peers_not_an_object a))

  unfoldable pub add_tiers : Dict (Json F) → Pairs V → Result (Pairs V)
  unfolding add_tier
  add_tiers [] pairs = ok pairs
  add_tiers ((a, peers) ∷ rest) pairs = add_tier a peers pairs >>= λ next. add_tiers rest next

  unfoldable pub validate_pairs : Json F → Result (Pairs V)
  unfolding add_tiers
  validate_pairs Json.null = ok []
  validate_pairs (Json.object tiers) = add_tiers (entries tiers) []
  validate_pairs links = err (value_error not_an_object)

module _ (fl : Float) where
  open fl use {F}

  -- `validate_latency`: the one-way delay of each pair of tiers, in microseconds
  unfoldable pub validate_latency : Json F → Result (Pairs ℕ)
  unfolding validate_pairs
  validate_latency = validate_pairs (parse_rtt_us fl)

  -- `validate_bandwidth`: the rate of each pair of tiers, as the document spells it
  unfoldable pub validate_bandwidth : Json F → Result (Pairs (Json F))
  unfolding validate_pairs
  validate_bandwidth = validate_pairs (checked_rate fl)
