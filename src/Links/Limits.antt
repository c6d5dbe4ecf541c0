-- ===== src/Links/Limits.antt =====
-- The limits on an accepted latency field: the delay of a link and the order of its two tiers.
use cloud_native_emulator.Prelude.{
  ℕ, ◌≤◌, ◌≡◌, ◌≢◌, inl, inr, String, true, some, List, [], ◌∷◌, arith, All, Option-cases,
  Bool-cases, text_le, codes, sym,
}
use cloud_native_emulator.Prelude.Float.{Float}
use cloud_native_emulator.Prelude.Int.{ℤ, pos, negsuc}
use cloud_native_emulator.Prelude.Order.{text_le_antisym, text_le_total}
use cloud_native_emulator.Prelude.Result.{ok, >>=-eq-ok}
use cloud_native_emulator.Json.{Json, Fields, entries}
use cloud_native_emulator.Links.{
  pair_key, Pairs, max_rtt_us, duration_units, match_quantity, in_range, scaled, parse_rtt_us,
  validate_latency,
}
use cloud_native_emulator.Links.Accepted.{validate_pairs-IsRead}
use cloud_native_emulator.Links.Entries.{Any, links_of}
use cloud_native_emulator.Links.Pairs.{find}

Any-All : {A : Type 0} {P Q : A → Type 0} (xs : List A) → Any P xs → All Q xs → (a : A) × P a × Q a
Any-All [] h all = absurd h
Any-All (x ∷ xs) (inl p) all = (x, p, all.0)
Any-All (x ∷ xs) (inr later) all = Any-All xs later all.1

in_range-bounds :
    (fl : Float) (n : ℤ) {us : ℕ} → in_range fl n ≡ ok us → (2 ≤ us) × (us ≤ max_rtt_us)
unfolding in_range
in_range-bounds fl (pos n) h = ground arith
in_range-bounds fl (negsuc n) h = cc

parse_rtt_us-bounds :
    (fl : Float) (j : Json (fl.F)) {us : ℕ}
    → parse_rtt_us fl j ≡ ok us
    → (2 ≤ us) × (us ≤ max_rtt_us)
unfolding parse_rtt_us
parse_rtt_us-bounds fl (Json.text s) h =
    elim (Option-cases (match_quantity duration_units (codes s))) [
      | inl no_match ↦ cc (rw (parse_rtt_us, no_match) at h)
      | inr ((digits, unit), matched) ↦ elim (Option-cases (fl.parse digits)) [
        | inl no_number ↦ cc (rw (parse_rtt_us, matched, no_number) at h)
        | inr (num, parsed) ↦
            let (n, number, ranged) =
              >>=-eq-ok (scaled fl num unit) (in_range fl)
                (rw (parse_rtt_us, matched, parsed) at h) in
            in_range-bounds fl n ranged
      ]
    ]
parse_rtt_us-bounds fl j h = cc

pair_key-sorted :
    (a b : String)
    → a ≢ b
    → (text_le (pair_key a b).0 (pair_key a b).1 ≡ true) × ((pair_key a b).0 ≢ (pair_key a b).1)
unfolding pair_key
pair_key-sorted a b differ = elim (Bool-cases (text_le a b)) [
  | inl ab ↦ elim (Bool-cases (text_le b a)) [
    | inl ba ↦ absurd (differ (text_le_antisym a b ab ba))
    | inr ba ↦ rw (ab, ba) (ab, differ)
  ]
  | inr ab ↦ let ba = text_le_total a b ab in rw (ab, ba) (ba, λ same. differ (sym same))
]

-- Whatever a latency field that validate_latency accepts says, every delay is from 2 microseconds
-- to 10 seconds, and the tiers of a pair differ and stand in the order of their names.
pub validate_latency-bounds :
    (fl : Float) (tiers : Fields (fl.F)) (r : Pairs ℕ)
    → validate_latency fl (Json.object tiers) ≡ ok r
    → (k : String × String) (us : ℕ) → find k r ≡ some us
    → (2 ≤ us) × (us ≤ max_rtt_us) × (text_le k.0 k.1 ≡ true) × (k.0 ≢ k.1)
unfolding validate_latency
validate_latency-bounds fl tiers r h k us found =
    let (fits, reads) = validate_pairs-IsRead (parse_rtt_us fl) tiers r h in
    let (l, (same, value), (named, differ, has_value)) =
      Any-All (links_of (entries tiers)) (reads.only k us found) fits.links in
    let (low, high) = parse_rtt_us-bounds fl l.value value in
    let (sorted, apart) = pair_key-sorted l.a l.b differ in
    (low, high, rw same sorted, rw same apart)
