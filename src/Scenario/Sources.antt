-- ===== src/Scenario/Sources.antt =====
-- A phase's x map names source apps only, each with a number.
use cloud_native_emulator.Prelude.{
  ◌≡◌, ◌≢◌, String, true, some, List, [], ◌∷◌, All, inl, inr, Option-cases, Bool-cases,
}
use cloud_native_emulator.Prelude.Dict.{Dict}
use cloud_native_emulator.Prelude.Float.{Float}
use cloud_native_emulator.Prelude.Result.{ok}
use cloud_native_emulator.Prelude.Sets.{contains}
use cloud_native_emulator.Json
use cloud_native_emulator.Json.{Json, Fields, entries}
use cloud_native_emulator.Scenario.{as_number, check_sources, validate_phase_x}

module _ (fl : Float) (sources : List String) where
  open fl use {F}

  -- The key is a source and the value a number.
  abbrev pub IsSourceX : String × Json F → Type 0
  IsSourceX (app, v) = (contains sources app ≡ true) × ((n : F) × (as_number fl v ≡ some n))

  check_sources-IsSourceX :
      (m : Dict (Json F)) → check_sources fl sources m ≡ ok tt → All IsSourceX m
  unfolding check_sources
  check_sources-IsSourceX [] h = tt
  check_sources-IsSourceX ((app, v) ∷ rest) h = elim (Bool-cases (contains sources app)) [
    | inr other ↦ cc (rw other at h)
    | inl source ↦ elim (Option-cases (as_number fl v)) [
      | inl no_number ↦ cc (rw (check_sources, source, no_number) at h)
      | inr (n, at) ↦
          ((source, (n, at)), check_sources-IsSourceX rest (rw (check_sources, source, at) at h))
    ]
  ]

  -- When _validate_phase_x accepts an object, it is not empty, each of its keys is a source app,
  -- and each of its values a number.
  pub validate_phase_x-IsSourceX :
      (m : Fields F)
      → validate_phase_x fl sources (some (Json.object m)) ≡ ok tt
      → (entries m ≢ []) × All IsSourceX (entries m)
  unfolding validate_phase_x
  validate_phase_x-IsSourceX Json.no_fields h = cc
  validate_phase_x-IsSourceX (Json.field k v rest) h =
      (λ e. cc, check_sources-IsSourceX ((k, v) ∷ entries rest) h)
