-- ===== src/Scenario/Contiguous.antt =====
-- A checked scenario is one contiguous timeline, and the runner gets that timeline.
use mathlib.Core.Option
use cloud_native_emulator.Prelude.{
  ◌≡◌, refl, ap, String, Bool, true, false, Option, none, some, List, [], ◌∷◌, inl, inr, Bool-cases,
  subst,
}
use cloud_native_emulator.Prelude.Dict.{Dict}
use cloud_native_emulator.Prelude.Float.{Float}
use cloud_native_emulator.Prelude.Int.{pos}
use cloud_native_emulator.Prelude.Result.{ok, >>=-eq-ok}
use cloud_native_emulator.Json
use cloud_native_emulator.Json.{Json, Items, Fields}
use cloud_native_emulator.Merge.{get}
use cloud_native_emulator.Runner.{Phase}
use cloud_native_emulator.Scenario.{
  Number, decimal, value, or_zero_number, written_at, same_number, no_later, check_window,
  check_phase, check_phases, validate_scenarios, scenario_x_timeline, validate_phase_x, refuse_key,
}

module _ (fl : Float) where
  open fl use {F, of_int}

  -- A window that is accepted: its start, its end.
  abbrev IsWindow : Number fl → Option (Number fl) → Option (Number fl) → Number fl → Type 0
  IsWindow prev start end next =
      (s : Number fl) × (start ≡ some s)
      × (end ≡ some next)
      × (same_number fl s prev ≡ true)
      × (no_later fl next s ≡ false)

  check_window-IsWindow :
      (first : Bool) (prev : Number fl) (start end : Option (Number fl)) {next : Number fl}
      → check_window fl first prev start end ≡ ok next
      → IsWindow prev start end next
  unfolding check_window
  check_window-IsWindow first prev none end h = cc
  check_window-IsWindow first prev (some s) none h = cc
  check_window-IsWindow first prev (some s) (some e) {next} h =
      elim (Bool-cases (no_later fl e s)) [
        | inl early ↦ cc (rw early at h)
        | inr late ↦ elim (Bool-cases (same_number fl s prev)) [
          | inr apart ↦ cc (rw (late, apart) at h)
          | inl joined ↦
              let same : e ≡ next = cc (rw (late, joined) at h) in
              subst (IsWindow prev (some s) (some e)) same (s, refl, refl, joined, late)
        ]
      ]

  check_phase-IsWindow :
      (sources : List String) (first : Bool) (prev : Number fl) (ph : Fields F) {next : Number fl}
      → check_phase fl sources first prev (Json.object ph) ≡ ok next
      → IsWindow prev (written_at fl "start_min" ph) (written_at fl "end_min" ph) next
  unfolding check_phase
  check_phase-IsWindow sources first prev ph {next} h =
      let (u, no_cpu, h1) = >>=-eq-ok (refuse_key fl "cpu" ph) _ h in
      let (u1, no_ram, h2) = >>=-eq-ok (refuse_key fl "ram" ph) _ h1 in
      let (u2, no_net, h3) = >>=-eq-ok (refuse_key fl "net" ph) _ h2 in
      let (end, window, h4) =
        >>=-eq-ok
          (check_window fl first prev (written_at fl "start_min" ph) (written_at fl "end_min" ph)) _
          h3 in
      let (u3, x, h5) = >>=-eq-ok (validate_phase_x fl sources (get "x" ph)) _ h4 in
      let found =
        check_window-IsWindow first prev (written_at fl "start_min" ph) (written_at fl "end_min" ph)
          window in
      let same : end ≡ next = cc in
      subst (IsWindow prev (written_at fl "start_min" ph) (written_at fl "end_min" ph)) same found

  -- Each phase of the document starts where the one before ended, does not end at its start or
  -- before, and stands in the timeline, in the same place, with the floats of its start and end.
  abbrev pub IsChained : Number fl → Items F → List (Phase F) → Type 0
  IsChained prev Json.no_items [] = Unit
  IsChained prev (Json.item (Json.object ph) rest) (p ∷ ps) =
      (s : Number fl) × (e : Number fl) × (written_at fl "start_min" ph ≡ some s)
      × (written_at fl "end_min" ph ≡ some e)
      × (same_number fl s prev ≡ true)
      × (no_later fl e s ≡ false)
      × (p.start_min ≡ value fl s)
      × (p.end_min ≡ value fl e)
      × IsChained e rest ps
  IsChained prev phases timeline = ⊥

  float_written :
      {o : Option (Number fl)} {n : Number fl}
      → o ≡ some n
      → or_zero_number fl (Option.map (value fl) o) ≡ value fl n
  float_written h = ap (λ o. or_zero_number fl (Option.map (value fl) o)) h

  check_phases-IsChained :
      (sources : List String) (roles : Dict String) (phases : Items F) (first : Bool)
      (prev : Number fl)
      → check_phases fl sources first prev phases ≡ ok tt
      → IsChained prev phases (scenario_x_timeline fl roles phases)
  unfolding check_phases check_phase scenario_x_timeline
  check_phases-IsChained sources roles Json.no_items first prev h = tt
  check_phases-IsChained sources roles (Json.item (Json.object ph) rest) first prev h =
      let (end, checked, later) =
        >>=-eq-ok (check_phase fl sources first prev (Json.object ph)) _ h in
      let (s, at_start, at_end, joined, grows) =
        check_phase-IsWindow sources first prev ph checked in
      (
        s,
        end,
        at_start,
        at_end,
        joined,
        grows,
        float_written at_start,
        float_written at_end,
        check_phases-IsChained sources roles rest false end later,
      )
  check_phases-IsChained sources roles (Json.item Json.null rest) first prev h = cc
  check_phases-IsChained sources roles (Json.item (Json.boolean b) rest) first prev h = cc
  check_phases-IsChained sources roles (Json.item (Json.integer n) rest) first prev h = cc
  check_phases-IsChained sources roles (Json.item (Json.real v) rest) first prev h = cc
  check_phases-IsChained sources roles (Json.item (Json.text s) rest) first prev h = cc
  check_phases-IsChained sources roles (Json.item (Json.array xs) rest) first prev h = cc

  -- When _validate_runtime_scenarios accepts an array of phases, then as Python compares the
  -- numbers of the document: the first phase starts at 0.0, each starts at the end of the one
  -- before, and no end is at most its start. The timeline that the runner gets, where float()
  -- takes these numbers, has just these phases in this order, at the floats of their starts and
  -- ends.
  pub validate_scenarios-IsChained :
      (sources : List String) (roles : Dict String) (phases : Items F)
      → validate_scenarios fl sources (some (Json.array phases)) ≡ ok tt
      → IsChained (decimal (of_int (pos 0))) phases (scenario_x_timeline fl roles phases)
  unfolding validate_scenarios
  validate_scenarios-IsChained sources roles phases h =
      check_phases-IsChained sources roles phases true (decimal (of_int (pos 0))) h
