-- ===== src/Runner/Tracking.antt =====
-- The runner keeps the system at the x of the phase that is active.
use cloud_native_emulator.Prelude.{
  ℕ, suc, ◌≤◌, ◌≡◌, inl, inr, refl, String, Bool, true, false, Option, none, some, List, [], ◌∷◌,
  foldl, arith, All, length, select, Bool-cases, Option-cases, text_dec, ◌∙◌, sym, ap, subst,
}
use cloud_native_emulator.Prelude.Dict.{Dict, keys, lookup}
use cloud_native_emulator.Prelude.Float.{Float}
use cloud_native_emulator.Prelude.Sets.{contains, IsNodup}
use cloud_native_emulator.Template.{InputX}
use cloud_native_emulator.Runner.{
  Phase, Run, is_last, within, active_phase, phase_key, enter, tick, fresh, run,
}

module _ {F : Type 0} where
  -- The x that the last successful call set.
  abbrev pub applied : List (InputX F × Bool) → Option (InputX F)
  applied [] = none
  applied ((x, true) ∷ calls) = some x
  applied ((x, false) ∷ calls) = applied calls

is_last-eq : (last : Option String) (key : String) → is_last last key ≡ true → last ≡ some key
is_last-eq none key h = cc
is_last-eq (some k) key h = ground (arith, text_dec k key)

is_last_refl : (key : String) → is_last (some key) key ≡ true
is_last_refl key = ground (arith, text_dec key key)

module _ (fl : Float) (str : fl.F → String) where
  open fl use {F}

  -- Each phase's x by the phase's key.
  abbrev pub by_key : List (Phase F) → Dict (InputX F)
  by_key [] = []
  by_key (ph ∷ phs) = (phase_key fl str ph, ph.x) ∷ by_key phs

  active_phase-keyed :
      (phs : List (Phase F)) (e : F) (ph : Phase F)
      → IsNodup (keys (by_key phs))
      → active_phase fl str e phs ≡ some ph
      → (contains (keys (by_key phs)) (phase_key fl str ph) ≡ true)
        × (lookup (phase_key fl str ph) (by_key phs) ≡ some ph.x)
  unfolding active_phase lookup contains
  active_phase-keyed [] e ph once h = cc
  active_phase-keyed (q ∷ phs) e ph once h = elim (Bool-cases (within fl str e q)) [
    | inl here ↦
        let same : q ≡ ph = ground (arith, here) in
        rw (← same) (ground (arith, text_dec (phase_key fl str q) (phase_key fl str q)))
    | inr not_here ↦
        let (found, value) = active_phase-keyed phs e ph once.1 (rw not_here at h) in
        ground (arith, found, value, text_dec (phase_key fl str q) (phase_key fl str ph), once.0)
  ]

  -- The last id is the key of the phase whose x was applied last.
  abbrev Inv : List (Phase F) → Run F → Type 0
  Inv phs r = (k : String) → r.last_phase_id ≡ some k → applied r.calls ≡ lookup k (by_key phs)

  enter-Inv :
      (phs : List (Phase F)) (r : Run F) (works : Bool) (ph : Phase F)
      → Inv phs r
      → lookup (phase_key fl str ph) (by_key phs) ≡ some ph.x
      → Inv phs (enter fl str r works ph)
  unfolding enter
  enter-Inv phs r works ph inv value k last =
      elim (Bool-cases (is_last r.last_phase_id (phase_key fl str ph))) [
        | inl same ↦ let last' : r.last_phase_id ≡ some k = rw same at last in rw same (inv k last')
        | inr other ↦ elim (Bool-cases works) [
          | inl back ↦
              let e : phase_key fl str ph ≡ k = ground (arith, last, other, back) in
              rw (other, back) (rw e at (sym value))
          | inr raised ↦
              let last' : r.last_phase_id ≡ some k = rw (other, raised) at last in
              rw (other, raised) (inv k last')
        ]
      ]

  enter-applied :
      (phs : List (Phase F)) (r : Run F) (ph : Phase F)
      → Inv phs r
      → lookup (phase_key fl str ph) (by_key phs) ≡ some ph.x
      → applied (enter fl str r true ph).calls ≡ some ph.x
  unfolding enter
  enter-applied phs r ph inv value =
      elim (Bool-cases (is_last r.last_phase_id (phase_key fl str ph))) [
        | inl same ↦ rw same (
            inv (phase_key fl str ph) (is_last-eq r.last_phase_id (phase_key fl str ph) same)
            ∙ value)
        | inr other ↦ rw other refl
      ]

  tick-Inv :
      (phs : List (Phase F)) (r : Run F) (t : F × Bool)
      → IsNodup (keys (by_key phs))
      → Inv phs r
      → Inv phs (tick fl str phs r t)
  unfolding tick
  tick-Inv phs r (e, works) once inv = elim (Option-cases (active_phase fl str e phs)) [
    | inl idle ↦ rw (tick, idle) inv
    | inr (ph, found) ↦
        rw (tick, found) (enter-Inv phs r works ph inv (active_phase-keyed phs e ph once found).1)
  ]

  ticks-Inv :
      (phs : List (Phase F)) (ticks : List (F × Bool)) (r : Run F)
      → IsNodup (keys (by_key phs))
      → Inv phs r
      → Inv phs (foldl (tick fl str phs) r ticks)
  ticks-Inv phs [] r once inv = inv
  ticks-Inv phs (t ∷ ticks) r once inv =
      ticks-Inv phs ticks (tick fl str phs r t) once (tick-Inv phs r t once inv)

  -- Where no two phases have one key: after any ticks, failed calls included, a tick in a phase
  -- at which a call would come back leaves that phase's x as the last one applied.
  pub run-tracks :
      (phs : List (Phase F)) (ticks : List (F × Bool)) (e : F) (ph : Phase F)
      → IsNodup (keys (by_key phs))
      → active_phase fl str e phs ≡ some ph
      → applied (tick fl str phs (run fl str phs ticks) (e, true)).calls ≡ some ph.x
  unfolding run tick
  run-tracks phs ticks e ph once found =
      rw (tick, found)
        (enter-applied phs (run fl str phs ticks) ph
          (ticks-Inv phs ticks (fresh fl str) once (λ k h. cc))
          (active_phase-keyed phs e ph once found).1)

  -- The calls that came back.
  abbrev pub successes : Run F → ℕ
  successes r = length (select (λ c. c.1) r.calls)

  entered_once :
      (phs : List (Phase F)) (ph : Phase F) (ticks : List (F × Bool)) (r : Run F)
      → All (λ t. active_phase fl str t.0 phs ≡ some ph) ticks
      → is_last r.last_phase_id (phase_key fl str ph) ≡ true
      → foldl (tick fl str phs) r ticks ≡ r
  unfolding tick enter
  entered_once phs ph [] r h there = refl
  entered_once phs ph ((e, works) ∷ ticks) r h there =
      let stays : tick fl str phs r (e, works) ≡ r = rw (tick, h.0, there) refl in
      rw stays (entered_once phs ph ticks r h.1 there)

  -- However many ticks fall in one phase, at most one call for it comes back: what was applied is
  -- not applied again.
  pub ticks-apply_once :
      (phs : List (Phase F)) (ph : Phase F) (ticks : List (F × Bool)) (r : Run F)
      → All (λ t. active_phase fl str t.0 phs ≡ some ph) ticks
      → successes (foldl (tick fl str phs) r ticks) ≤ suc (successes r)
  unfolding tick enter
  ticks-apply_once phs ph [] r h = omega arith
  ticks-apply_once phs ph ((e, works) ∷ ticks) r h =
      elim (Bool-cases (is_last r.last_phase_id (phase_key fl str ph))) [
        | inl there ↦ rw (entered_once phs ph ((e, works) ∷ ticks) r h there) (omega arith)
        | inr other ↦ elim (Bool-cases works) [
          | inl back ↦
              let next : Run F = record {
                last_phase_id = some (phase_key fl str ph);
                calls = (ph.x, true) ∷ r.calls;
              } in
              let moved : tick fl str phs r (e, works) ≡ next = rw (tick, h.0, other, back) refl in
              subst (λ end. successes end ≤ suc (successes r))
                (sym (
                  ap (λ s. foldl (tick fl str phs) s ticks) moved
                  ∙ entered_once phs ph ticks next h.1 (is_last_refl (phase_key fl str ph))))
                (omega arith)
          | inr raised ↦
              let next : Run F = record {
                last_phase_id = r.last_phase_id;
                calls = (ph.x, false) ∷ r.calls;
              } in
              let moved : tick fl str phs r (e, works) ≡ next =
                rw (tick, h.0, other, raised) refl in
              subst (λ s. successes (foldl (tick fl str phs) s ticks) ≤ suc (successes r))
                (sym moved) (ticks-apply_once phs ph ticks next h.1)
        ]
      ]
