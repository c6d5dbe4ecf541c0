-- ===== src/Runner/Timeline.antt =====
-- The phases of a checked scenario are one contiguous timeline (`_validate_runtime_scenarios`):
-- which of them `_active_phase` finds.
use cloud_native_emulator.Prelude.{
  ◌≡◌, refl, String, true, false, none, some, List, [], ◌∷◌, arith, All, Bool-cases, All-map_of,
  Bool, inl, inr,
}
use cloud_native_emulator.Prelude.Float.{Float}
use cloud_native_emulator.Runner.{Phase, at_most, within, active_phase, tick, Run}

module _ (fl : Float) (str : fl.F → String) where
  open fl use {F, less}

  -- The order of the floats that are numbers.
  pub record IsOrder : Type 0 where
    pub irreflexive : (a : F) → less a a ≡ false
    pub connected : (a b : F) → less a b ≡ false → at_most fl str b a ≡ true
    pub less_at_most : (a b c : F) → less a b ≡ true → at_most fl str b c ≡ true → less a c ≡ true
    pub at_most_less : (a b c : F) → at_most fl str a b ≡ true → less b c ≡ true → less a c ≡ true

  -- Each phase ends after its start, and the next starts where it ends.
  abbrev pub IsContiguous : F → List (Phase F) → Type 0
  IsContiguous from [] = Unit
  IsContiguous from (ph ∷ phs) =
      (ph.start_min ≡ from) × (less ph.start_min ph.end_min ≡ true) × IsContiguous ph.end_min phs

  -- Where the last phase ends.
  abbrev pub end_of : F → List (Phase F) → F
  end_of from [] = from
  end_of from (ph ∷ phs) = end_of ph.end_min phs

  module _ (order : IsOrder) where
    none_before :
        (phs : List (Phase F)) (from e : F)
        → IsContiguous from phs
        → less e from ≡ true
        → All (λ q. within fl str e q ≡ false) phs
    none_before [] from e h early = tt
    none_before (ph ∷ phs) from e (at, grows, rest) early = (
      ground (arith, at, order.less_at_most e ph.start_min e (rw at early), order.irreflexive e),
      none_before phs ph.end_min e rest
          (order.less_at_most e ph.start_min ph.end_min (rw at early) (rw grows refl)),
    )

    -- On a contiguous timeline, at a time from its start until its end, `_active_phase` finds a
    -- phase, and no other phase of the timeline contains that time.
    pub active_phase_once :
        (phs : List (Phase F)) (from e : F)
        → IsContiguous from phs
        → at_most fl str from e ≡ true
        → less e (end_of from phs) ≡ true
        → (ph : Phase F) × (active_phase fl str e phs ≡ some ph)
          × (within fl str e ph ≡ true)
          × All (λ q. within fl str e q ≡ true → q ≡ ph) phs
    unfolding active_phase
    active_phase_once [] from e h begun before =
        absurd (ground (arith, order.at_most_less from e from begun before, order.irreflexive from))
    active_phase_once (ph ∷ phs) from e (at, grows, rest) begun before =
        elim (Bool-cases (less e ph.end_min)) [
          | inl inside ↦
              let here : within fl str e ph ≡ true = rw (at, begun, inside) refl in
              (
                ph,
                rw here refl,
                here,
                (
                  λ h. refl,
                  All-map_of (λ q. within fl str e q ≡ false) _ phs (λ q no yes. cc)
                      (none_before phs ph.end_min e rest inside),
                ),
              )
          | inr late ↦
              let out : within fl str e ph ≡ false = ground (arith, late) in
              let (found, same, holds, alone) =
                active_phase_once phs ph.end_min e rest (order.connected e ph.end_min late)
                  before in
              (found, rw out same, holds, (λ h. cc, alone))
        ]

    end_of-at_most :
        (phs : List (Phase F)) (from : F)
        → IsContiguous from phs
        → at_most fl str from (end_of from phs) ≡ true
    end_of-at_most [] from h = order.connected from from (order.irreflexive from)
    end_of-at_most (ph ∷ phs) from (at, grows, rest) =
        let before : less from (end_of ph.end_min phs) ≡ true =
          order.less_at_most from ph.end_min (end_of ph.end_min phs) (rw at at grows)
            (end_of-at_most phs ph.end_min rest) in
        rw before refl

    active_phase_after :
        (phs : List (Phase F)) (from e : F)
        → IsContiguous from phs
        → at_most fl str (end_of from phs) e ≡ true
        → active_phase fl str e phs ≡ none
    unfolding active_phase
    active_phase_after [] from e h over = refl
    active_phase_after (ph ∷ phs) from e (at, grows, rest) over =
        elim (Bool-cases (less e ph.end_min)) [
          | inl inside ↦ absurd (
              ground (
                arith,
                order.irreflexive e,
                order.less_at_most e (end_of ph.end_min phs) e
                    (order.less_at_most e ph.end_min (end_of ph.end_min phs) inside
                      (end_of-at_most phs ph.end_min rest))
                    over,
              ))
          | inr past ↦
              let out : within fl str e ph ≡ false = ground (arith, past) in
              rw out (active_phase_after phs ph.end_min e rest over)
        ]

    -- At or after the end of a contiguous timeline no phase is active: a tick changes nothing, so
    -- x stays at the last phase's value.
    pub tick_after_end :
        (phs : List (Phase F)) (from e : F) (works : Bool) (r : Run F)
        → IsContiguous from phs
        → at_most fl str (end_of from phs) e ≡ true
        → tick fl str phs r (e, works) ≡ r
    unfolding tick
    tick_after_end phs from e works r h over = rw (tick, active_phase_after phs from e h over) refl
