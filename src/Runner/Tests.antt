-- ===== src/Runner/Tests.antt =====
-- A scenario of two phases, and the runner's theorems there.
use cloud_native_emulator.Prelude.{
  ℕ, suc, ◌≤◌, ◌≡◌, refl, String, Bool, true, false, none, some, List, [], ◌∷◌, foldl, arith, All,
  length, text_dec,
}
use cloud_native_emulator.Prelude.Int.{ℤ, pos}
use cloud_native_emulator.Prelude.Sets.{contains}
use cloud_native_emulator.Samples.{whole}
use cloud_native_emulator.Template.{number}
use cloud_native_emulator.Runner.{Phase, active_phase, within, phase_key, tick, run, fresh, enter}
use cloud_native_emulator.Runner.Registry.{
  Call, starts, calls, calls-IsSingle, IsSingle, is_stopped, start, stop, stop_current, set_stopped,
  call,
}
use cloud_native_emulator.Runner.Timeline.{IsOrder, active_phase_once}
use cloud_native_emulator.Runner.Tracking.{applied, run-tracks, ticks-apply_once, successes}

abbrev show : ℤ → String
show n = "start"

abbrev morning : Phase ℤ
morning = record { phase_id = some "am"; start_min = pos 0; end_min = pos 10; x = number (pos 5) }

abbrev noon : Phase ℤ
noon = record { phase_id = none; start_min = pos 10; end_min = pos 15; x = number (pos 80) }

abbrev phases : List (Phase ℤ)
phases = morning ∷ noon ∷ []

program : Unit {0}
unfolding active_phase phase_key tick run enter contains text_dec
program = tt

-- The first call fails and is made again; the next tick is in the same phase; then noon comes.
abbrev ticks : List (ℤ × Bool)
ticks = (pos 1, false) ∷ (pos 2, true) ∷ (pos 9, true) ∷ (pos 10, true) ∷ (pos 20, true) ∷ []

run-phases :
    (run whole show phases ticks).calls
    ≡ (number (pos 80), true) ∷ (number (pos 5), true) ∷ (number (pos 5), false) ∷ []
unfolding program
run-phases = refl

whole-IsOrder : IsOrder whole show
whole-IsOrder = record {
  irreflexive = λ a. ground arith;
  connected = λ a b h. ground (arith, h);
  less_at_most = λ a b c h k. ground (arith, h, k);
  at_most_less = λ a b c h k. ground (arith, h, k);
}

active_phase_once_example :
    (ph : Phase ℤ) × (active_phase whole show (pos 12) phases ≡ some ph)
    × (within whole show (pos 12) ph ≡ true)
    × All (λ q. within whole show (pos 12) q ≡ true → q ≡ ph) phases
active_phase_once_example =
    active_phase_once whole show whole-IsOrder phases (pos 0) (pos 12)
      (refl, refl, (refl, refl, tt)) refl refl

noon_at_12 : active_phase whole show (pos 12) phases ≡ some noon
unfolding program
noon_at_12 = refl

run-tracks_example :
    applied (tick whole show phases (run whole show phases ticks) (pos 12, true)).calls
    ≡ some (number (pos 80))
unfolding program
run-tracks_example = run-tracks whole show phases ticks (pos 12) noon (refl, (refl, tt)) noon_at_12

ticks-apply_once_example :
    successes whole show
      (foldl (tick whole show phases) (fresh whole show) ((pos 12, false) ∷ (pos 12, true) ∷ []))
    ≤ suc (successes whole show (fresh whole show))
ticks-apply_once_example =
    ticks-apply_once whole show phases noon ((pos 12, false) ∷ (pos 12, true) ∷ [])
      (fresh whole show) (noon_at_12, (noon_at_12, tt))

-- A second scenario replaces the first; one without phases leaves it going.
abbrev history : List (Call (Phase ℤ))
history = starts phases ∷ starts phases ∷ starts [] ∷ []

calls-IsSingle_example :
    IsSingle (calls history)
    × ((i : ℕ) → is_stopped (stop (calls history)).stopped i ≡ true)
    × ((p : Phase ℤ) (ps : List (Phase ℤ))
        → (start (p ∷ ps) (calls history)).current ≡ some (length (stop_current (calls history)))
          × (is_stopped
                (start (p ∷ ps) (calls history)).stopped
                (length (stop_current (calls history)))
              ≡ false))
calls-IsSingle_example = calls-IsSingle history

history-running : (calls history).current ≡ some 1
unfolding call start stop stop_current set_stopped
history-running = refl
