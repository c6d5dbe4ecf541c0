-- ===== src/Worker/Watcher/Tests.antt =====
-- A watcher whose first timer is due now.
use cloud_native_emulator.Prelude.{◌≡◌, refl, some, [], ◌∷◌, foldl, ◌==◌, if◌then◌else◌}
use cloud_native_emulator.Worker.Watcher.{
  Watcher, waiting, over, wait, fire, reload, move, maybe_reload, do_reload, cancel,
}
use cloud_native_emulator.Worker.Watcher.Debounce.{Reaches, event-Reaches}

abbrev due_now : Watcher
due_now = record {
  now = 5000;
  next = 1;
  phase = λ i. if i == 0 then waiting 5000 else over;
  timer = some 0;
  reloads = [];
}

program : Unit {0}
unfolding move maybe_reload do_reload cancel
program = tt

fire-reload : (foldl move due_now (fire 0 ∷ reload 0 ∷ [])).reloads ≡ 5000 ∷ []
unfolding program
fire-reload = refl

-- An event cancels the timer before it fires.
maybe_reload-fire : (foldl move (maybe_reload due_now) (fire 0 ∷ reload 0 ∷ [])).reloads ≡ []
unfolding program
maybe_reload-fire = refl

-- An event between the two leaves a timer that the next event does not cancel.
abbrev raced : Watcher
raced = maybe_reload (move (maybe_reload (move due_now (fire 0))) (reload 0))

raced-timers : (raced.phase 1 ≡ waiting 7000) × (raced.phase 2 ≡ waiting 7000)
unfolding program
raced-timers = (refl, refl)

event-Reaches_example :
    Reaches 1 7000 (foldl move (maybe_reload due_now) (fire 0 ∷ wait ∷ fire 1 ∷ reload 1 ∷ []))
event-Reaches_example = event-Reaches due_now (fire 0 ∷ wait ∷ fire 1 ∷ reload 1 ∷ [])
