-- ===== src/Worker/Watcher.antt =====
-- worker/watcher.py, the debounce of ConfigWatcher: `_maybe_reload` and `_do_reload` over the
-- timers that were started, with the moments at which a timer fires and its thread gets the lock
-- as steps of their own.
pub mod Debounce
mod Tests
use cloud_native_emulator.Prelude.{
  ℕ, suc, ◌+◌, Option, none, some, List, [], ◌∷◌, if◌then◌else◌, leb, ◌==◌,
}

-- A timer: started and due at a time; fired, its thread before the lock; or done or cancelled.
pub data Phase : Type 0 where
  waiting : ℕ → Phase
  fired : Phase
  over : Phase

-- Times are in milliseconds. Timers are numbered in the order in which they are started; `timer`
-- is self._timer, and `reloads` has the times of the calls of `_load_and_apply`.
pub record Watcher : Type 0 where
  pub now : ℕ
  pub next : ℕ
  pub phase : ℕ → Phase
  pub timer : Option ℕ
  pub reloads : List ℕ

-- _DEBOUNCE_S
abbrev pub debounce_ms : ℕ
debounce_ms = 2000

abbrev pub set_phase : ℕ → Phase → (ℕ → Phase) → ℕ → Phase
set_phase i p phases q = if q == i then p else phases q

-- Timer.cancel, which does nothing to a timer that has fired
abbrev pub cancelled : Phase → Phase
cancelled (waiting due) = over
cancelled fired = fired
cancelled over = over

unfoldable pub cancel : Option ℕ → (ℕ → Phase) → ℕ → Phase
cancel none phases = phases
cancel (some i) phases = set_phase i (cancelled (phases i)) phases

-- `_maybe_reload`
unfoldable pub maybe_reload : Watcher → Watcher
unfolding cancel
maybe_reload w = record {
  now = w.now;
  next = suc w.next;
  phase = set_phase w.next (waiting (w.now + debounce_ms)) (cancel w.timer w.phase);
  timer = some w.next;
  reloads = w.reloads;
}

-- `_do_reload` of timer i, when its thread has the lock
unfoldable pub do_reload : ℕ → Watcher → Watcher
do_reload i w = record {
  now = w.now;
  next = w.next;
  phase = set_phase i over w.phase;
  timer = none;
  reloads = w.now ∷ w.reloads;
}

-- A millisecond passes, a timer fires if it is due, or the thread of one that has fired goes on.
pub data Move : Type 0 where
  wait : Move
  fire : ℕ → Move
  reload : ℕ → Move

abbrev pub fire_at : ℕ → Phase → Watcher → Watcher
fire_at i (waiting due) w =
    if leb due w.now
    then record {
      now = w.now;
      next = w.next;
      phase = set_phase i fired w.phase;
      timer = w.timer;
      reloads = w.reloads;
    }
    else w
fire_at i fired w = w
fire_at i over w = w

abbrev pub reload_at : ℕ → Phase → Watcher → Watcher
unfolding do_reload
reload_at i fired w = do_reload i w
reload_at i (waiting due) w = w
reload_at i over w = w

unfoldable pub move : Watcher → Move → Watcher
unfolding do_reload
move w wait = record {
  now = suc w.now;
  next = w.next;
  phase = w.phase;
  timer = w.timer;
  reloads = w.reloads;
}
move w (fire i) = fire_at i (w.phase i) w
move w (reload i) = reload_at i (w.phase i) w
