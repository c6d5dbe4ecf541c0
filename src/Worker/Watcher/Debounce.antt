-- ===== src/Worker/Watcher/Debounce.antt =====
-- An event is never lost.
use cloud_native_emulator.Prelude.{
  ℕ, ap, ◌+◌, ◌≤◌, ◌≡◌, ◌⊎◌, inl, inr, refl, Bool-cases, List, [], ◌∷◌, foldl, arith, leb, ◌==◌,
}
use cloud_native_emulator.Worker.Watcher.{
  Watcher, Phase, waiting, fired, over, Move, wait, fire, reload, move, maybe_reload, do_reload,
  debounce_ms, fire_at, reload_at,
}

-- One of the times is `due` or later.
abbrev pub HasSince : ℕ → List ℕ → Type 0
HasSince due [] = ⊥
HasSince due (t ∷ ts) = (due ≤ t) ⊎ HasSince due ts

-- Timer i, which is due at a time, waits for it, or has fired since, or the configuration was
-- loaded since.
abbrev pub Reaches : ℕ → ℕ → Watcher → Type 0
Reaches i due w =
    (w.phase i ≡ waiting due) ⊎ ((w.phase i ≡ fired) × (due ≤ w.now)) ⊎ HasSince due w.reloads

abbrev due_of : Phase → ℕ
due_of (waiting d) = d
due_of fired = 0
due_of over = 0

due_of_waiting : (a b : ℕ) → waiting a ≡ waiting b → a ≡ b
due_of_waiting a b e = ap due_of e

due_timer-fired :
    (i due d now : ℕ) (p : Phase) (reloads : List ℕ)
    → p ≡ waiting d
    → d ≤ now
    → (p ≡ waiting due) ⊎ ((p ≡ fired) × (due ≤ now)) ⊎ HasSince due reloads
    → (fired ≡ waiting due) ⊎ ((fired ≡ fired) × (due ≤ now)) ⊎ HasSince due reloads
due_timer-fired i due d now p reloads e is_due (inl h) =
    let same : due ≡ d = due_of_waiting due d (cc (e, h)) in
    inr (inl (refl, omega (arith, same, is_due)))
due_timer-fired i due d now p reloads e is_due (inr (inl h)) = cc (e, h.0)
due_timer-fired i due d now p reloads e is_due (inr (inr h)) = inr (inr h)

fire_at-Reaches :
    (i due j : ℕ) (p : Phase) (w : Watcher)
    → w.phase j ≡ p
    → Reaches i due w
    → Reaches i due (fire_at j p w)
fire_at-Reaches i due j fired w e h = h
fire_at-Reaches i due j over w e h = h
fire_at-Reaches i due j (waiting d) w e h = elim (Bool-cases (leb d w.now)) [
  | inr early ↦ rw early h
  | inl ready ↦ rw ready (elim (Bool-cases (i == j)) [
    | inr other ↦ rw other h
    | inl same ↦
        let i_is_j : i ≡ j = ground (arith, same) in
        rw same (
          due_timer-fired i due d w.now (w.phase i) w.reloads (cc (i_is_j, e))
            (ground (arith, ready)) h)
  ])
]

reload_at-Reaches :
    (i due j : ℕ) (p : Phase) (w : Watcher)
    → w.phase j ≡ p
    → Reaches i due w
    → Reaches i due (reload_at j p w)
unfolding do_reload
reload_at-Reaches i due j (waiting d) w e h = h
reload_at-Reaches i due j over w e h = h
reload_at-Reaches i due j fired w e (inr (inr h)) = inr (inr (inr h))
reload_at-Reaches i due j fired w e (inr (inl (h, is_due))) = inr (inr (inl is_due))
reload_at-Reaches i due j fired w e (inl h) = elim (Bool-cases (i == j)) [
  | inr other ↦ inl (rw other h)
  | inl same ↦ let i_is_j : i ≡ j = ground (arith, same) in cc (i_is_j, e, h)
]

move-Reaches : (i due : ℕ) (m : Move) (w : Watcher) → Reaches i due w → Reaches i due (move w m)
unfolding move
move-Reaches i due wait w (inl h) = inl h
move-Reaches i due wait w (inr (inl (h, d))) = inr (inl (h, omega (arith, d)))
move-Reaches i due wait w (inr (inr h)) = inr (inr h)
move-Reaches i due (fire j) w h = fire_at-Reaches i due j (w.phase j) w refl h
move-Reaches i due (reload j) w h = reload_at-Reaches i due j (w.phase j) w refl h

moves-Reaches :
    (i due : ℕ) (ms : List Move) (w : Watcher) → Reaches i due w → Reaches i due (foldl move w ms)
moves-Reaches i due [] w h = h
moves-Reaches i due (m ∷ ms) w h = moves-Reaches i due ms (move w m) (move-Reaches i due m w h)

maybe_reload-Reaches : (w : Watcher) → Reaches w.next (w.now + debounce_ms) (maybe_reload w)
unfolding maybe_reload
maybe_reload-Reaches w = ground arith

-- However the timers and their threads go on after an event, as long as no other event comes,
-- the timer that the event started waits for the end of the two seconds or has fired after it,
-- or the configuration was loaded after it.
pub event-Reaches :
    (w : Watcher) (ms : List Move)
    → Reaches w.next (w.now + debounce_ms) (foldl move (maybe_reload w) ms)
event-Reaches w ms =
    moves-Reaches w.next (w.now + debounce_ms) ms (maybe_reload w) (maybe_reload-Reaches w)
