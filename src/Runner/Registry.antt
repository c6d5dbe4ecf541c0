-- ===== src/Runner/Registry.antt =====
-- `start` and `stop` of controller/runner.py, which keep one runner in the module's `_current`.
-- Runners are numbered in the order in which they are made; each has its stop event.
-- A runner whose event is set makes no further tick; that it may still be inside a call of its
-- last tick when the time limit of stop's join is over is not modelled.
use cloud_native_emulator.Prelude.{
  ℕ, ◌≡◌, refl, Bool, true, false, Option, none, some, List, [], ◌∷◌, arith, length, null,
  if◌then◌else◌, ◌==◌, Bool-cases, ◌≤◌, foldl,
}

-- The stop events of the runners made so far, the last one first, and `_current`.
pub record Registry : Type 0 where
  pub stopped : List Bool
  pub current : Option ℕ

-- The event of runner `i`; the first runner is number 0.
abbrev pub is_stopped : List Bool → ℕ → Bool
is_stopped [] i = true
is_stopped (b ∷ bs) i = if i == length bs then b else is_stopped bs i

-- `self._stop_event.set()`
unfoldable pub set_stopped : List Bool → ℕ → List Bool
set_stopped [] i = []
set_stopped (b ∷ bs) i = let rest = set_stopped bs i in (if i == length bs then true else b) ∷ rest

-- `if _current is not None: _current.stop()`
unfoldable pub stop_current : Registry → List Bool
unfolding set_stopped
stop_current g = elim g.current [ none ↦ g.stopped | some i ↦ set_stopped g.stopped i ]

-- `start`, for a document with this timeline.
unfoldable pub start {ℓ} : {P : Type ℓ} → List P → Registry → Registry
unfolding stop_current
start phases g =
    if null phases
    then g
    else (record { stopped = false ∷ stop_current g; current = some (length (stop_current g)) })

-- `stop`
unfoldable pub stop : Registry → Registry
unfolding stop_current
stop g = record { stopped = stop_current g; current = none }

-- One call from the application.
pub data Call {ℓ} (P : Type ℓ) : Type ℓ where
  starts : List P → Call P
  stops : Call P

unfoldable pub call {ℓ} : {P : Type ℓ} → Registry → Call P → Registry
unfolding start stop
call g (starts phases) = start phases g
call g stops = stop g

-- Every runner whose stop event is not set is the current one.
abbrev pub IsSingle : Registry → Type 0
IsSingle g = (i : ℕ) → is_stopped g.stopped i ≡ false → g.current ≡ some i

length-set_stopped : (bs : List Bool) (i : ℕ) → length (set_stopped bs i) ≡ length bs
unfolding set_stopped
length-set_stopped [] i = refl
length-set_stopped (b ∷ bs) i = omega (arith, length-set_stopped bs i)

is_stopped-set_stopped :
    (bs : List Bool) (i j : ℕ)
    → is_stopped (set_stopped bs i) j ≡ (if j == i then true else is_stopped bs j)
unfolding set_stopped
is_stopped-set_stopped [] i j = ground arith
is_stopped-set_stopped (b ∷ bs) i j =
    rw (length-set_stopped bs i) (ground (arith, is_stopped-set_stopped bs i j))

is_stopped_beyond : (bs : List Bool) (i : ℕ) → length bs ≤ i → is_stopped bs i ≡ true
is_stopped_beyond [] i h = refl
is_stopped_beyond (b ∷ bs) i h = ground (arith, is_stopped_beyond bs i)

all_stopped :
    (bs : List Bool) (last : Option ℕ) (i : ℕ)
    → IsSingle (record { stopped = bs; current = last })
    → is_stopped (stop_current (record { stopped = bs; current = last })) i ≡ true
unfolding stop_current
all_stopped bs none i single = ground (arith, single i, Bool-cases (is_stopped bs i))
all_stopped bs (some k) i single =
    ground (arith, single i, is_stopped-set_stopped bs k i, Bool-cases (is_stopped bs i))

-- After `stop_current` no runner goes on.
stop_current_all : (g : Registry) (i : ℕ) → IsSingle g → is_stopped (stop_current g) i ≡ true
stop_current_all g i single = all_stopped g.stopped g.current i single

call-IsSingle : {P : Type 0} (c : Call P) (g : Registry) → IsSingle g → IsSingle (call g c)
unfolding call start stop
call-IsSingle (starts []) g single = single
call-IsSingle (starts (p ∷ ps)) g single = λ i h. ground (arith, stop_current_all g i single, h)
call-IsSingle stops g single = λ i h. ground (arith, stop_current_all g i single, h)

abbrev pub no_runner : Registry
no_runner = record { stopped = []; current = none }

abbrev pub calls {ℓ} : {P : Type ℓ} → List (Call P) → Registry
calls cs = foldl call no_runner cs

calls_from-IsSingle :
    {P : Type 0} (cs : List (Call P)) (g : Registry) → IsSingle g → IsSingle (foldl call g cs)
calls_from-IsSingle [] g single = single
calls_from-IsSingle (c ∷ cs) g single = calls_from-IsSingle cs (call g c) (call-IsSingle c g single)

-- After any calls of `start` and `stop`: a runner that is not stopped is the current one, so at
-- most one goes on; a `stop` then leaves none; and a `start` with some phase leaves a new one
-- going on.
pub calls-IsSingle :
    {P : Type 0} (cs : List (Call P))
    → IsSingle (calls cs)
      × ((i : ℕ) → is_stopped (stop (calls cs)).stopped i ≡ true)
      × ((p : P) (ps : List P)
          → (start (p ∷ ps) (calls cs)).current ≡ some (length (stop_current (calls cs)))
            × (is_stopped (start (p ∷ ps) (calls cs)).stopped (length (stop_current (calls cs)))
                ≡ false))
unfolding start stop
calls-IsSingle cs =
    let single = calls_from-IsSingle cs no_runner (λ i h. cc) in
    (single, λ i. stop_current_all (calls cs) i single, λ p ps. (refl, ground arith))
