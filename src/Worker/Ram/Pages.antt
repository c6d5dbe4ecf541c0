-- ===== src/Worker/Ram/Pages.antt =====
-- The buffer holds the bytes asked for in whole pages, and no page more than they need.
use cloud_native_emulator.Prelude.{
  ℕ, ◌+◌, ◌-◌, ◌*◌, ◌/◌, ◌≤◌, ◌<◌, ◌≡◌, ◌⊎◌, inl, inr, refl, true, Option, none, some, arith, ltb,
  Bool-cases,
}
use cloud_native_emulator.Prelude.Float.{Float}
use cloud_native_emulator.Prelude.Int.{pos}
use cloud_native_emulator.Prelude.Result.{Result, Error, ok, err}
use cloud_native_emulator.Worker.Ram.{allot, page_size, buffer_of, bytes_of, start_ram}

-- No buffer for less than a page, and otherwise the fewest whole pages that hold the bytes.
abbrev pub Fits : ℕ → Option ℕ → Type 0
Fits n none = n < page_size
Fits n (some size) =
    (page_size ≤ n)
    × (n ≤ size)
    × (size < n + page_size)
    × ((pages : ℕ) × (size ≡ pages * page_size))

Option-cases : {V : Type 0} (o : Option V) → (o ≡ none) ⊎ ((v : V) × (o ≡ some v))
Option-cases none = inl refl
Option-cases (some v) = inr (v, refl)

buffer_of-Fits : (n : ℕ) → Fits n (buffer_of (pos n))
unfolding buffer_of
buffer_of-Fits n = elim (Bool-cases (ltb n page_size)) [
  | inl small ↦ rw small (ground arith)
  | inr big ↦
      rw big (ground arith, omega arith, omega arith, ((n + page_size - 1) / page_size, refl))
]

-- What start_ram comes to: the buffer that fits, or the refusal of just the size that fits.
abbrev pub Outcome : (ℕ → Option Error) → ℕ → Result (Option ℕ) → Type 0
Outcome refuses n r =
    ((buffer : Option ℕ) × (r ≡ ok buffer) × Fits n buffer)
    ⊎ ((size : ℕ) × (why : Error) × Fits n (some size) × (refuses size ≡ some why) × (r ≡ err why))

allot-Outcome :
    (refuses : ℕ → Option Error) (n : ℕ) (buffer : Option ℕ)
    → Fits n buffer
    → Outcome refuses n (allot refuses buffer)
allot-Outcome refuses n none h = inl (none, refl, h)
allot-Outcome refuses n (some size) h = elim (Option-cases (refuses size)) [
  | inl granted ↦ inl (some size, rw granted refl, h)
  | inr (why, refused) ↦ inr (size, why, h, refused, rw refused refl)
]

-- For a positive amount that comes to a whole number of bytes: start_ram makes no buffer if they
-- fill no page, and otherwise asks for the fewest whole pages that hold them. It returns that
-- buffer, or raises the error with which just that size is refused.
pub start_ram-Fits :
    (fl : Float) (refuses : ℕ → Option Error) (ram_mb : fl.F) (n : ℕ)
    → fl.less (fl.of_int (pos 0)) ram_mb ≡ true
    → bytes_of fl ram_mb ≡ ok (pos n)
    → Outcome refuses n (start_ram fl refuses ram_mb)
unfolding start_ram
start_ram-Fits fl refuses ram_mb n positive bytes =
    rw (positive, bytes) (allot-Outcome refuses n (buffer_of (pos n)) (buffer_of-Fits n))
