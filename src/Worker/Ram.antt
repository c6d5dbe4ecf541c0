-- ===== src/Worker/Ram.antt =====
-- worker/loads.py, `start_ram`: the buffer that stands for the RAM load, as its size in bytes.
pub mod Pages
mod Tests
use cloud_native_emulator.Prelude.{
  ℕ, ◌+◌, ◌-◌, ◌*◌, ◌/◌, Bool, true, false, Option, none, some, if◌then◌else◌, ltb,
}
use cloud_native_emulator.Prelude.Float.{Float}
use cloud_native_emulator.Prelude.Int.{ℤ, pos, negsuc}
use cloud_native_emulator.Prelude.Result.{Result, Error, ok, err, overflow_error, ◌>>=◌}

-- PAGE_SIZE
abbrev pub page_size : ℕ
page_size = 4096

-- ((n_bytes + PAGE_SIZE - 1) // PAGE_SIZE) * PAGE_SIZE
unfoldable pub whole_pages : ℕ → ℕ
whole_pages n = ((n + page_size - 1) / page_size) * page_size

-- The buffer for a number of bytes: none if they fill no page.
unfoldable pub buffer_of : ℤ → Option ℕ
unfolding whole_pages
buffer_of (negsuc n) = none
buffer_of (pos n) = if ltb n page_size then none else some (whole_pages n)

-- mmap.mmap(-1, size): `refuses` gives the OSError or OverflowError of a size that it cannot map.
abbrev pub allotted : Option Error → ℕ → Result (Option ℕ)
allotted none size = ok (some size)
allotted (some why) size = err why

abbrev pub allot : (ℕ → Option Error) → Option ℕ → Result (Option ℕ)
allot refuses none = ok none
allot refuses (some size) = allotted (refuses size) size

module _ (fl : Float) where
  open fl use {F, of_int, mul, less, trunc}

  -- int(ram_mb * 1024 * 1024)
  unfoldable pub bytes_of : F → Result ℤ
  bytes_of ram_mb = elim (trunc (mul (mul ram_mb (of_int (pos 1024))) (of_int (pos 1024)))) [
    | none ↦ err overflow_error
    | some n ↦ ok n
  ]

  -- `start_ram`, which gives up the old buffer first: the new RAM_BUFFER. Where it raises, there
  -- is none. (`ram_mb <= 0` of a number.)
  unfoldable pub start_ram : (ℕ → Option Error) → F → Result (Option ℕ)
  unfolding bytes_of buffer_of
  start_ram refuses ram_mb =
      let bytes = bytes_of ram_mb in
      if less (of_int (pos 0)) ram_mb then (bytes >>= λ n. allot refuses (buffer_of n)) else ok none
