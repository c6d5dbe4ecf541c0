-- ===== src/Worker/Ram/Tests.antt =====
-- A buffer of 64 MB.
use cloud_native_emulator.Prelude.{ℕ, ◌≡◌, refl, Option, none}
use cloud_native_emulator.Prelude.Int.{pos, ◌*ℤ◌}
use cloud_native_emulator.Prelude.Result.{Error}
use cloud_native_emulator.Samples.{whole}
use cloud_native_emulator.Worker.Ram.{bytes_of, whole_pages, start_ram}
use cloud_native_emulator.Worker.Ram.Pages.{Outcome, start_ram-Fits}

whole_pages-rounds : whole_pages 10000 ≡ 12288
unfolding whole_pages
whole_pages-rounds = refl

abbrev refuses_none : ℕ → Option Error
refuses_none size = none

start_ram-Fits_example : Outcome refuses_none 67108864 (start_ram whole refuses_none (pos 64))
unfolding bytes_of ◌*ℤ◌
start_ram-Fits_example = start_ram-Fits whole refuses_none (pos 64) 67108864 refl refl
