-- ===== src/Shaping/Rates.antt =====
-- `_tc_rate` writes a rate in the largest unit that holds it exactly.
use cloud_native_emulator.Prelude.{ℕ, ◌*◌, ◌≡◌, arith}
use cloud_native_emulator.Shaping.{Rate, gbit, mbit, bit, billion, million, rate_of_bits}

-- Bits per second.
abbrev pub bits_of : Rate → ℕ
bits_of (gbit n) = n * billion
bits_of (mbit n) = n * million
bits_of (bit n) = n

-- Whatever the rate, the text that tc gets stands for exactly as many bits per second.
pub rate_of_bits-exact : (bits : ℕ) → bits_of (rate_of_bits bits) ≡ bits
unfolding rate_of_bits
rate_of_bits-exact bits = ground arith
