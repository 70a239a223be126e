-- ===== src/Tmp75/Degrees.antt =====
-- What the temperature is worth.
use linux_driver_kb.Prelude.{ℕ, zero, suc, ◌+◌, ◌-◌, ◌*◌, ◌≤◌, ◌^◌, arith, get_or}
use linux_driver_kb.Prelude.Int.{pos, negsuc, ◌+ℤ◌, ◌≤ℤ◌, ◌<ℤ◌}
use linux_driver_kb.Tmp75.{resolution, to_short, scale, temperature, bit_12}

-- The register holds 256ths of a degree as a signed number of 16 bits. For each of the four
-- resolutions the result in thousandths is at most the temperature, and by less than a thousandth and
-- one step of the resolution below it; and it lies between -128000 and 127999, so no `int` overflows.
pub temperature-near :
    (cfg val : ℕ)
    → cfg ≤ bit_12
    → let bits = get_or resolution cfg 0 in
      let t = temperature bits val in
      (scale 255 t ≤ℤ scale 999 (to_short val))
      × (scale 999 (to_short val) <ℤ scale 255 t +ℤ pos (256 + 1000 * 2 ^ (16 - bits)))
      × (negsuc 127999 ≤ℤ t)
      × (t ≤ℤ pos 127999)
unfolding temperature
temperature-near zero val h = ground arith
temperature-near (suc zero) val h = ground arith
temperature-near (suc (suc zero)) val h = ground arith
temperature-near (suc (suc (suc zero))) val h = ground arith
temperature-near (suc (suc (suc (suc n)))) val h = ground arith
