-- ===== src/Tmp75/Tests.antt =====
-- The thermometer at concrete values.
use linux_driver_kb.Prelude.{
  ℕ, ◌+◌, ◌-◌, ◌*◌, ◌^◌, ◌≡◌, refl, ◌/◌, ◌%◌, [], ◌∷◌, get_or, ◌==◌, if◌then◌else◌, arith,
}
use linux_driver_kb.Prelude.Int.{pos, negsuc, ◌+ℤ◌, ◌≤ℤ◌, ◌<ℤ◌}
use linux_driver_kb.Tmp75.{Regmap, Priv, resolution, to_short, scale, temperature}
use linux_driver_kb.Tmp75.Degrees.{temperature-near}
use linux_driver_kb.Tmp75.I2c
use linux_driver_kb.Tmp75.I2c.{Bus}
use linux_driver_kb.Tmp75.Map.{Core, big_endian, tmp75_regmap_config, tmp75_is_volatile_reg}

half_a_degree : temperature 9 0x1980 ≡ pos 25500
unfolding temperature
half_a_degree = refl

below_zero : temperature 12 0xfff0 ≡ negsuc 62
unfolding temperature
below_zero = refl

temperature-near_example :
    let bits = get_or resolution 3 0 in
    let t = temperature bits 0xe700 in
    (scale 255 t ≤ℤ scale 999 (to_short 0xe700))
    × (scale 999 (to_short 0xe700) <ℤ scale 255 t +ℤ pos (256 + 1000 * 2 ^ (16 - bits)))
    × (negsuc 127999 ≤ℤ t)
    × (t ≤ℤ pos 127999)
temperature-near_example = temperature-near 3 0xe700 (omega arith)

-- The bus answers with two bytes; the register map reads a volatile register over it.
abbrev wire : Bus
wire = record {
  Chip = ℕ × ℕ;
  send = λ c bytes. (pos 2, c);
  exchange = λ c reg len. (pos 2, c.0 / 2 ^ 8 ∷ c.0 % 2 ^ 8 ∷ []);
}

-- A map that caches the configuration register and sends a write only where the value changes.
abbrev sensor : Regmap
sensor = record {
  Chip = ℕ × ℕ;
  read = λ c reg.
      if reg == 0 then (pos 0, big_endian (c.0 / 2 ^ 8 ∷ c.0 % 2 ^ 8 ∷ []) 0) else (pos 0, c.1);
  update_bits = λ c reg mask val. (pos 0, (c.0, val));
}

sensor_core : Core wire tmp75_regmap_config
unfolding tmp75_is_volatile_reg
sensor_core = record {
  map = sensor;
  chip = λ c. c;
  volatile_reads = λ m reg small volatile. (λ bad. cc bad, λ good. rw volatile refl);
}

abbrev cold : Priv sensor
cold = record { resolution_cfg = 3; chip = (0xe700, 0) }
