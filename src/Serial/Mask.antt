-- ===== src/Serial/Mask.antt =====
-- The index after the last one is 0: masking by 4095 is the remainder by 4096.
use Prim.Native.Nat.{bit_and}
use linux_driver_kb.Prelude.{◌+◌, ◌%◌, ◌<◌, ◌≡◌, refl, true, ℕ, ◌==◌, ==_iff}
use linux_driver_kb.Prelude.Every.{every, every-below}

all_masked : every 4096 (λ t. bit_and (t + 1) 4095 == (t + 1) % 4096) ≡ true
unfolding every
all_masked = refl

pub bit_and-mask : (t : ℕ) → t < 4096 → bit_and (t + 1) 4095 ≡ (t + 1) % 4096
bit_and-mask t h =
    (==_iff _ _).0 (every-below 4096 t (λ t. bit_and (t + 1) 4095 == (t + 1) % 4096) all_masked h)
