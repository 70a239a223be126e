-- ===== src/Rtc/Masks.antt =====
-- The masks of the time registers are remainders.
use Prim.Native.Nat.{bit_and}
use linux_driver_kb.Prelude.{ℕ, ◌%◌, ◌<◌, ◌≡◌, refl, true, ◌&&◌, ◌==◌, ◌-◌, Bool, arith}
use linux_driver_kb.Prelude.Every.{every, every-below}

masked : ℕ → ℕ → Bool
masked x size = bit_and x (size - 1) == x % size

all_masked : every 256 (λ x. masked x 128 && masked x 64 && masked x 32 && masked x 8) ≡ true
unfolding every masked
all_masked = refl

pub bit_and-masks :
    (x : ℕ)
    → x < 256
    → (bit_and x 0x7f ≡ x % 128)
      × (bit_and x 0x3f ≡ x % 64)
      × (bit_and x 0x1f ≡ x % 32)
      × (bit_and x 0x07 ≡ x % 8)
unfolding masked
bit_and-masks x h = ground (
  arith,
  every-below 256 x (λ x. masked x 128 && masked x 64 && masked x 32 && masked x 8) all_masked h,
)
