-- ===== src/KernelParts/ContainerOf.antt =====
-- 26.内核组件/driver/container_of/container_of.c: from the address of a field to that of the struct.
use linux_driver_kb.Prelude.{ℕ, ◌+◌, ◌-◌, ◌%◌, ◌^◌, ◌≤◌, ◌<◌, ◌≡◌, refl, List, [], ◌∷◌, arith}

pub data Field : Type 0 where
  a b c : Field

-- Where the compiler puts the fields of struct p, and the struct's size.
pub record Layout : Type 0 where
  pub offsetof : Field → ℕ
  pub sizeof : ℕ
  pub inside : (f : Field) → offsetof f < sizeof

module _ (l : Layout) where
  -- Addresses have 64 bits, and pointers wrap.
  abbrev pub address_of : ℕ → Field → ℕ
  address_of p f = (p + l.offsetof f) % 2 ^ 64

  unfoldable pub container_of : ℕ → Field → ℕ
  container_of ptr f = (ptr + (2 ^ 64 - l.offsetof f)) % 2 ^ 64

  -- What the test prints of each field: the struct that is found, and the offset.
  unfoldable pub container_of_test_init : ℕ → List (ℕ × ℕ)
  unfolding container_of
  container_of_test_init p =
      (container_of (address_of p a) a, l.offsetof a)
      ∷ (container_of (address_of p b) b, l.offsetof b)
      ∷ (container_of (address_of p c) c, l.offsetof c)
      ∷ []

  -- The struct is found from each of its fields, wherever in memory it lies.
  pub container_of-address_of :
      (p : ℕ) (f : Field) → p + l.sizeof ≤ 2 ^ 64 → container_of (address_of p f) f ≡ p
  unfolding container_of
  container_of-address_of p f fits = omega (arith, l.inside f)

  -- The test prints the struct's own address three times.
  pub container_of_test_init-prints :
      (p : ℕ)
      → p + l.sizeof ≤ 2 ^ 64
      → container_of_test_init p ≡ (p, l.offsetof a) ∷ (p, l.offsetof b) ∷ (p, l.offsetof c) ∷ []
  unfolding container_of_test_init
  container_of_test_init-prints p fits =
      rw
        (
          container_of-address_of p a fits,
          container_of-address_of p b fits,
          container_of-address_of p c fits,
        )
        refl
