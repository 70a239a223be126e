-- ===== src/Kernel/FlatCopy.antt =====
-- User memory that is mapped as far as the buffer goes: an instance of what `User` asks for.
use linux_driver_kb.Prelude.{
  ℕ, ◌+◌, ◌-◌, ◌≤◌, ◌<◌, ◌≡◌, ◌⊎◌, refl, List, length, get_or, take, arith, length-take,
}
use linux_driver_kb.Prelude.Bytes.{splice, length-splice, get_or-splice_out}
use linux_driver_kb.Kernel.User.{UserCopy, Mapped}

abbrev flat_from : List ℕ → ℕ → List ℕ → ℕ → ℕ × List ℕ
flat_from mem p buf n = (n - length buf, splice p (take n buf) mem)

pub flat_from_all :
    (mem : List ℕ) (p : ℕ) (buf : List ℕ) (n : ℕ)
    → (flat_from mem p buf n).0 ≡ 0
    → (n ≤ length buf) × ((flat_from mem p buf n).1 ≡ splice p (take n buf) mem)
flat_from_all mem p buf n e = (omega arith, refl)

pub flat_from_frame :
    (mem : List ℕ) (p : ℕ) (buf : List ℕ) (n i d : ℕ)
    → ((i < p) ⊎ (p + n ≤ i))
    → get_or (flat_from mem p buf n).1 i d ≡ get_or mem i d
flat_from_frame mem p buf n i d h =
    get_or-splice_out p (take n buf) mem i d (omega (arith, length-take n buf))

abbrev pub flat_copy : UserCopy
flat_copy = record {
  from_user = flat_from;
  to_user = λ bs. (0, bs);
  from_user_all = flat_from_all;
  to_user_all = λ bs e. refl;
  from_user_size = λ mem p buf n. length-splice p (take n buf) mem;
  from_user_frame = flat_from_frame;
}

pub flat_copy-Mapped : Mapped flat_copy
flat_copy-Mapped = record { readable = λ mem p buf n h. omega arith; writable = λ bs. refl }
