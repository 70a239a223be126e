-- ===== src/Kernel/User.antt =====
-- copy_from_user and copy_to_user, which the kernel implements: what the drivers rely on.
use linux_driver_kb.Prelude.{ℕ, ◌+◌, ◌≤◌, ◌<◌, ◌≡◌, ◌⊎◌, List, length, get_or, take}
use linux_driver_kb.Prelude.Bytes.{splice}

-- A copy gives the number of bytes that it did not copy.
pub record UserCopy : Type 0 where
  -- `from_user mem p buf n`: the memory after a copy of `n` bytes of the user's `buf` to offset `p`.
  pub from_user : List ℕ → ℕ → List ℕ → ℕ → ℕ × List ℕ
  -- `to_user bs`: what reaches the user's buffer of a copy of `bs`.
  pub to_user : List ℕ → ℕ × List ℕ
  -- A copy with nothing left over has copied all, from a buffer that is large enough.
  pub from_user_all :
      (mem : List ℕ) (p : ℕ) (buf : List ℕ) (n : ℕ)
      → (from_user mem p buf n).0 ≡ 0
      → (n ≤ length buf) × ((from_user mem p buf n).1 ≡ splice p (take n buf) mem)
  pub to_user_all : (bs : List ℕ) → (to_user bs).0 ≡ 0 → (to_user bs).1 ≡ bs
  -- Whatever is copied, only the `n` bytes from `p` on may change.
  pub from_user_size :
      (mem : List ℕ) (p : ℕ) (buf : List ℕ) (n : ℕ) → length (from_user mem p buf n).1 ≡ length mem
  pub from_user_frame :
      (mem : List ℕ) (p : ℕ) (buf : List ℕ) (n i d : ℕ)
      → ((i < p) ⊎ (p + n ≤ i))
      → get_or (from_user mem p buf n).1 i d ≡ get_or mem i d

-- The user's buffers are mapped: every copy of bytes that are there succeeds.
pub record Mapped (u : UserCopy) : Type 0 where
  pub readable :
      (mem : List ℕ) (p : ℕ) (buf : List ℕ) (n : ℕ)
      → n ≤ length buf
      → (u.from_user mem p buf n).0 ≡ 0
  pub writable : (bs : List ℕ) → (u.to_user bs).0 ≡ 0
