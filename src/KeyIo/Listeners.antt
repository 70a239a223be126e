-- ===== src/KeyIo/Listeners.antt =====
-- The listeners of fasync_io.c and fasync_io_misc.c: char_dev_fasync adds and removes them, and
-- char_dev_release removes the file that is closed.
use linux_driver_kb.Prelude.{
  ℕ, ◌≡◌, ◌≢◌, refl, ◌∙◌, inl, inr, Bool, true, false, not, ◌==◌, if◌then◌else◌, List, [], ◌∷◌,
  arith, ℕ_discrete, Bool-cases,
}
use linux_driver_kb.Prelude.Int.{ℤ, negsuc}
use linux_driver_kb.KeyIo.{Keys, sleeping, set_key_value}
use linux_driver_kb.KeyIo.Fasync.{debounce_timer_handler, notify_one, woken-ne-sleeping}

-- fasync_helper keeps the list behind `p->fasync`, which is null when nobody listens.
pub record FasyncHelper : Type 1 where
  pub Listeners : Type 0
  pub fasync_helper : ℤ → ℕ → Bool → Listeners → ℤ × Listeners
  pub listens : ℕ → Listeners → Bool
  pub is_null : Listeners → Bool
  pub removes :
      (fd : ℤ) (file : ℕ) (l : Listeners) → listens file (fasync_helper fd file false l).1 ≡ false
  pub keeps_others :
      (fd : ℤ) (file other : ℕ) (l : Listeners)
      → other ≢ file
      → listens other (fasync_helper fd file false l).1 ≡ listens other l
  pub null_if_none : (l : Listeners) → ((file : ℕ) → listens file l ≡ false) → is_null l ≡ true

abbrev pub is_among : ℕ → List ℕ → Bool
is_among file [] = false
is_among file (f ∷ files) = if file == f then true else is_among file files

module _ (kernel : FasyncHelper) where
  unfoldable pub char_dev_fasync : ℤ → ℕ → Bool → kernel.Listeners → ℤ × kernel.Listeners
  char_dev_fasync fd file mode fasync = kernel.fasync_helper fd file mode fasync

  unfoldable pub char_dev_release : ℕ → kernel.Listeners → ℤ × kernel.Listeners
  unfolding char_dev_fasync
  char_dev_release file fasync = char_dev_fasync (negsuc 0) file false fasync

  -- The same functions of fasync_io_misc.c.
  abbrev misc_fasync : ℤ → ℕ → Bool → kernel.Listeners → ℤ × kernel.Listeners
  misc_fasync = char_dev_fasync

  abbrev misc_release : ℕ → kernel.Listeners → ℤ × kernel.Listeners
  misc_release = char_dev_release

  unfoldable pub release_all : List ℕ → kernel.Listeners → kernel.Listeners
  release_all [] fasync = fasync
  release_all (file ∷ files) fasync = release_all files (char_dev_release file fasync).1

  release_quiet :
      (file other : ℕ) (l : kernel.Listeners)
      → kernel.listens other l ≡ false
      → kernel.listens other (char_dev_release file l).1 ≡ false
  unfolding char_dev_release
  release_quiet file other l quiet = elim (ℕ_discrete other file) [
    | yes same ↦ rw same (kernel.removes (negsuc 0) file l)
    | no other_file ↦ kernel.keeps_others (negsuc 0) file other l other_file ∙ quiet
  ]

  all_quiet :
      (files : List ℕ) (other : ℕ) (l : kernel.Listeners)
      → kernel.listens other l ≡ false
      → kernel.listens other (release_all files l) ≡ false
  unfolding release_all
  all_quiet [] other l quiet = quiet
  all_quiet (file ∷ files) other l quiet =
      all_quiet files other (char_dev_release file l).1 (release_quiet file other l quiet)

  released_quiet :
      (files : List ℕ) (other : ℕ) (l : kernel.Listeners)
      → is_among other files ≡ true
      → kernel.listens other (release_all files l) ≡ false
  unfolding release_all char_dev_release
  released_quiet [] other l among = absurd (cc among)
  released_quiet (file ∷ files) other l among = elim (ℕ_discrete other file) [
    | yes same ↦
        all_quiet files other (char_dev_release file l).1
          (rw same (kernel.removes (negsuc 0) file l))
    | no other_file ↦ released_quiet files other (char_dev_release file l).1 (ground (arith, among))
  ]

  -- When every file that listens has been closed, a press wakes the sleeping readers again: after the
  -- timer's handler has found the key down, the flag is set, no reader is asleep, and no signal was sent.
  pub release-wakes :
      (files : List ℕ) (l : kernel.Listeners) (s : Keys)
      → ((file : ℕ) → kernel.listens file l ≡ true → is_among file files ≡ true)
      → let now = record s { fasync = not (kernel.is_null (release_all files l)) } in
        let s' = debounce_timer_handler.notify (debounce_timer_handler.set_value now 0) in
        (s'.key_value ≡ 1) × (s'.sigio ≡ s.sigio) × ((i : ℕ) → s'.readers i ≢ sleeping)
  unfolding set_key_value notify_one
  release-wakes files l s all_known =
      let quiet : (file : ℕ) → kernel.listens file (release_all files l) ≡ false = λ file.
        elim (Bool-cases (kernel.listens file l)) [
          | inl on ↦ released_quiet files file l (all_known file on)
          | inr off ↦ all_quiet files file l off
        ] in
      rw (kernel.null_if_none (release_all files l) quiet)
        (refl, refl, λ i. woken-ne-sleeping (s.readers i))
