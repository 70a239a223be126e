-- ===== src/CharDev/Setup.antt =====
-- Loading and unloading the character device: nothing is leaked, and nothing is released twice.
use linux_driver_kb.Prelude.{◌∷◌, List, ◌≡◌, refl}
use linux_driver_kb.Prelude.Int.{pos}
use linux_driver_kb.Kernel.Ledger.{
  Kernel, Res, Res-discrete, region, cdev, class, device, Runs, AllOrNothing, acquire_rule,
  drop_rule, return_rule, error_rule, done_rule,
}
use linux_driver_kb.CharDev.{char_dev_init, char_dev_exit}

-- Whatever the kernel answers, loading ends with 0 and all four resources held, or with a negative
-- number and none of them; it never releases what it does not hold.
pub char_dev_init-Runs :
    (k : Kernel) (held : List Res)
    → Runs (AllOrNothing held (device ∷ class ∷ cdev ∷ region ∷ held)) held (char_dev_init k)
unfolding char_dev_init Res-discrete
char_dev_init-Runs k held =
    acquire_rule k region (λ _. error_rule 13)
      (acquire_rule k cdev (λ _. drop_rule region refl refl (error_rule 13))
        (acquire_rule k class
          (λ n. drop_rule cdev refl refl (drop_rule region refl refl (error_rule n)))
          (acquire_rule k device
            (λ n.
              drop_rule class refl refl
                (drop_rule cdev refl refl (drop_rule region refl refl (error_rule n))))
            done_rule)))

-- Unloading after a successful load releases all four, and only those.
pub char_dev_exit-Runs :
    (held : List Res)
    → Runs (λ ret end. end ≡ held) (device ∷ class ∷ cdev ∷ region ∷ held) char_dev_exit
unfolding char_dev_exit Res-discrete
char_dev_exit-Runs held = drop_rule cdev refl refl (
    drop_rule region refl refl
      (drop_rule device refl refl (drop_rule class refl refl (return_rule (pos 0) refl))))
