-- ===== src/Proc.antt =====
-- The file of 34.debug/driver/proc.c, which shows how often a timer has run.
use linux_driver_kb.Prelude.{List, ◌∷◌, ℕ, zero, suc, ◌≡◌, refl, arith, ◌+◌, ◌%◌, ◌^◌}
use linux_driver_kb.Prelude.Int.{pos}
use linux_driver_kb.Kernel.Errno.{enomem}
use linux_driver_kb.Kernel.Ledger.{
  Kernel, Code, return, acquire, grant, drop_res, timer, proc_dir, proc_file, Res, Res-discrete,
  Runs, Gone, IfDone, grant_rule, acquire_rule, drop_rule, not_done_rule, IfDone-rule, Gone-rule,
}

-- The timer adds one to an `int`, kept as its 32 bits, and starts again.
unfoldable pub timer_handler : ℕ → ℕ
timer_handler timer_value = (timer_value + 1) % 2 ^ 32

unfoldable pub proc_test_init : Kernel → Code
proc_test_init k = grant timer (
    acquire k proc_dir (λ _. return enomem)
      (acquire k proc_file (λ _. return enomem) (return (pos 0))))

-- remove_proc_subtree takes the file with its directory.
pub proc_test_exit : Code
proc_test_exit = drop_res timer (drop_res proc_file (drop_res proc_dir (return (pos 0))))

-- A load that succeeds holds the timer, the directory and the file, and the unload releases them.
proc_test_init-Runs :
    (k : Kernel) (held : List Res)
    → Runs (IfDone (proc_file ∷ proc_dir ∷ timer ∷ held)) held (proc_test_init k)
      × Runs (Gone held) (proc_file ∷ proc_dir ∷ timer ∷ held) proc_test_exit
unfolding proc_test_init proc_test_exit Res-discrete
proc_test_init-Runs k held = (
  grant_rule timer (
      acquire_rule k proc_dir (λ _. not_done_rule 11)
        (acquire_rule k proc_file (λ _. not_done_rule 11) IfDone-rule)),
  drop_rule timer refl refl
      (drop_rule proc_file refl refl (drop_rule proc_dir refl refl (Gone-rule held (pos 0) refl))),
)

-- The value after some expiries, which the file shows.
unfoldable timer_value_after : ℕ → ℕ
unfolding timer_handler
timer_value_after zero = 0
timer_value_after (suc n) = timer_handler (timer_value_after n)

-- It is the number of expiries, as 32 bits.
timer_value_after_lem : (n : ℕ) → timer_value_after n ≡ n % 2 ^ 32
unfolding timer_value_after timer_handler
timer_value_after_lem zero = refl
timer_value_after_lem (suc n) = omega (arith, timer_value_after_lem n)
