-- ===== src/Watchdog/Setup.antt =====
-- softdog_init and softdog_exit: the loops that register and unregister the watchdogs.
use native.Mathlib.Nat.{suc-add, add-suc, add-zero, zero-add}
use linux_driver_kb.Prelude.{ℕ, zero, suc, ◌+◌, ◌∷◌, ◌++◌, List, ◌≡◌, refl, some, arith}
use linux_driver_kb.Prelude.Int.{ℤ, pos, negsuc}
use linux_driver_kb.Kernel.Errno.{enomem}
use linux_driver_kb.Kernel.Ledger.{
  Kernel, Code, return, acquire, drop_res, remove, remove_first, remove_later, Res, softdogs,
  watchdog, Runs, AllOrNothing, acquire_rule, drop_rule, return_rule, error_rule, done_rule,
}

-- The loop over j: the watchdogs j, j + 1, ... and then `next`.
unregister_all : ℕ → ℕ → Code → Code
unregister_all j zero next = next
unregister_all j (suc n) next = drop_res (watchdog j) (unregister_all (suc j) n next)

unfoldable err : ℕ → ℤ → Code
unfolding unregister_all
err i ret = unregister_all 0 i (drop_res softdogs (return ret))

-- The loop over i, with `left` rounds to go.
register_from : Kernel → ℕ → ℕ → Code
unfolding err
register_from k i zero = return (pos 0)
register_from k i (suc left) =
    acquire k (watchdog i) (λ n. err i (negsuc n)) (register_from k (suc i) left)

unfoldable pub softdog_init : ℕ → Kernel → Code
unfolding register_from
softdog_init softdog_num k = acquire k softdogs (λ _. return enomem) (register_from k 0 softdog_num)

unfoldable pub softdog_exit : ℕ → Code
unfolding unregister_all
softdog_exit softdog_num = unregister_all 0 softdog_num (drop_res softdogs (return (pos 0)))

-- The watchdogs j to j + n - 1, the newest first.
abbrev pub dogs_from : ℕ → ℕ → List Res → List Res
dogs_from j zero held = held
dogs_from j (suc n) held = watchdog (n + j) ∷ dogs_from j n held

pub dogs_from-append : (j n : ℕ) (a b : List Res) → dogs_from j n a ++ b ≡ dogs_from j n (a ++ b)
dogs_from-append j zero a b = refl
dogs_from-append j (suc n) a b = rw (dogs_from-append j n a b) refl

watchdog-inj : (i j : ℕ) → watchdog i ≡ watchdog j → i ≡ j
watchdog-inj i j e = cc

remove-dogs_from :
    (j n : ℕ) (held : List Res)
    → remove (watchdog j) (dogs_from j (suc n) held) ≡ some (dogs_from (suc j) n held)
remove-dogs_from j zero held = rw (zero-add j) (remove_first (watchdog j) held)
remove-dogs_from j (suc n) held =
    rw (add-suc n j, ← suc-add n j)
      (remove_later (watchdog j) (watchdog (suc n + j)) (dogs_from j (suc n) held)
        (dogs_from (suc j) n held) (λ e. let same = watchdog-inj j (suc n + j) e in omega arith)
        (remove-dogs_from j n held))

module _ {Q : ℤ → List Res → Type 0} where
  unregister_all_rule :
      (j n : ℕ) {next : Code} {held : List Res}
      → Runs Q held next
      → Runs Q (dogs_from j n held) (unregister_all j n next)
  unfolding unregister_all
  unregister_all_rule j zero good = good
  unregister_all_rule j (suc n) {held} good =
      drop_rule (watchdog j) refl (remove-dogs_from j n held) (unregister_all_rule (suc j) n good)

register_from_rule :
    (k : Kernel) (i left total : ℕ) (held : List Res)
    → left + i ≡ total
    → Runs
        (AllOrNothing held (dogs_from 0 total (softdogs ∷ held)))
        (dogs_from 0 i (softdogs ∷ held))
        (register_from k i left)
unfolding register_from err
register_from_rule k i zero total held sum = let all : i ≡ total = omega arith in rw all done_rule
register_from_rule k i (suc left) total held sum =
    acquire_rule k (watchdog i)
      (λ n.
        unregister_all_rule 0 i
          (drop_rule softdogs refl (remove_first softdogs held) (error_rule n)))
      (let grown : Runs (AllOrNothing held (dogs_from 0 total (softdogs ∷ held)))
            (watchdog (i + 0) ∷ dogs_from 0 i (softdogs ∷ held)) (register_from k (suc i) left) =
          register_from_rule k (suc i) left total held (omega arith) in
        rw (add-zero i) at grown)

-- Whatever the kernel answers, loading the module either returns 0 with every watchdog registered and
-- the array of them held, or it returns an error and holds again just what was held, and it never
-- unregisters or frees what it does not hold.
pub softdog_init-Runs :
    (k : Kernel) (softdog_num : ℕ) (held : List Res)
    → Runs
        (AllOrNothing held (dogs_from 0 softdog_num (softdogs ∷ held)))
        held
        (softdog_init softdog_num k)
unfolding softdog_init
softdog_init-Runs k softdog_num held =
    acquire_rule k softdogs (λ _. error_rule 11)
      (register_from_rule k 0 softdog_num softdog_num held (omega arith))

-- Unloading after that releases all of it.
pub softdog_exit-Runs :
    (softdog_num : ℕ) (held : List Res)
    → Runs
        (λ ret end. (ret ≡ pos 0) × (end ≡ held))
        (dogs_from 0 softdog_num (softdogs ∷ held))
        (softdog_exit softdog_num)
unfolding softdog_exit
softdog_exit-Runs softdog_num held =
    unregister_all_rule 0 softdog_num
      (drop_rule softdogs refl (remove_first softdogs held) (return_rule (pos 0) (refl, refl)))
