-- ===== src/Notifier.antt =====
-- The three blocks that 26.内核组件/driver/notifier_chain/notifier_register.c puts on its chain.
use linux_driver_kb.Prelude.Int.{pos, negsuc}
use linux_driver_kb.Prelude.{List, ◌∷◌, refl, ℕ_discrete}
use linux_driver_kb.Kernel.Ledger.{
  Kernel, Code, return, acquire, drop_res, notifier, Res, Res-discrete, Runs, Gone, IfDone,
  acquire_rule, drop_rule, not_done_rule, IfDone-rule, Gone-rule,
}

unfoldable pub notifier_chain_test_init : Kernel → Code
notifier_chain_test_init k =
    acquire k (notifier 1) (λ n. return (negsuc n))
      (acquire k (notifier 2) (λ n. return (negsuc n))
        (acquire k (notifier 3) (λ n. return (negsuc n)) (return (pos 0))))

pub notifier_chain_test_exit : Code
notifier_chain_test_exit =
    drop_res (notifier 1) (drop_res (notifier 2) (drop_res (notifier 3) (return (pos 0))))

abbrev blocks : List Res → List Res
blocks held = notifier 3 ∷ notifier 2 ∷ notifier 1 ∷ held

-- A load that succeeds holds the three blocks, and the unload takes them off the chain.
notifier_chain_test_init-Runs :
    (k : Kernel) (held : List Res)
    → Runs (IfDone (blocks held)) held (notifier_chain_test_init k)
      × Runs (Gone held) (blocks held) notifier_chain_test_exit
unfolding notifier_chain_test_init notifier_chain_test_exit Res-discrete ℕ_discrete
notifier_chain_test_init-Runs k held = (
  acquire_rule k (notifier 1) (λ n. not_done_rule n)
      (acquire_rule k (notifier 2) (λ n. not_done_rule n)
        (acquire_rule k (notifier 3) (λ n. not_done_rule n) IfDone-rule)),
  drop_rule (notifier 1) refl refl (
      drop_rule (notifier 2) refl refl
        (drop_rule (notifier 3) refl refl (Gone-rule held (pos 0) refl))),
)
