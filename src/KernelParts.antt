-- ===== src/KernelParts.antt =====
-- The thread of 26.内核组件/driver/kthread/kthread.c and the listener on network devices of
-- notifier_chain/netdev_chain.c: loading and unloading.
pub mod ContainerOf
pub mod ListTest
pub mod Thread
pub mod Chain
mod Tests
use linux_driver_kb.Prelude.{◌∷◌, List, refl}
use linux_driver_kb.Prelude.Int.{pos, negsuc}
use linux_driver_kb.Kernel.Ledger.{
  Kernel, Code, return, acquire, drop_res, Res, Res-discrete, kthread, netdev_notifier, Runs,
  ProbeEnds, Gone, acquire_rule, drop_rule, probe_error_rule, probe_done_rule, Gone-rule,
}

pub kthread_test_init : Kernel → Code
kthread_test_init k = acquire k kthread (λ n. return (negsuc n)) (return (pos 0))

pub kthread_test_exit : Code
kthread_test_exit = drop_res kthread (return (pos 0))

pub kthread_test_init-Runs :
    (k : Kernel) (held : List Res)
    → Runs (ProbeEnds held (kthread ∷ held)) held (kthread_test_init k)
unfolding kthread_test_init Res-discrete
kthread_test_init-Runs k held =
    acquire_rule k kthread (λ n. probe_error_rule held n refl) (probe_done_rule held)

pub kthread_test_exit-Runs : (held : List Res) → Runs (Gone held) (kthread ∷ held) kthread_test_exit
unfolding kthread_test_exit Res-discrete
kthread_test_exit-Runs held = drop_rule kthread refl refl (Gone-rule held (pos 0) refl)

pub netdev_chain_test_init : Kernel → Code
netdev_chain_test_init k = acquire k netdev_notifier (λ n. return (negsuc n)) (return (pos 0))

pub netdev_chain_test_exit : Code
netdev_chain_test_exit = drop_res netdev_notifier (return (pos 0))

pub netdev_chain_test_init-Runs :
    (k : Kernel) (held : List Res)
    → Runs (ProbeEnds held (netdev_notifier ∷ held)) held (netdev_chain_test_init k)
unfolding netdev_chain_test_init Res-discrete
netdev_chain_test_init-Runs k held =
    acquire_rule k netdev_notifier (λ n. probe_error_rule held n refl) (probe_done_rule held)

pub netdev_chain_test_exit-Runs :
    (held : List Res) → Runs (Gone held) (netdev_notifier ∷ held) netdev_chain_test_exit
unfolding netdev_chain_test_exit Res-discrete
netdev_chain_test_exit-Runs held = drop_rule netdev_notifier refl refl (Gone-rule held (pos 0) refl)
