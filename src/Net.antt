-- ===== src/Net.antt =====
-- The network device of 35.网络/driver/vnet.c: loading and unloading, and
-- in Net.Loop its packets, which go straight back to the kernel.
pub mod Loop
use linux_driver_kb.Prelude.{◌∷◌, List, refl}
use linux_driver_kb.Prelude.Int.{ℤ, pos, negsuc}
use linux_driver_kb.Kernel.Errno.{enomem}
use linux_driver_kb.Kernel.Ledger.{
  Kernel, Code, return, acquire, drop_res, Res, Res-discrete, netdev, netdev_registration, Runs,
  ProbeEnds, Gone, acquire_rule, drop_rule, probe_error_rule, probe_done_rule, Gone-rule,
}

free_netdev : ℤ → Code
free_netdev ret = drop_res netdev (return ret)

pub vnet_init : Kernel → Code
unfolding free_netdev
vnet_init k =
    acquire k netdev (λ _. return enomem)
      (acquire k netdev_registration (λ n. free_netdev (negsuc n)) (return (pos 0)))

pub vnet_exit : Code
vnet_exit = drop_res netdev_registration (drop_res netdev (return (pos 0)))

pub vnet_init-Runs :
    (k : Kernel) (held : List Res)
    → Runs (ProbeEnds held (netdev_registration ∷ netdev ∷ held)) held (vnet_init k)
unfolding vnet_init Res-discrete
vnet_init-Runs k held =
    acquire_rule k netdev (λ _. probe_error_rule held 11 refl)
      (acquire_rule k netdev_registration
        (λ n. drop_rule netdev refl refl (probe_error_rule held n refl)) (probe_done_rule held))

pub vnet_exit-Runs :
    (held : List Res) → Runs (Gone held) (netdev_registration ∷ netdev ∷ held) vnet_exit
unfolding vnet_exit Res-discrete
vnet_exit-Runs held =
    drop_rule netdev_registration refl refl
      (drop_rule netdev refl refl (Gone-rule held (pos 0) refl))
