-- ===== src/Mdio.antt =====
-- The MDIO bus of 27.mdio+phy/driver/virt_mii_bus.c with its one PHY, and the PHY of virt_phy.c.
use linux_driver_kb.Prelude.{◌∷◌, List, refl, ℕ, ◌+◌, ◌*◌, ◌^◌, ◌≡◌, ◌==◌, if◌then◌else◌}
use linux_driver_kb.Prelude.Int.{ℤ, pos, negsuc}
use linux_driver_kb.Kernel.Errno.{enomem}
use linux_driver_kb.Kernel.Ledger.{
  Kernel, Code, return, acquire, drop_res, Res, Res-discrete, devm_mem, mdiobus, netdev, phy, Runs,
  ProbeEnds, Gone, acquire_rule, drop_rule, probe_error_rule, probe_done_rule, Gone-rule,
}

unregister_mdiobus : ℤ → Code
unregister_mdiobus ret = drop_res mdiobus (return ret)

free_netdev : ℤ → Code
unfolding unregister_mdiobus
free_netdev ret = drop_res netdev (unregister_mdiobus ret)

pub virt_mii_bus_probe : Kernel → Code
unfolding unregister_mdiobus free_netdev
virt_mii_bus_probe k =
    acquire k devm_mem (λ _. return enomem)
      (acquire k devm_mem (λ _. return enomem)
        (acquire k mdiobus (λ n. return (negsuc n))
          (acquire k netdev (λ _. unregister_mdiobus enomem)
            (acquire k phy (λ n. free_netdev (negsuc n)) (return (pos 0))))))

pub virt_mii_bus_remove : Code
virt_mii_bus_remove = drop_res phy (drop_res netdev (drop_res mdiobus (return (pos 0))))

pub virt_mii_bus_probe-Runs :
    (k : Kernel) (held : List Res)
    → Runs
        (ProbeEnds held (phy ∷ netdev ∷ mdiobus ∷ devm_mem ∷ devm_mem ∷ held))
        held
        (virt_mii_bus_probe k)
unfolding virt_mii_bus_probe Res-discrete
virt_mii_bus_probe-Runs k held =
    acquire_rule k devm_mem (λ _. probe_error_rule held 11 refl)
      (acquire_rule k devm_mem (λ _. probe_error_rule held 11 refl)
        (acquire_rule k mdiobus (λ n. probe_error_rule held n refl)
          (acquire_rule k netdev (λ _. drop_rule mdiobus refl refl (probe_error_rule held 11 refl))
            (acquire_rule k phy
              (λ n.
                drop_rule netdev refl refl
                  (drop_rule mdiobus refl refl (probe_error_rule held n refl)))
              (probe_done_rule held)))))

pub virt_mii_bus_remove-Runs :
    (held : List Res)
    → Runs (Gone held) (phy ∷ netdev ∷ mdiobus ∷ devm_mem ∷ devm_mem ∷ held) virt_mii_bus_remove
unfolding virt_mii_bus_remove Res-discrete
virt_mii_bus_remove-Runs held =
    drop_rule phy refl refl
      (drop_rule netdev refl refl (drop_rule mdiobus refl refl (Gone-rule held (pos 0) refl)))

-- The registers of the one PHY, MII_PHYSID1 and MII_PHYSID2 being 2 and 3.
unfoldable pub virt_mii_bus_read : ℕ → ℕ → ℕ
virt_mii_bus_read phy_id phy_reg =
    if phy_reg == 2 then 0x1234 else (if phy_reg == 3 then 0x5678 else 0)

-- The phy_id of virt_phy.c.
abbrev virt_phy_id : ℕ
virt_phy_id = 0x12345678

-- The core puts the two halves together and finds the driver, at every address of the bus.
virt_phy_found :
    (addr : ℕ) → virt_mii_bus_read addr 2 * 2 ^ 16 + virt_mii_bus_read addr 3 ≡ virt_phy_id
unfolding virt_mii_bus_read
virt_phy_found addr = refl
