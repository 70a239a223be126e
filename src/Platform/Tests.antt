-- ===== src/Platform/Tests.antt =====
-- The platform modules at a concrete kernel.
use linux_driver_kb.Prelude.{[], ◌∷◌, ◌≡◌, refl, none}
use linux_driver_kb.Prelude.Int.{pos}
use linux_driver_kb.Kernel.Ledger.{
  Kernel, refuse, then_undo, holds, ok, Res-discrete, request, memory, platform_driver,
}
use linux_driver_kb.Platform.{virt_mtd, init, exit, unchecked-ends}

-- The driver of the flash is refused.
abbrev no_platform_driver : Kernel
no_platform_driver = refuse platform_driver 15

unchecked-ends_example :
    ((init virt_mtd no_platform_driver (request memory ok ∷ [])).0 ≡ pos 0)
    × (holds
          (then_undo (init virt_mtd no_platform_driver) (exit virt_mtd) (request memory ok ∷ [])).1
        ≡ none)
unfolding Res-discrete
unchecked-ends_example =
    unchecked-ends (memory ∷ []) (request memory ok ∷ []) refl refl refl virt_mtd no_platform_driver
