-- ===== src/Uio/Tests.antt =====
-- The interrupt line at concrete requests.
use linux_driver_kb.Prelude.{true, false, some, [], ◌∷◌, ◌≡◌}
use linux_driver_kb.Uio.{fresh}
use linux_driver_kb.Uio.Irq.{run, switched, run_last}

run_last_example : run (some fresh) (true ∷ false ∷ false ∷ []) ≡ some (switched false)
run_last_example = run_last (true ∷ false ∷ false ∷ [])
