-- ===== src/Clk/Tree.antt =====
-- The gate and its consumers together: virt-clk-consumer.c switches the gate of virt-gate-clk.c through the
-- kernel's clock framework.
use linux_driver_kb.Prelude.{ℕ, zero, suc, ◌+◌, ◌<◌, ◌≡◌, ◌==◌, if◌then◌else◌, List, [], ◌∷◌, arith}
use linux_driver_kb.Prelude.Int.{ℤ, pos, negsuc}
use linux_driver_kb.Kernel.Ledger.{Outcome, ok, fail}
use linux_driver_kb.Clk.Gate.{virt_gate_clk_enable, virt_gate_clk_disable, virt_gate_clk_is_enabled}

-- A clk_ops over what the gate keeps.
pub record ClkOps : Type 0 where
  pub enable : ℕ → ℤ × ℕ
  pub disable : ℕ → ℕ
  pub is_enabled : ℕ → ℤ

abbrev pub virt_gate_clk_ops : ClkOps
virt_gate_clk_ops = record {
  enable = virt_gate_clk_enable;
  disable = virt_gate_clk_disable;
  is_enabled = virt_gate_clk_is_enabled;
}

-- The clock framework counts the users of a clock. It calls the operations for the first that comes, and for
-- the last that goes.
pub record Framework (ops : ClkOps) : Type 1 where
  pub Clk : Type 0
  pub users : Clk → ℕ
  pub gate_en : Clk → ℕ
  pub clk_prepare_enable : Clk → ℤ × Clk
  pub clk_disable_unprepare : Clk → Clk
  pub first_user :
      (c : Clk)
      → users c ≡ 0
      → let (ret, gate) = ops.enable (gate_en c) in
        ((clk_prepare_enable c).0 ≡ ret)
        × (gate_en (clk_prepare_enable c).1 ≡ gate)
        × (ret ≡ pos 0 → users (clk_prepare_enable c).1 ≡ 1)
  pub more_users :
      (c : Clk)
      → 0 < users c
      → ((clk_prepare_enable c).0 ≡ pos 0)
        × (gate_en (clk_prepare_enable c).1 ≡ gate_en c)
        × (users (clk_prepare_enable c).1 ≡ users c + 1)
  pub last_user :
      (c : Clk)
      → users c ≡ 1
      → (users (clk_disable_unprepare c) ≡ 0)
        × (gate_en (clk_disable_unprepare c) ≡ ops.disable (gate_en c))
  pub fewer_users :
      (c : Clk)
      → 1 < users c
      → (users (clk_disable_unprepare c) + 1 ≡ users c)
        × (gate_en (clk_disable_unprepare c) ≡ gate_en c)

-- A consumer's device comes, and clk_get ends so; or one that was probed with success goes.
pub data Event : Type 0 where
  bind : Outcome → Event
  unbind : Event

module _ (kernel : Framework virt_gate_clk_ops) where
  -- virt_clk_consumer_probe, where clk_get ends so; the result of clk_prepare_enable is not looked at.
  unfoldable pub consumer_probe : Outcome → kernel.Clk → ℤ × kernel.Clk
  consumer_probe ok c = (pos 0, (kernel.clk_prepare_enable c).1)
  consumer_probe (fail n) c = (negsuc n, c)

  unfoldable pub consumer_remove : kernel.Clk → ℤ × kernel.Clk
  consumer_remove c = (pos 0, kernel.clk_disable_unprepare c)

  -- The consumers that were probed with success, and the clock.
  pub record Tree : Type 0 where
    pub bound : ℕ
    pub clk : kernel.Clk

  abbrev probed : ℕ → ℤ × kernel.Clk → Tree
  probed n (pos zero, c) = record { bound = n + 1; clk = c }
  probed n (_, c) = record { bound = n; clk = c }

  abbrev removed : ℕ → kernel.Clk → Tree
  removed zero c = record { bound = zero; clk = c }
  removed (suc n) c = record { bound = n; clk = (consumer_remove c).1 }

  unfoldable pub step : Tree → Event → Tree
  unfolding consumer_probe consumer_remove
  step t (bind answer) = probed t.bound (consumer_probe answer t.clk)
  step t unbind = removed t.bound t.clk

  unfoldable pub run : Tree → List Event → Tree
  unfolding step
  run t [] = t
  run t (e ∷ es) = run (step t e) es

  pub record IsSwitched (t : Tree) : Type 0 where
    pub counted : kernel.users t.clk ≡ t.bound
    pub gate : kernel.gate_en t.clk ≡ (if t.bound == 0 then 0 else 1)

  removed-IsSwitched :
      (n : ℕ) (c : kernel.Clk)
      → IsSwitched (record { bound = n; clk = c })
      → IsSwitched (removed n c)
  unfolding consumer_remove virt_gate_clk_disable
  removed-IsSwitched zero c h = h
  removed-IsSwitched (suc n) c h = ground (arith, kernel.last_user c, kernel.fewer_users c)

  step-IsSwitched : (t : Tree) (e : Event) → IsSwitched t → IsSwitched (step t e)
  unfolding step consumer_probe virt_gate_clk_enable
  step-IsSwitched t (bind ok) h = ground (arith, kernel.first_user t.clk, kernel.more_users t.clk)
  step-IsSwitched t (bind (fail n)) h = h
  step-IsSwitched t unbind h = removed-IsSwitched t.bound t.clk h

  run-IsSwitched : (es : List Event) (t : Tree) → IsSwitched t → IsSwitched (run t es)
  unfolding run
  run-IsSwitched [] t h = h
  run-IsSwitched (e ∷ es) t h = run-IsSwitched es (step t e) (step-IsSwitched t e h)

  -- However the consumers of the gate come and go, with any number of them at a time, those that are refused
  -- the clock included: the gate says that it is enabled exactly while some consumer is bound, and the
  -- framework counts them.
  pub is_enabled-bound :
      (c : kernel.Clk) (es : List Event)
      → kernel.users c ≡ 0
      → kernel.gate_en c ≡ 0
      → let t = run (record { bound = 0; clk = c }) es in
        (virt_gate_clk_is_enabled (kernel.gate_en t.clk) ≡ (if t.bound == 0 then pos 0 else pos 1))
        × (kernel.users t.clk ≡ t.bound)
  unfolding virt_gate_clk_is_enabled
  is_enabled-bound c es none off =
      let h =
        run-IsSwitched es (record { bound = 0; clk = c }) (record { counted = none; gate = off }) in
      ground arith
