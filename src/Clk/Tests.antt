-- ===== src/Clk/Tests.antt =====
-- A framework that keeps the number of users beside the gate, and consumers of it.
use linux_driver_kb.Prelude.{ℕ, ◌+◌, ◌-◌, ◌<◌, ◌≡◌, refl, ◌==◌, if◌then◌else◌, List, [], ◌∷◌, arith}
use linux_driver_kb.Prelude.Int.{ℤ, pos}
use linux_driver_kb.Kernel.Ledger.{ok, fail}
use linux_driver_kb.Clk.Gate.{virt_gate_clk_enable, virt_gate_clk_disable, virt_gate_clk_is_enabled}
use linux_driver_kb.Clk.Tree.{
  Framework, virt_gate_clk_ops, Event, bind, unbind, run, step, consumer_probe, consumer_remove,
  is_enabled-bound,
}

abbrev enable_first : ℕ × ℕ → ℤ × (ℕ × ℕ)
enable_first (users, gate) =
    (pos 0, (users + 1, if users == 0 then (virt_gate_clk_enable gate).1 else gate))

abbrev disable_last : ℕ × ℕ → ℕ × ℕ
disable_last (users, gate) = (users - 1, if users == 1 then virt_gate_clk_disable gate else gate)

enable_first-first :
    (c : ℕ × ℕ)
    → c.0 ≡ 0
    → let (ret, gate) = virt_gate_clk_enable c.1 in
      ((enable_first c).0 ≡ ret)
      × ((enable_first c).1.1 ≡ gate)
      × (ret ≡ pos 0 → (enable_first c).1.0 ≡ 1)
unfolding virt_gate_clk_enable
enable_first-first c e = ground arith

enable_first-more :
    (c : ℕ × ℕ)
    → 0 < c.0
    → ((enable_first c).0 ≡ pos 0) × ((enable_first c).1.1 ≡ c.1) × ((enable_first c).1.0 ≡ c.0 + 1)
enable_first-more c e = ground arith

disable_last-last :
    (c : ℕ × ℕ)
    → c.0 ≡ 1
    → ((disable_last c).0 ≡ 0) × ((disable_last c).1 ≡ virt_gate_clk_disable c.1)
disable_last-last c e = ground arith

disable_last-fewer :
    (c : ℕ × ℕ) → 1 < c.0 → ((disable_last c).0 + 1 ≡ c.0) × ((disable_last c).1 ≡ c.1)
disable_last-fewer c e = ground arith

abbrev counting : Framework virt_gate_clk_ops
counting = record {
  Clk = ℕ × ℕ;
  users = λ c. c.0;
  gate_en = λ c. c.1;
  clk_prepare_enable = enable_first;
  clk_disable_unprepare = disable_last;
  first_user = enable_first-first;
  more_users = enable_first-more;
  last_user = disable_last-last;
  fewer_users = disable_last-fewer;
}

abbrev come_and_go : List Event
come_and_go = bind ok ∷ bind (fail 1) ∷ bind ok ∷ unbind ∷ []

is_enabled-bound_example :
    let t = run counting (record { bound = 0; clk = (0, 0) }) come_and_go in
    (virt_gate_clk_is_enabled (counting.gate_en t.clk) ≡ pos 1) × (counting.users t.clk ≡ 1)
unfolding run step consumer_probe consumer_remove
is_enabled-bound_example = is_enabled-bound counting (0, 0) come_and_go refl refl
