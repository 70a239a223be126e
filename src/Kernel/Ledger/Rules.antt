-- ===== src/Kernel/Ledger/Rules.antt =====
-- How a piece of code uses what it holds: one rule for each construct, and the ends of a probe.
use linux_driver_kb.Prelude.{ℕ, List, ◌∷◌, some, ◌≡◌, refl, true, false, ◌⊎◌, inl, inr}
use linux_driver_kb.Prelude.Int.{ℤ, pos, negsuc, is_neg}
use linux_driver_kb.Kernel.Ledger.Resources.{Res}
use linux_driver_kb.Kernel.Ledger.Bags.{
  is_managed, unmanaged, Same, Same-cons, Same-trans, Same-forget, remove-Same,
}
use linux_driver_kb.Kernel.Ledger.Calls.{
  Outcome, ok, fail, request, release, Log, Kernel, Code, return, settle, acquire, attempt,
  drop_res, grant, remove, holds,
}

-- Where a piece of code starts holding `held`, in whatever order and with whatever is managed besides, it
-- releases nothing that it does not hold, and it ends with a return value and holdings of which `Q` is true.
pub record Runs (Q : ℤ → List Res → Type 0) (held : List Res) (c : Code) : Type 0 where
  pub run :
      (l : Log) {now : List Res}
      → holds l ≡ some now
      → Same now held
      → (after end : List Res) × (holds (c l).1 ≡ some after) × Same after end × Q (c l).0 end

-- One rule for each construct. With them a proof about a handler follows its text.
module _ {Q : ℤ → List Res → Type 0} where
  pub return_rule : (ret : ℤ) {held : List Res} → Q ret held → Runs Q held (return ret)
  unfolding return
  return_rule ret {held} q = record { run = λ l {now} e same. (now, held, e, same, q) }

  pub drop_rule :
      (r : Res) {next : Code} {held rest : List Res}
      → is_managed r ≡ false
      → remove r held ≡ some rest
      → Runs Q rest next
      → Runs Q held (drop_res r next)
  unfolding drop_res
  drop_rule r own found good = record {
    run = λ l e same.
        let (rest', e', same') = remove-Same r own same found in
        good.run (release r ∷ l) (rw e e') same';
  }

  pub grant_rule :
      (r : Res) {next : Code} {held : List Res}
      → Runs Q (r ∷ held) next
      → Runs Q held (grant r next)
  unfolding grant
  grant_rule r good = record {
    run = λ l e same. good.run (request r ok ∷ l) (rw e refl) (Same-cons r same);
  }

  settle_rule :
      (r : Res) (o : Outcome) {failed : ℕ → Code} {next : Code} {held : List Res}
      → ((n : ℕ) → Runs Q held (failed n))
      → Runs Q (r ∷ held) next
      → Runs Q held (settle r o failed next)
  unfolding settle
  settle_rule r ok bad good = record {
    run = λ l e same. good.run (request r ok ∷ l) (rw e refl) (Same-cons r same);
  }
  settle_rule r (fail n) bad good = record {
    run = λ l e same. (bad n).run (request r (fail n) ∷ l) (rw e refl) same;
  }

  pub acquire_rule :
      (k : Kernel) (r : Res) {failed : ℕ → Code} {next : Code} {held : List Res}
      → ((n : ℕ) → Runs Q held (failed n))
      → Runs Q (r ∷ held) next
      → Runs Q held (acquire k r failed next)
  unfolding acquire
  acquire_rule k r bad good = record {
    run = λ l e same. (settle_rule r (k l r) bad good).run l e same;
  }

-- What is managed need not be kept account of.
pub forget_rule :
    {Q : ℤ → List Res → Type 0} (r : Res) {c : Code} {held : List Res}
    → is_managed r ≡ true
    → Runs Q held c
    → Runs Q (r ∷ held) c
forget_rule r {held} managed good = record {
  run = λ l e same. good.run l e (Same-trans same (Same-forget r held managed));
}

-- More may be said of how a piece of code ends than is asked for.
pub Runs-weaken :
    {P Q : ℤ → List Res → Type 0} {held : List Res} {c : Code}
    → ((ret : ℤ) (end : List Res) → P ret end → Q ret end)
    → Runs P held c
    → Runs Q held c
Runs-weaken more good = record {
  run = λ l e same.
      let (after, end, h, same', p) = good.run l e same in (after, end, h, same', more _ end p);
}

pub attempt_rule :
    {Q : ℤ → List Res → Type 0} (k : Kernel) (r : Res) {next : Code} {held : List Res}
    → Runs Q held next
    → Runs Q (r ∷ held) next
    → Runs Q held (attempt k r next)
unfolding attempt
attempt_rule k r bad good = record {
  run = λ l e same. (settle_rule r (k l r) (λ _. bad) good).run l e same;
}

-- All or nothing: the code returns 0 and holds `full` on top of what was held, or it returns an
-- error and holds what was held.
abbrev pub AllOrNothing : List Res → List Res → ℤ → List Res → Type 0
AllOrNothing held full ret end =
    ((ret ≡ pos 0) × (end ≡ full)) ⊎ ((is_neg ret ≡ true) × (end ≡ held))

-- The same for a probe: after an error what it holds more is managed.
abbrev pub ProbeEnds : List Res → List Res → ℤ → List Res → Type 0
ProbeEnds held full ret end =
    ((ret ≡ pos 0) × (end ≡ full)) ⊎ ((is_neg ret ≡ true) × (unmanaged end ≡ unmanaged held))

-- After a driver is gone nothing is left but what the device core releases.
abbrev pub Gone : List Res → ℤ → List Res → Type 0
Gone held ret end = unmanaged end ≡ unmanaged held

-- The two ends of such code.
module _ {held full : List Res} where
  pub error_rule : (n : ℕ) → Runs (AllOrNothing held full) held (return (negsuc n))
  error_rule n = return_rule (negsuc n) (inr (refl, refl))

  pub done_rule : Runs (AllOrNothing held full) full (return (pos 0))
  done_rule = return_rule (pos 0) (inl (refl, refl))

module _ (held : List Res) {full : List Res} where
  pub probe_error_rule :
      (n : ℕ) {now : List Res}
      → unmanaged now ≡ unmanaged held
      → Runs (ProbeEnds held full) now (return (negsuc n))
  probe_error_rule n clean = return_rule (negsuc n) (inr (refl, clean))

  pub probe_done_rule : Runs (ProbeEnds held full) full (return (pos 0))
  probe_done_rule = return_rule (pos 0) (inl (refl, refl))

pub Gone-rule :
    (held : List Res) (ret : ℤ) {now : List Res}
    → unmanaged now ≡ unmanaged held
    → Runs (Gone held) now (return ret)
Gone-rule held ret clean = return_rule ret clean

-- A success leaves all of `full` held; of an error nothing is said but that what was released was held.
abbrev pub IfDone : List Res → ℤ → List Res → Type 0
IfDone full ret end = ret ≡ pos 0 → end ≡ full

module _ {full : List Res} where
  pub not_done_rule : (n : ℕ) {now : List Res} → Runs (IfDone full) now (return (negsuc n))
  not_done_rule n = return_rule (negsuc n) (λ e. absurd (cc e))

  pub IfDone-rule : Runs (IfDone full) full (return (pos 0))
  IfDone-rule = return_rule (pos 0) (λ e. refl)
