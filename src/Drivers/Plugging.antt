-- ===== src/Drivers/Plugging.antt =====
-- The drivers together: loaded and unloaded in any order over the one kernel.
use linux_driver_kb.Prelude.{
  ℕ, zero, suc, ◌≡◌, refl, List, [], ◌∷◌, Option, none, some, inl, inr, Option-cases, arith,
}
use linux_driver_kb.Prelude.Int.{ℤ, pos, negsuc}
use linux_driver_kb.Kernel.Ledger.{
  Kernel, Log, Res, holds, Same, Same-refl, Same-trans, count-append, unmanaged-Same, ProbeEnds,
}
use linux_driver_kb.Drivers.{Driver, load, unload, full, holdings}
use linux_driver_kb.Drivers.Cycle.{load-Runs, unload-Runs}

-- A driver is loaded, or its device probed; or the i-th of the loaded ones, the newest first, goes.
pub data Event : Type 0 where
  plug : Driver → Event
  unplug : ℕ → Event

pub record System : Type 0 where
  pub loaded : List Driver
  pub log : Log

abbrev added : ℤ → Driver → List Driver → List Driver
added (pos zero) d ds = d ∷ ds
added _ d ds = ds

abbrev take_out : ℕ → List Driver → Option (Driver × List Driver)
take_out i [] = none
take_out zero (d ∷ ds) = some (d, ds)
take_out (suc i) (d ∷ ds) = elim (take_out i ds) [
  | none ↦ none
  | some (e, rest) ↦ some (e, d ∷ rest)
]

-- There is nothing to unload where no driver is.
abbrev unplugged : System → Option (Driver × List Driver) → System
unplugged s none = s
unplugged s (some (d, rest)) = record { loaded = rest; log = (unload d s.log).1 }

-- A driver whose loading returned 0 is loaded.
unfoldable pub step : Kernel → System → Event → System
step k s (plug d) =
    let (ret, log) = load d k s.log in record { loaded = added ret d s.loaded; log = log }
step k s (unplug i) = unplugged s (take_out i s.loaded)

unfoldable pub run : Kernel → System → List Event → System
unfolding step
run k s [] = s
run k s (e ∷ es) = run k (step k s e) es

-- What these drivers hold together, on top of what was held.
abbrev pub fulls : List Driver → List Res → List Res
fulls [] held = held
fulls (d ∷ ds) held = full d (fulls ds held)

full-full : (d e : Driver) (held : List Res) → Same (full d (full e held)) (full e (full d held))
full-full d e held = record {
  counts = λ r own. omega (
    arith,
    count-append r (holdings d) (full e held),
    count-append r (holdings e) held,
    count-append r (holdings e) (full d held),
    count-append r (holdings d) held,
  );
}

full-Same : (d : Driver) {a b : List Res} → Same a b → Same (full d a) (full d b)
full-Same d {a} {b} same = record {
  counts = λ r own.
      omega
        (arith, same.counts r own, count-append r (holdings d) a, count-append r (holdings d) b);
}

take_out-Same :
    (i : ℕ) (ds : List Driver) (d : Driver) (rest : List Driver) (held : List Res)
    → take_out i ds ≡ some (d, rest)
    → Same (fulls ds held) (full d (fulls rest held))
take_out-Same i [] d rest held e = absurd (cc e)
take_out-Same zero (x ∷ ds) d rest held e =
    let first : x ≡ d = cc e in
    let others : ds ≡ rest = cc e in rw (first, others) (Same-refl (full d (fulls rest held)))
take_out-Same (suc i) (x ∷ ds) d rest held e = elim (Option-cases (take_out i ds)) [
  | inl no_more ↦ absurd (cc (rw no_more at e))
  | inr ((d', rest'), found) ↦
      let e' : some (d', x ∷ rest') ≡ some (d, rest) = rw found at e in
      let same_driver : d' ≡ d = cc e' in
      let others : x ∷ rest' ≡ rest = cc e' in
      rw (← same_driver, ← others)
        (Same-trans (full-Same x (take_out-Same i ds d' rest' held found))
          (full-full x d' (fulls rest' held)))
]

-- What is held is what the loaded drivers hold, on top of `held`, the managed things aside.
abbrev pub Accounts : List Res → System → Type 0
Accounts held s = (now : List Res) × (holds s.log ≡ some now) × Same now (fulls s.loaded held)

added-Same :
    (ret : ℤ) (d : Driver) (ds : List Driver) (held end : List Res)
    → ProbeEnds (fulls ds held) (full d (fulls ds held)) ret end
    → Same end (fulls (added ret d ds) held)
added-Same (pos zero) d ds held end (inl (_, e)) = rw e (Same-refl (full d (fulls ds held)))
added-Same (pos zero) d ds held end (inr (e, _)) = absurd (cc e)
added-Same (pos (suc n)) d ds held end (inl (e, _)) = absurd (cc e)
added-Same (pos (suc n)) d ds held end (inr (e, _)) = absurd (cc e)
added-Same (negsuc n) d ds held end (inl (e, _)) = absurd (cc e)
added-Same (negsuc n) d ds held end (inr (_, clean)) = unmanaged-Same clean

unplugged-Accounts :
    (held : List Res) (s : System) (i : ℕ) (taken : Option (Driver × List Driver))
    → take_out i s.loaded ≡ taken
    → Accounts held s
    → Accounts held (unplugged s taken)
unplugged-Accounts held s i none found good = good
unplugged-Accounts held s i (some (d, rest)) found (now, e, same) =
    let (after, end, e', same', gone) =
      (unload-Runs d (fulls rest held)).run s.log e
        (Same-trans same (take_out-Same i s.loaded d rest held found)) in
    (after, e', Same-trans same' (unmanaged-Same gone))

step-Accounts :
    (k : Kernel) (held : List Res) (s : System) (e : Event)
    → Accounts held s
    → Accounts held (step k s e)
unfolding step
step-Accounts k held s (plug d) (now, e, same) =
    let (after, end, e', same', q) = (load-Runs d k (fulls s.loaded held)).run s.log e same in
    (after, e', Same-trans same' (added-Same (load d k s.log).0 d s.loaded held end q))
step-Accounts k held s (unplug i) good = unplugged-Accounts held s i (take_out i s.loaded) refl good

run_from :
    (k : Kernel) (held : List Res) (s : System) (es : List Event)
    → Accounts held s
    → Accounts held (run k s es)
unfolding run
run_from k held s [] good = good
run_from k held s (e ∷ es) good = run_from k held (step k s e) es (step-Accounts k held s e good)

-- However the loads and unloads of the drivers of the table come one after the other, the same driver also
-- several times, and whatever the kernel answers: nothing is released that is not held, and what is held
-- afterwards is what the drivers hold that are loaded then, on top of what was held before, but for what the
-- device core releases by itself. In particular a load that fails leaves nothing behind.
pub run-Accounts :
    (k : Kernel) (held : List Res) (l : Log) (es : List Event)
    → holds l ≡ some held
    → Accounts held (run k (record { loaded = []; log = l }) es)
run-Accounts k held l es e =
    run_from k held (record { loaded = []; log = l }) es (held, e, Same-refl held)
