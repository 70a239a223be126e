-- ===== src/Kernel/Ledger/Calls.antt =====
-- Requests and releases as pieces of code that write a log, and what is held after a log.
use linux_driver_kb.Prelude.{ℕ, zero, List, [], ◌∷◌, ◌≢◌, Option, none, some, ◌≡◌, refl}
use linux_driver_kb.Prelude.Int.{ℤ, pos}
use mathlib.Core.Logic.{ite, if_pos, if_neg}
use mathlib.Core.Option
use linux_driver_kb.Kernel.Ledger.Resources.{Res, Res-discrete}

-- How a request ends: `fail n` is the return value, or the error pointer, -(n + 1); for an
-- allocation it is the null pointer.
pub data Outcome : Type 0 where
  ok : Outcome
  fail : ℕ → Outcome

pub data Entry : Type 0 where
  request : Res → Outcome → Entry
  release : Res → Entry

-- The newest entry first.
abbrev pub Log : Type 0
Log = List Entry

-- The kernel answers by what was asked before.
abbrev pub Kernel : Type 0
Kernel = Log → Res → Outcome

-- A kernel that refuses one thing and grants all else.
abbrev pub refuse : Res → ℕ → Kernel
refuse r n _ s = ite (Res-discrete r s) (fail n) ok

-- One piece of C code that returns an `int`.
abbrev pub Code : Type 0
Code = Log → ℤ × Log

unfoldable pub return : ℤ → Code
return ret l = (ret, l)

unfoldable pub settle : Res → Outcome → (ℕ → Code) → Code → Code
settle r ok failed next l = next (request r ok ∷ l)
settle r (fail n) failed next l = failed n (request r (fail n) ∷ l)

-- A request; on failure the code of the error branch runs, with the error's number.
unfoldable pub acquire : Kernel → Res → (ℕ → Code) → Code → Code
unfolding settle
acquire k r failed next l = settle r (k l r) failed next l

-- A request whose result the code does not look at.
unfoldable pub attempt : Kernel → Res → Code → Code
unfolding settle
attempt k r next l = settle r (k l r) (λ _. next) next l

unfoldable pub drop_res : Res → Code → Code
drop_res r next l = next (release r ∷ l)

-- A call that takes something and cannot fail.
unfoldable pub grant : Res → Code → Code
grant r next l = next (request r ok ∷ l)

abbrev pub remove : Res → List Res → Option (List Res)
remove r [] = none
remove r (x ∷ xs) = ite (Res-discrete r x) (some xs) (Option.map (λ l. x ∷ l) (remove r xs))

pub remove_first : (r : Res) (xs : List Res) → remove r (r ∷ xs) ≡ some xs
remove_first r xs = rw (if_pos (Res-discrete r r) refl)

pub remove_later :
    (r x : Res) (xs rest : List Res)
    → r ≢ x
    → remove r xs ≡ some rest
    → remove r (x ∷ xs) ≡ some (x ∷ rest)
remove_later r x xs rest other found = rw (if_neg (Res-discrete r x) other, found)

abbrev and_then : Option (List Res) → (List Res → Option (List Res)) → Option (List Res)
and_then none f = none
and_then (some h) f = f h

abbrev enter : Entry → List Res → Option (List Res)
enter (request r ok) held = some (r ∷ held)
enter (request r (fail n)) held = some held
enter (release r) held = remove r held

-- What is held after a log; `none` if something was released that was not held.
abbrev pub holds : Log → Option (List Res)
holds [] = some []
holds (e ∷ l) = and_then (holds l) (enter e)

unfoldable pub undo_after : ℤ → Code → Code
undo_after (pos zero) undo l = undo l
undo_after ret undo l = (ret, l)

-- One piece of code, and another if the first returned 0.
unfoldable pub then_undo : Code → Code → Code
unfolding undo_after
then_undo c undo l = undo_after (c l).0 undo (c l).1
