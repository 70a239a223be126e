-- ===== src/SeqFile/Walk.antt =====
-- One pass of seq_file over the table.
use linux_driver_kb.Prelude.{
  ℕ, zero, suc, ◌≡◌, ◌≤◌, refl, Option, none, some, List, [], ◌∷◌, drop, arith, ◌>>=◌,
}
use linux_driver_kb.SeqFile.{SeqfileEntry, seqfile_entrys, seq_start, seq_next, seq_show}

-- What is shown from an answer of start or next on: show it, call next, go on until an answer is NULL.
-- `none`: the fuel ran out, or the driver read outside its table.
unfoldable pub pass : ℕ → Option ℕ → Option (List SeqfileEntry)
pass fuel none = some []
pass zero (some pos) = none
pass (suc fuel) (some pos) = do
  entry ← seq_show pos
  rest ← pass fuel (seq_next pos).1
  some (entry ∷ rest)

start-past : (n : ℕ) → seq_start (suc (suc (suc n))) ≡ none
unfolding seq_start
start-past n = ground arith

drop-nil : (n : ℕ) → drop {A = SeqfileEntry} n [] ≡ []
drop-nil zero = refl
drop-nil (suc n) = refl

-- A pass that starts at any position ends after at most three rounds, never reads outside the table,
-- and shows the entries from the position on, each once and in order; at the end it shows nothing.
pub pass-drop :
    (fuel pos : ℕ) → 3 ≤ fuel → pass fuel (seq_start pos) ≡ some (drop pos seqfile_entrys)
unfolding pass seq_start seq_next seq_show
pass-drop (suc (suc (suc fuel))) zero h = refl
pass-drop (suc (suc (suc fuel))) (suc zero) h = refl
pass-drop (suc (suc (suc fuel))) (suc (suc zero)) h = refl
pass-drop (suc (suc (suc fuel))) (suc (suc (suc n))) h = rw (start-past n, drop-nil n)
pass-drop zero n h = ground arith
pass-drop (suc zero) n h = ground arith
pass-drop (suc (suc zero)) n h = ground arith
