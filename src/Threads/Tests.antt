-- ===== src/Threads/Tests.antt =====
-- The theorems about the two threads at concrete schedules.
use linux_driver_kb.Prelude.{
  ℕ, zero, suc, ◌*◌, replicate, length-replicate, arith, ◌+◌, ◌%◌, ◌^◌, ◌≤◌, ◌≡◌, refl, true, List,
  [], ◌∷◌, ◌++◌,
}
use linux_driver_kb.Threads.{Tid, first, second, completed, step, run, start, rounds}
use linux_driver_kb.Threads.Exclusion.{inside, lock-excludes}
use linux_driver_kb.Threads.Race.{result-bounds, two_reached}
use linux_driver_kb.Threads.Fair.{AllFair, joined, fair_ends}
use linux_driver_kb.Threads.Suite.{
  Given, IsFair, ended, test_cnt, concurrency_control_init, concurrency_control_init-ends,
}
use linux_driver_kb.Kernel.Ledger.{ok}
use linux_driver_kb.Prelude.Int.{pos}

abbrev some_steps : List Tid
some_steps = first ∷ second ∷ first ∷ first ∷ second ∷ first ∷ second ∷ []

one_round_each :
    (run 1 (start 1) (some_steps ++ (second ∷ second ∷ second ∷ second ∷ []))).result ≡ 2
unfolding run step start
one_round_each = refl

lock-excludes_example :
    let s = run 2 (start rounds) some_steps in ¬ ((inside s.a.pc ≡ true) × (inside s.b.pc ≡ true))
lock-excludes_example = lock-excludes 2 rounds some_steps refl

-- The threads in turn.
abbrev turns : ℕ → List (List Tid)
turns count = replicate count (first ∷ second ∷ [])

turns-AllFair : (count : ℕ) → AllFair (turns count)
turns-AllFair zero = record {}
turns-AllFair (suc count) = (refl, refl, turns-AllFair count)

fair_ends_example :
    let s = run 1 (start 1) (some_steps ++ joined (turns 10)) in
    (s.a.pc ≡ completed) × (s.b.pc ≡ completed) × (s.result ≡ (1 + 1) % 2 ^ 32)
fair_ends_example = fair_ends 1 1 some_steps (turns 10) refl (turns-AllFair 10) (omega arith)

abbrev in_turn : ℕ → Given
in_turn count = record { first_start = ok; second_start = ok; schedule = joined (turns count) }

in_turn-IsFair : (n : ℕ) → IsFair n (in_turn (8 * n + 2))
in_turn-IsFair n = record {
  first_starts = refl;
  second_starts = refl;
  parts = turns (8 * n + 2);
  all_fair = turns-AllFair (8 * n + 2);
  enough = omega (arith, length-replicate (8 * n + 2) (first ∷ second ∷ []));
  its_schedule = refl;
}

concurrency_control_init-ends_example :
    concurrency_control_init 2 (λ j. in_turn (8 * rounds + 2))
    ≡ ended (pos 0) (replicate test_cnt 4000000)
concurrency_control_init-ends_example =
    concurrency_control_init-ends 2 (λ j. in_turn (8 * rounds + 2)) refl
      (λ j. in_turn-IsFair rounds)

-- Three rounds each, and every addition but two lost.
abbrev most_lost : List Tid
most_lost =
    (first ∷ first ∷ [])
    ++ (replicate 8 second
        ++ ((first ∷ first ∷ second ∷ second ∷ [])
            ++ (replicate 9 first ++ (second ∷ second ∷ second ∷ []))))

result-bounds_example :
    (2 ≤ (run 0 (start 3) most_lost).result) × ((run 0 (start 3) most_lost).result ≤ 3 + 3)
unfolding run step start
result-bounds_example = result-bounds 0 3 most_lost (omega arith) (omega arith) refl refl

two_reached_example :
    (is : List Tid) × ((run 0 (start rounds) is).a.pc ≡ completed)
    × ((run 0 (start rounds) is).b.pc ≡ completed)
    × ((run 0 (start rounds) is).result ≡ 2)
two_reached_example = two_reached 0 refl rounds (omega arith) (omega arith)
