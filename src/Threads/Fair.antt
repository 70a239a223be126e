-- ===== src/Threads/Fair.antt =====
-- With a lock and a fair schedule the threads end.
use linux_driver_kb.Prelude.{
  ℕ, ◌+◌, ◌*◌, ◌%◌, ◌^◌, ◌≤◌, ◌<◌, ◌≡◌, refl, ap, ◌⊎◌, inl, inr, Bool, true, false, ◌||◌, List, [],
  ◌∷◌, ◌++◌, length, arith, dec_lt,
}
use linux_driver_kb.Threads.{Tid, first, second, completed, State, takes_lock, step, run, start}
use linux_driver_kb.Threads.Exclusion.{IsSound, step-IsSound, run-IsSound, start-IsSound, sound_end}
use linux_driver_kb.Threads.Progress.{to_go, turn, step_progress, both_over, run-append}

abbrev same : Tid → Tid → Bool
same first first = true
same second second = true
same _ _ = false

-- The thread runs at least once.
abbrev pub runs_in : Tid → List Tid → Bool
runs_in i [] = false
runs_in i (j ∷ js) = same i j || runs_in i js

-- A schedule in parts, in each of which both threads run.
abbrev pub AllFair : List (List Tid) → Type 0
AllFair [] = Unit
AllFair (part ∷ parts) = (runs_in first part ≡ true) × (runs_in second part ≡ true) × AllFair parts

abbrev pub joined : List (List Tid) → List Tid
joined [] = []
joined (part ∷ parts) = part ++ joined parts

abbrev measure : State → ℕ
measure s = to_go s.a + to_go s.b

same_eq : (i j : Tid) → same i j ≡ true → i ≡ j
same_eq first first h = refl
same_eq first second h = absurd (cc h)
same_eq second first h = absurd (cc h)
same_eq second second h = refl

or_cases : (x y : Bool) → x || y ≡ true → (x ≡ true) ⊎ (y ≡ true)
or_cases true y h = inl refl
or_cases false y h = inr h

tid_cases : (i : Tid) → (i ≡ first) ⊎ (i ≡ second)
tid_cases first = inl refl
tid_cases second = inr refl

module _ (type total : ℕ) (locked : takes_lock type ≡ true) where
  -- A step moves the system on, or the thread waits for the lock, or is done.
  step_or_wait :
      (s : State) (i : Tid)
      → IsSound total s
      → (step type s i ≡ s) ⊎ (measure (step type s i) < measure s)
  unfolding step
  step_or_wait s first h = grind arith
  step_or_wait s second h = grind arith

  run_not_back : (is : List Tid) (s : State) → IsSound total s → measure (run type s is) ≤ measure s
  unfolding run
  run_not_back [] s h = omega arith
  run_not_back (i ∷ is) s h =
      let later = run_not_back is (step type s i) (step-IsSound type total locked s i h) in
      elim (step_or_wait s i h) [
        | inl e ↦ rw (run, e) (run_not_back is s h)
        | inr less ↦ omega (arith, later)
      ]

  part_progress :
      (is : List Tid) (s : State)
      → IsSound total s
      → 0 < measure s
      → runs_in (turn s) is ≡ true
      → measure (run type s is) < measure s
  unfolding run
  part_progress [] s h busy has = absurd (cc has)
  part_progress (i ∷ is) s h busy has =
      let now : runs_in (turn s) (i ∷ is) ≡ true = has in
      let later = run_not_back is (step type s i) (step-IsSound type total locked s i h) in
      elim (step_or_wait s i h) [
        | inr less ↦ omega (arith, later)
        | inl e ↦ elim (or_cases (same (turn s) i) (runs_in (turn s) is) now) [
          | inl mine ↦
              let less = step_progress type total locked s h busy in
              omega
                (arith, later, less, ap (λ j. measure (step type s j)) (same_eq (turn s) i mine))
          | inr rest ↦ rw (run, e) (part_progress is s h busy rest)
        ]
      ]

  fair_part :
      (part : List Tid) (s : State)
      → IsSound total s
      → 0 < measure s
      → runs_in first part ≡ true
      → runs_in second part ≡ true
      → measure (run type s part) < measure s
  fair_part part s h busy one two = elim (tid_cases (turn s)) [
    | inl e ↦ part_progress part s h busy (rw e one)
    | inr e ↦ part_progress part s h busy (rw e two)
  ]

  fair_end :
      (parts : List (List Tid)) (s : State)
      → IsSound total s
      → AllFair parts
      → measure s ≤ length parts
      → measure (run type s (joined parts)) ≡ 0
  unfolding run
  fair_end [] s h fair few = omega arith
  fair_end (part ∷ parts) s h (one, two, fair) few =
      let next = run type s part in
      let sound = run-IsSound type total locked part s h in
      let back = run_not_back part s h in
      let few' : measure next ≤ length parts = elim (dec_lt 0 (measure s)) [
        | yes busy ↦ omega (arith, few, fair_part part s h busy one two)
        | no done ↦ omega (arith, done, back)
      ] in
      rw (run-append type s part (joined parts)) (fair_end parts next sound fair few')

-- With the spin lock or the mutex both threads end on every fair schedule, whatever schedule came before
-- it: when it can be cut into 8 parts for each round and 2 more so that both threads run at least once in
-- each part, both have called complete() after it, and the counter is twice the rounds, as an `unsigned
-- int`.
pub fair_ends :
    (type n : ℕ) (is : List Tid) (parts : List (List Tid))
    → takes_lock type ≡ true
    → AllFair parts
    → 8 * n + 2 ≤ length parts
    → let s = run type (start n) (is ++ joined parts) in
      (s.a.pc ≡ completed) × (s.b.pc ≡ completed) × (s.result ≡ (n + n) % 2 ^ 32)
unfolding start
fair_ends type n is parts locked fair many =
    let total = n + n in
    let now = run type (start n) is in
    let h = run-IsSound type total locked is (start n) (start-IsSound n) in
    let back = run_not_back type total locked is (start n) (start-IsSound n) in
    let end = run type now (joined parts) in
    let h' = run-IsSound type total locked (joined parts) now h in
    let over = fair_end type total locked parts now h fair (omega (arith, many, back)) in
    let (ea, eb) = both_over type total locked end h' over in
    rw (run-append type (start n) is (joined parts)) (ea, eb, sound_end total end h' ea eb)
