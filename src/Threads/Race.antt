-- ===== src/Threads/Race.antt =====
-- Without a lock: how many additions can get lost.
use linux_driver_kb.Prelude.{
  ℕ, ◌+◌, ◌^◌, ◌≤◌, ◌<◌, ◌≡◌, zero, suc, none, ap, ◌∙◌, true, false, List, [], ◌∷◌, ◌++◌, arith,
}
use linux_driver_kb.Threads.{
  Tid, first, second, head, loaded, completed, Thread, State, takes_lock, step, run, start,
}
use linux_driver_kb.Threads.Exclusion.{inside, owed}
use linux_driver_kb.Threads.Progress.{run-append}

-- What is true of one thread; `total` is the number of additions that both have still to make.
pub record ThreadIsRacy (n total result : ℕ) (t : Thread) : Type 0 where
  pub left_le : t.left ≤ n
  pub inside_left : inside t.pc ≡ true → 0 < t.left
  pub over : t.pc ≡ completed → t.left ≡ 0
  pub first_done : owed t < n → 0 < result
  pub loaded_le : (v : ℕ) → t.pc ≡ loaded v → v + total ≤ n + n
  pub loaded_later : (v : ℕ) → t.pc ≡ loaded v → t.left < n → 0 < v

pub record IsRacy (n : ℕ) (s : State) : Type 0 where
  pub first_racy : ThreadIsRacy n (owed s.a + owed s.b) s.result s.a
  pub second_racy : ThreadIsRacy n (owed s.a + owed s.b) s.result s.b
  pub result_le : s.result + (owed s.a + owed s.b) ≤ n + n
  pub both_done : owed s.a ≡ 0 → owed s.b ≡ 0 → 2 ≤ s.result

module _ (type n : ℕ) (two : 2 ≤ n) (few : n + n < 2 ^ 32) where
  step-IsRacy : (s : State) (i : Tid) → IsRacy n s → IsRacy n (step type s i)
  unfolding step
  step-IsRacy s first h = grind arith
  step-IsRacy s second h = grind arith

  run-IsRacy : (is : List Tid) (s : State) → IsRacy n s → IsRacy n (run type s is)
  unfolding run
  run-IsRacy [] s h = h
  run-IsRacy (i ∷ is) s h = run-IsRacy is (step type s i) (step-IsRacy s i h)

  start-IsRacy : IsRacy n (start n)
  unfolding start
  start-IsRacy = grind arith

-- With a lock or without: when after some schedule both threads have called complete(), the counter is at
-- least 2 and at most twice the rounds, if there are two rounds or more and no `unsigned int` overflows.
pub result-bounds :
    (type n : ℕ) (is : List Tid)
    → 2 ≤ n
    → n + n < 2 ^ 32
    → (run type (start n) is).a.pc ≡ completed
    → (run type (start n) is).b.pc ≡ completed
    → (2 ≤ (run type (start n) is).result) × ((run type (start n) is).result ≤ n + n)
result-bounds type n is two few ea eb =
    let h = run-IsRacy type n two few is (start n) (start-IsRacy type n two few) in
    let left_a = h.first_racy.over ea in
    let left_b = h.second_racy.over eb in ground (arith, h.both_done, h.result_le)

-- A thread on its own.
abbrev alone : Tid → ℕ → List Tid
alone i zero = []
alone i (suc k) = i ∷ i ∷ i ∷ i ∷ alone i k

abbrev at_head : ℕ → Thread
at_head left = record { pc = head; left = left }

abbrev unlocked_state : ℕ → Thread → Thread → State
unlocked_state r a b = record { result = r; owner = none; a = a; b = b }

module _ (type : ℕ) (unlocked : takes_lock type ≡ false) where
  second_round :
      (r left : ℕ) (a : Thread)
      → r + 1 < 2 ^ 32
      → run type (unlocked_state r a (at_head (suc left))) (second ∷ second ∷ second ∷ second ∷ [])
        ≡ unlocked_state (r + 1) a (at_head left)
  unfolding run step
  second_round r left a fits = ground arith

  first_round :
      (r left : ℕ) (b : Thread)
      → r + 1 < 2 ^ 32
      → run type (unlocked_state r (at_head (suc left)) b) (first ∷ first ∷ first ∷ first ∷ [])
        ≡ unlocked_state (r + 1) (at_head left) b
  unfolding run step
  first_round r left b fits = ground arith

  second_alone :
      (k r left : ℕ) (a : Thread)
      → r + k < 2 ^ 32
      → run type (unlocked_state r a (at_head (k + left))) (alone second k)
        ≡ unlocked_state (r + k) a (at_head left)
  unfolding run
  second_alone zero r left a fits = ground arith
  second_alone (suc k) r left a fits =
      let same : suc k + left ≡ suc (k + left) = omega arith in
      ap (λ l. run type (unlocked_state r a (at_head l)) (alone second (suc k))) same
      ∙ ap (λ s. run type s (alone second k)) (second_round r (k + left) a (omega (arith, fits)))
      ∙ second_alone k (r + 1) left a (omega (arith, fits))
      ∙ ap (λ x. unlocked_state x a (at_head left)) (omega arith)

  first_alone :
      (k r left : ℕ) (b : Thread)
      → r + k < 2 ^ 32
      → run type (unlocked_state r (at_head (k + left)) b) (alone first k)
        ≡ unlocked_state (r + k) (at_head left) b
  unfolding run
  first_alone zero r left b fits = ground arith
  first_alone (suc k) r left b fits =
      let same : suc k + left ≡ suc (k + left) = omega arith in
      ap (λ l. run type (unlocked_state r (at_head l) b) (alone first (suc k))) same
      ∙ ap (λ s. run type s (alone first k)) (first_round r (k + left) b (omega (arith, fits)))
      ∙ first_alone k (r + 1) left b (omega (arith, fits))
      ∙ ap (λ x. unlocked_state x (at_head left) b) (omega arith)

  -- The first thread loads 0 and stores 1 only when the second has one round to go; that one loads 1, and
  -- stores 2 when the first has made all its rounds.
  abbrev worst : ℕ → List Tid
  worst m =
      (first ∷ first ∷ [])
      ++ (alone second (suc m)
          ++ ((first ∷ first ∷ second ∷ second ∷ [])
              ++ (alone first (suc m) ++ (first ∷ second ∷ second ∷ second ∷ []))))

  abbrev half_way : ℕ → ℕ → Thread
  half_way value left = record { pc = loaded value; left = left }

  abbrev over : Thread
  over = record { pc = completed; left = 0 }

  first_loads :
      (m : ℕ)
      → run type (start (suc (suc m))) (first ∷ first ∷ [])
        ≡ unlocked_state 0 (half_way 0 (suc (suc m))) (at_head (suc m + 1))
  unfolding run step start
  first_loads m = ground arith

  cross :
      (m r : ℕ)
      → run type
          (unlocked_state r (half_way 0 (suc (suc m))) (at_head 1))
          (first ∷ first ∷ second ∷ second ∷ [])
        ≡ unlocked_state 1 (at_head (suc m + 0)) (half_way 1 1)
  unfolding run step
  cross m r = ground arith

  second_stores :
      (r : ℕ)
      → run type
          (unlocked_state r (at_head 0) (half_way 1 1))
          (first ∷ second ∷ second ∷ second ∷ [])
        ≡ unlocked_state 2 over over
  unfolding run step
  second_stores r = ground arith

  phase :
      (s : State) {t u : State} (is js : List Tid)
      → run type s is ≡ t
      → run type t js ≡ u
      → run type s (is ++ js) ≡ u
  phase s is js one two = run-append type s is js ∙ ap (λ x. run type x js) one ∙ two

  worst_lem :
      (m : ℕ)
      → suc m + 1 < 2 ^ 32
      → run type (start (suc (suc m))) (worst m) ≡ unlocked_state 2 over over
  worst_lem m fits = phase _ _ _ (first_loads m) (
      phase _ _ _ (second_alone (suc m) 0 1 (half_way 0 (suc (suc m))) (omega (arith, fits))) (
        phase _ _ _ (cross m (0 + suc m)) (
          phase _ _ _ (first_alone (suc m) 1 0 (half_way 1 1) (omega (arith, fits)))
            (second_stores (1 + suc m)))))

  -- Without a lock the lower bound is reached, however many rounds the threads have: all additions but two
  -- can get lost.
  pub two_reached :
      (n : ℕ)
      → 2 ≤ n
      → n < 2 ^ 32
      → (is : List Tid) × ((run type (start n) is).a.pc ≡ completed)
        × ((run type (start n) is).b.pc ≡ completed)
        × ((run type (start n) is).result ≡ 2)
  two_reached zero two fits = absurd (omega (arith, two))
  two_reached (suc zero) two fits = absurd (omega (arith, two))
  two_reached (suc (suc m)) two fits =
      let end = worst_lem m (omega (arith, fits)) in
      (worst m, ap (λ s. s.a.pc) end, ap (λ s. s.b.pc) end, ap (λ s. s.result) end)
