-- ===== src/Threads/Suite.antt =====
-- concurrency_control_init: ten tests, one after the other.
use linux_driver_kb.Prelude.{
  ℕ, zero, suc, ◌+◌, ◌*◌, ◌%◌, ◌^◌, ◌≤◌, ◌≡◌, refl, Bool, true, false, if◌then◌else◌, ◌&&◌, List,
  [], ◌∷◌, length, replicate,
}
use linux_driver_kb.Prelude.Int.{ℤ, pos, negsuc}
use linux_driver_kb.Kernel.Ledger.{Outcome, ok, fail}
use linux_driver_kb.Threads.{Tid, Pc, completed, State, takes_lock, run, start, rounds}
use linux_driver_kb.Threads.Fair.{AllFair, joined, fair_ends}

-- TEST_CNT.
abbrev pub test_cnt : ℕ
test_cnt = 10

-- What the kernel does in one test: how the two calls of kthread_run end, and how the threads run while
-- the module waits for them.
pub record Given : Type 0 where
  pub first_start : Outcome
  pub second_start : Outcome
  pub schedule : List Tid

-- `waits`: a thread has not called complete() when the schedule ends. The results are those printed.
pub data Suite : Type 0 where
  ended : ℤ → List ℕ → Suite
  waits : List ℕ → Suite

abbrev pub is_completed : Pc → Bool
is_completed completed = true
is_completed _ = false

abbrev with_result : ℕ → Suite → Suite
with_result r (ended ret rs) = ended ret (r ∷ rs)
with_result r (waits rs) = waits (r ∷ rs)

-- What comes after both threads were started: the rest of the tests is asked for when they are done.
unfoldable pub after_start : State → Suite → Suite
after_start s rest =
    if is_completed s.a.pc && is_completed s.b.pc then with_result s.result rest else waits []

abbrev started : Outcome → Outcome → Suite → Suite
started (fail n) _ next = ended (negsuc n) []
started ok (fail n) next = ended (negsuc n) []
started ok ok next = next

-- `tests_left` counts TEST_CNT down; `given j` is for the test with j still to follow.
unfoldable pub concurrency_tests : ℕ → ℕ → (ℕ → Given) → ℕ → Suite
unfolding after_start
concurrency_tests type n given zero = ended (pos 0) []
concurrency_tests type n given (suc tests_left) =
    let rest = concurrency_tests type n given tests_left in
    let g = given tests_left in
    started g.first_start g.second_start (after_start (run type (start n) g.schedule) rest)

unfoldable pub concurrency_control_init : ℕ → (ℕ → Given) → Suite
unfolding concurrency_tests
concurrency_control_init type given = concurrency_tests type rounds given test_cnt

-- Both threads start, and run fairly for long enough.
pub record IsFair (n : ℕ) (g : Given) : Type 0 where
  pub first_starts : g.first_start ≡ ok
  pub second_starts : g.second_start ≡ ok
  pub parts : List (List Tid)
  pub all_fair : AllFair parts
  pub enough : 8 * n + 2 ≤ length parts
  pub its_schedule : g.schedule ≡ joined parts

after_both :
    (s : State) (r : ℕ) {rest : Suite} {rs : List ℕ}
    → s.a.pc ≡ completed
    → s.b.pc ≡ completed
    → s.result ≡ r
    → rest ≡ ended (pos 0) rs
    → after_start s rest ≡ ended (pos 0) (r ∷ rs)
unfolding after_start
after_both s r ea eb e ih = rw (ea, eb, e, ih) refl

tests_end :
    (type n : ℕ) (given : ℕ → Given) (tests_left : ℕ)
    → takes_lock type ≡ true
    → ((j : ℕ) → IsFair n (given j))
    → concurrency_tests type n given tests_left
      ≡ ended (pos 0) (replicate tests_left ((n + n) % 2 ^ 32))
unfolding concurrency_tests
tests_end type n given zero locked fair = refl
tests_end type n given (suc tests_left) locked fair =
    let f = fair tests_left in
    let (ea, eb, e) = fair_ends type n [] f.parts locked f.all_fair f.enough in
    let ih = tests_end type n given tests_left locked fair in
    rw (f.first_starts, f.second_starts, f.its_schedule)
      (after_both (run type (start n) (joined f.parts)) ((n + n) % 2 ^ 32) ea eb e ih)

-- With the spin lock or the mutex, when in each test both threads are started and run fairly, for 8
-- parts of the schedule for each round and 2 more, the module loads with success, and each of the ten
-- tests prints twice the rounds, 4000000.
pub concurrency_control_init-ends :
    (type : ℕ) (given : ℕ → Given)
    → takes_lock type ≡ true
    → ((j : ℕ) → IsFair rounds (given j))
    → concurrency_control_init type given ≡ ended (pos 0) (replicate test_cnt 4000000)
unfolding concurrency_control_init
concurrency_control_init-ends type given = tests_end type rounds given test_cnt
