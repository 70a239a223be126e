-- ===== src/Threads/Exclusion.antt =====
-- With a lock no addition is lost.
use linux_driver_kb.Prelude.{
  ℕ, ◌+◌, ◌-◌, ◌%◌, ◌^◌, ◌<◌, ◌≡◌, Bool, true, false, some, List, [], ◌∷◌, arith,
}
use linux_driver_kb.Threads.{
  Tid, first, second, Pc, critical, loaded, stored, completed, Thread, State, takes_lock, step, run,
  start,
}

-- The thread is between taking the lock and giving it back.
abbrev pub inside : Pc → Bool
inside critical = true
inside (loaded v) = true
inside stored = true
inside _ = false

-- The additions that a thread has still to make.
abbrev pub owed : Thread → ℕ
owed t = elim t.pc [ stored ↦ t.left - 1 | _ ↦ t.left ]

pub record IsSound (total : ℕ) (s : State) : Type 0 where
  pub first_owns : inside s.a.pc ≡ true → s.owner ≡ some first
  pub second_owns : inside s.b.pc ≡ true → s.owner ≡ some second
  pub first_fresh : (v : ℕ) → s.a.pc ≡ loaded v → v ≡ s.result
  pub second_fresh : (v : ℕ) → s.b.pc ≡ loaded v → v ≡ s.result
  pub first_left : inside s.a.pc ≡ true → 0 < s.a.left
  pub second_left : inside s.b.pc ≡ true → 0 < s.b.left
  pub first_over : s.a.pc ≡ completed → s.a.left ≡ 0
  pub second_over : s.b.pc ≡ completed → s.b.left ≡ 0
  pub owner_inside :
      (s.owner ≡ some first → inside s.a.pc ≡ true) × (s.owner ≡ some second → inside s.b.pc ≡ true)
  pub word : s.result < 2 ^ 32
  pub counted : (s.result + owed s.a + owed s.b) % 2 ^ 32 ≡ total % 2 ^ 32

module _ (type total : ℕ) (locked : takes_lock type ≡ true) where
  pub step-IsSound : (s : State) (i : Tid) → IsSound total s → IsSound total (step type s i)
  unfolding step
  step-IsSound s first h = grind arith
  step-IsSound s second h = grind arith

  pub run-IsSound : (is : List Tid) (s : State) → IsSound total s → IsSound total (run type s is)
  unfolding run
  run-IsSound [] s h = h
  run-IsSound (i ∷ is) s h = run-IsSound is (step type s i) (step-IsSound s i h)

pub start-IsSound : (n : ℕ) → IsSound (n + n) (start n)
unfolding start
start-IsSound n = grind arith

pub sound_end :
    (total : ℕ) (s : State)
    → IsSound total s
    → s.a.pc ≡ completed
    → s.b.pc ≡ completed
    → s.result ≡ total % 2 ^ 32
sound_end total s h ea eb = ground (arith, h)

-- With the spin lock or the mutex, after every schedule the threads are not both between lock and
-- unlock.
pub lock-excludes :
    (type n : ℕ) (is : List Tid)
    → takes_lock type ≡ true
    → let s = run type (start n) is in ¬ ((inside s.a.pc ≡ true) × (inside s.b.pc ≡ true))
lock-excludes type n is locked =
    let h = run-IsSound type (n + n) locked is (start n) (start-IsSound n) in
    λ both. cc (h.first_owns both.0, h.second_owns both.1)

-- With the spin lock or the mutex, when after some schedule both threads have called complete(), the
-- counter is twice the rounds, as an `unsigned int`.
pub result-exact :
    (type n : ℕ) (is : List Tid)
    → takes_lock type ≡ true
    → (run type (start n) is).a.pc ≡ completed
    → (run type (start n) is).b.pc ≡ completed
    → (run type (start n) is).result ≡ (n + n) % 2 ^ 32
result-exact type n is locked =
    sound_end (n + n) (run type (start n) is)
      (run-IsSound type (n + n) locked is (start n) (start-IsSound n))
