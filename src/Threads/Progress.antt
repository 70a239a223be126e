-- ===== src/Threads/Progress.antt =====
-- With a lock the threads can always finish; without one additions get lost.
use linux_driver_kb.Prelude.{
  ℕ, zero, suc, ◌+◌, ◌-◌, ◌*◌, ◌%◌, ◌^◌, ◌≤◌, ◌<◌, ◌≡◌, refl, true, false, none, some, List, [],
  ◌∷◌, ◌++◌, arith, ◌==◌, if◌then◌else◌, dec_lt,
}
use linux_driver_kb.Threads.{
  Tid, first, second, head, critical, loaded, stored, completed, Thread, State, takes_lock, step,
  run, start,
}
use linux_driver_kb.Threads.Exclusion.{IsSound, step-IsSound, run-IsSound, start-IsSound, sound_end}

-- The steps that a thread has still to make.
abbrev pub to_go : Thread → ℕ
to_go t = elim t.pc [
  | head ↦ 4 * t.left + 1
  | critical ↦ 4 * t.left
  | loaded v ↦ 4 * t.left - 1
  | stored ↦ 4 * t.left - 2
  | completed ↦ 0
]

-- Whose turn moves the system on: the lock's owner's, or that of one who is not done.
abbrev pub turn : State → Tid
turn s = elim s.owner [ some i ↦ i | none ↦ if to_go s.a == 0 then second else first ]

module _ (type total : ℕ) (locked : takes_lock type ≡ true) where
  pub step_progress :
      (s : State)
      → IsSound total s
      → 0 < to_go s.a + to_go s.b
      → let s' = step type s (turn s) in to_go s'.a + to_go s'.b < to_go s.a + to_go s.b
  unfolding step
  step_progress s h busy = grind arith

  pub both_over :
      (s : State)
      → IsSound total s
      → to_go s.a + to_go s.b ≡ 0
      → (s.a.pc ≡ completed) × (s.b.pc ≡ completed)
  both_over s h done = ground (arith, h)

  -- From a sound state a schedule brings both threads to their end.
  finish :
      (fuel : ℕ) (s : State)
      → IsSound total s
      → to_go s.a + to_go s.b ≤ fuel
      → (is : List Tid) × ((run type s is).a.pc ≡ completed)
        × ((run type s is).b.pc ≡ completed)
        × IsSound total (run type s is)
  unfolding run
  finish zero s h few = let (ea, eb) = both_over s h (omega arith) in ([], ea, eb, h)
  finish (suc fuel) s h few = elim (dec_lt 0 (to_go s.a + to_go s.b)) [
    | yes busy ↦
        let (is, ea, eb, h') =
          finish fuel (step type s (turn s)) (step-IsSound type total locked s (turn s) h)
            (omega (arith, step_progress s h busy)) in
        (turn s ∷ is, ea, eb, h')
    | no done ↦ let (ea, eb) = both_over s h (omega arith) in ([], ea, eb, h)
  ]

pub run-append :
    (type : ℕ) (s : State) (is js : List Tid) → run type s (is ++ js) ≡ run type (run type s is) js
unfolding run
run-append type s [] js = refl
run-append type s (i ∷ is) js = run-append type (step type s i) is js

-- With the spin lock or the mutex no schedule ends in a deadlock: each can be continued so that both
-- threads finish, and then the counter is twice the rounds.
pub can_finish :
    (type n : ℕ) (is : List Tid)
    → takes_lock type ≡ true
    → (js : List Tid) × (let s = run type (start n) (is ++ js) in
        (s.a.pc ≡ completed) × (s.b.pc ≡ completed) × (s.result ≡ (n + n) % 2 ^ 32))
can_finish type n is locked =
    let now = run type (start n) is in
    let h = run-IsSound type (n + n) locked is (start n) (start-IsSound n) in
    let (js, ea, eb, h') =
      finish type (n + n) locked (to_go now.a + to_go now.b) now h (omega arith) in
    (
      js,
      rw (run-append type (start n) is js) (ea, eb, sound_end (n + n) (run type now js) h' ea eb),
    )

-- Without a lock, when both threads are about to add and both load before either stores, the two
-- additions raise the counter by one.
pub lost_addition :
    (type : ℕ) (s : State)
    → takes_lock type ≡ false
    → s.a.pc ≡ critical
    → s.b.pc ≡ critical
    → let s' = run type s (first ∷ second ∷ first ∷ second ∷ []) in
      (s'.a.pc ≡ stored) × (s'.b.pc ≡ stored) × (s'.result ≡ (s.result + 1) % 2 ^ 32)
unfolding run step
lost_addition type s unlocked pa pb = ground arith
