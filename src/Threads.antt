-- ===== src/Threads.antt =====
-- 12.并发控制/driver/concurrency_control.c: two threads add to one counter, under a spin lock, a mutex
-- or no lock. `result++` is a load and a store, and the threads run interleaved.
pub mod Exclusion
pub mod Progress
pub mod Fair
pub mod Suite
pub mod Race
mod Tests
use linux_driver_kb.Prelude.{
  ℕ, ◌+◌, ◌-◌, ◌%◌, ◌^◌, Bool, true, false, Option, none, some, List, [], ◌∷◌, ◌==◌, ◌||◌,
  if◌then◌else◌,
}

-- THREAD_CNT is 2.
pub data Tid : Type 0 where
  first second : Tid

-- Where a thread is in the loop of thread_func: at its head or waiting for the lock, past the lock,
-- with `result` loaded, with it stored and the lock still held, or after complete().
pub data Pc : Type 0 where
  head critical stored completed : Pc
  loaded : ℕ → Pc

pub record Thread : Type 0 where
  pub pc : Pc
  pub left : ℕ  -- rounds that the loop has still to finish

-- The spin lock and the mutex are never used in one run, so one owner stands for either.
pub record State : Type 0 where
  pub result : ℕ  -- unsigned int
  pub owner : Option Tid
  pub a : Thread
  pub b : Thread

abbrev pub get : State → Tid → Thread
get s first = s.a
get s second = s.b

abbrev pub put : State → Tid → Thread → State
put s first t = record s { a = t }
put s second t = record s { b = t }

-- CONCURRENCY_CONTROL_SPINLOCK and CONCURRENCY_CONTROL_NUTEX
abbrev pub takes_lock : ℕ → Bool
takes_lock type = type == 1 || type == 2

-- At the head of the loop: done, or on to the lock, which may be taken.
unfoldable pub enter : ℕ → State → Tid → Thread → State
enter type s i t =
    if t.left == 0
    then put s i (record t { pc = completed })
    else if takes_lock type
    then elim s.owner [
      | none ↦ put (record s { owner = some i }) i (record t { pc = critical })
      | some _ ↦ s
    ]
    else put s i (record t { pc = critical })

-- One step of one thread.
unfoldable advance : ℕ → State → Tid → Thread → Pc → State
unfolding enter
advance type s i t head = enter type s i t
advance type s i t critical = put s i (record t { pc = loaded s.result })
advance type s i t (loaded v) =
    put (record s { result = (v + 1) % 2 ^ 32 }) i (record t { pc = stored })
advance type s i t stored =
    put (if takes_lock type then record s { owner = none } else s) i
      (record { pc = head; left = t.left - 1 })
advance type s i t completed = s

unfoldable pub step : ℕ → State → Tid → State
unfolding advance
step type s i = advance type s i (get s i) (get s i).pc

-- The steps of a schedule.
unfoldable pub run : ℕ → State → List Tid → State
run type s [] = s
run type s (i ∷ is) = run type (step type s i) is

-- One test of concurrency_control_init, where the threads have `n` rounds each.
unfoldable pub start : ℕ → State
start n = record {
  result = 0;
  owner = none;
  a = record { pc = head; left = n };
  b = record { pc = head; left = n };
}

-- The rounds of thread_func.
abbrev pub rounds : ℕ
rounds = 2000000
