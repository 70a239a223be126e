-- ===== src/KeyIo/Tests.antt =====
-- The theorems about the key drivers at concrete runs.
use linux_driver_kb.Prelude.{
  inl, ◌++◌, replicate, Bool, not, ℕ, ◌≡◌, ◌≢◌, refl, true, false, some, List, [], ◌∷◌, arith,
  if◌then◌else◌, ◌==◌,
}
use linux_driver_kb.Prelude.Int.{pos}
use linux_driver_kb.KeyIo.{
  Keys, sleeping, taking, back, Event, enter, proceed, edge, tick, expire, notified, fresh,
  set_key_value, notify_readers, debounce_timer_handler, step, run, read_step,
  gpio_interrupt_handler,
}
use linux_driver_kb.KeyIo.Wake.{Awake, run-Awake, press-read, delivery}
use linux_driver_kb.KeyIo.Value.{read-one}
use linux_driver_kb.KeyIo.Fasync
use linux_driver_kb.KeyIo.Fasync.{run_asleep}
use linux_driver_kb.KeyIo.Listeners.{FasyncHelper, is_among, release_all, release-wakes}

-- A blocking read goes to sleep, the key is crowd, and the reader takes the value. 50 ms are one
-- tick here.
abbrev press : List Event
press =
    enter 0 false
    ∷ proceed 0 0
    ∷ proceed 0 0
    ∷ edge
    ∷ tick
    ∷ expire 0
    ∷ notified
    ∷ proceed 0 0
    ∷ proceed 0 0
    ∷ proceed 0 0
    ∷ []

run-Awake_example :
    let end = run 1 debounce_timer_handler fresh press in
    let after = step 1 debounce_timer_handler end notified in
    Awake end × ((i : ℕ) → after.readers i ≡ sleeping → after.key_value ≡ 0)
unfolding fresh
run-Awake_example = run-Awake 1 press fresh (λ i e. inl refl)

read-one_example : (◌≡◌ {A = ℕ} 1 1) × (pos 0 ≡ pos 0)
unfolding run step read_step gpio_interrupt_handler set_key_value notify_readers fresh
read-one_example = read-one 1 press (pos 0) 1 (omega arith) refl

-- Readers 0 and 1 have both passed their test, and reader 2 sleeps; the timer is due.
abbrev crowd : Keys
crowd = record {
  key_value = 1;
  readers = λ i. if i == 2 then sleeping else taking;
  fasync = true;
  sigio = 0;
  jiffies = 4;
  due = some 4;
  notifying = false;
}

-- The line bounces, and reader 0 takes the flag, before the press that counts.
abbrev bounces : List Event
bounces = edge ∷ proceed 0 0 ∷ tick ∷ proceed 0 0 ∷ edge ∷ tick ∷ []

press-read_example :
    let s' =
      run 3 debounce_timer_handler crowd (bounces ++ (edge ∷ (replicate 3 tick ++ delivery 2))) in
    (s'.readers 2 ≡ back (pos 0) (some 1)) × (s'.key_value ≡ 0)
press-read_example = press-read 3 2 bounces crowd (tt, (tt, (tt, (tt, (tt, (tt, tt)))))) refl refl

run_asleep_example :
    (run 1 Fasync.debounce_timer_handler crowd
        (expire 0 ∷ notified ∷ proceed 2 0 ∷ edge ∷ tick ∷ expire 0 ∷ notified ∷ [])).readers
      2
    ≡ sleeping
run_asleep_example =
    run_asleep 1 2 (expire 0 ∷ notified ∷ proceed 2 0 ∷ edge ∷ tick ∷ expire 0 ∷ notified ∷ [])
      crowd (omega arith) refl refl

-- A list of files.
abbrev without : ℕ → List ℕ → List ℕ
without file [] = []
without file (f ∷ files) = if file == f then without file files else f ∷ without file files

without-removes : (file : ℕ) (files : List ℕ) → is_among file (without file files) ≡ false
without-removes file [] = refl
without-removes file (f ∷ files) = ground (arith, without-removes file files)

without-keeps :
    (file other : ℕ) (files : List ℕ)
    → other ≢ file
    → is_among other (without file files) ≡ is_among other files
without-keeps file other [] ne = refl
without-keeps file other (f ∷ files) ne = ground (arith, ne, without-keeps file other files ne)

abbrev is_empty : List ℕ → Bool
is_empty [] = true
is_empty _ = false

none_among : (files : List ℕ) → ((file : ℕ) → is_among file files ≡ false) → is_empty files ≡ true
none_among [] h = refl
none_among (f ∷ files) h = absurd (ground (arith, h f))

abbrev file_list : FasyncHelper
file_list = record {
  Listeners = List ℕ;
  fasync_helper =
      λ fd file mode files. if mode then (pos 1, file ∷ files) else (pos 0, without file files);
  listens = is_among;
  is_null = is_empty;
  removes = λ fd. without-removes;
  keeps_others = λ fd. without-keeps;
  null_if_none = none_among;
}

listed : (file : ℕ) → is_among file (3 ∷ 4 ∷ []) ≡ true → is_among file (4 ∷ 3 ∷ []) ≡ true
listed file h = ground (arith, h)

release-wakes_example :
    let now = record crowd {
      fasync = not (is_empty (release_all file_list (4 ∷ 3 ∷ []) (3 ∷ 4 ∷ [])));
    } in
    let s' = Fasync.debounce_timer_handler.notify (Fasync.debounce_timer_handler.set_value now 0) in
    (s'.key_value ≡ 1) × (s'.sigio ≡ crowd.sigio) × ((i : ℕ) → s'.readers i ≢ sleeping)
release-wakes_example = release-wakes file_list (4 ∷ 3 ∷ []) (3 ∷ 4 ∷ []) crowd listed
