-- ===== src/Usb/GChar/Readers.antt =====
-- Two readers in g_char_read, and the completions between their steps.
use linux_driver_kb.Prelude.{
  ℕ, ◌≡◌, refl, ◌⊎◌, Bool, true, false, if◌then◌else◌, List, [], ◌∷◌, ◌++◌, arith,
}
use linux_driver_kb.Prelude.Int.{ℤ, pos, negsuc}
use linux_driver_kb.Usb.GChar.{is_zero}

pub data Who : Type 0 where
  one two : Who

-- A reader: outside the function, before its test of r_able, asleep in the queue, or back with a
-- packet or with an error.
pub data Caller : Type 0 where
  outside runnable asleep : Caller
  delivered : List ℕ → Caller
  refused : ℤ → Caller

-- `queued`: the request is with the controller. `packet` is what req->buf holds, up to req->actual.
pub record Reading : Type 0 where
  pub r_able : Bool
  pub queued : Bool
  pub packet : List ℕ
  pub first : Caller
  pub second : Caller

-- A reader calls, and usb_ep_queue answers; a packet arrives; a reader goes on; a signal arrives.
pub data Event : Type 0 where
  call : Who → ℤ → Event
  arrive : List ℕ → Event
  go_on : Who → Event
  signal : Who → Event

abbrev pub reader : Reading → Who → Caller
reader s one = s.first
reader s two = s.second

abbrev pub set_reader : Reading → Who → Caller → Reading
set_reader s one r = record s { first = r }
set_reader s two r = record s { second = r }

-- Inside the function, waiting.
abbrev pub is_waiting : Caller → Bool
is_waiting runnable = true
is_waiting asleep = true
is_waiting _ = false

abbrev woken : Caller → Caller
woken asleep = runnable
woken r = r

-- g_char_complete for the out endpoint, after the controller has given the request back.
unfoldable pub g_char_complete : Reading → List ℕ → Reading
g_char_complete s bytes = record {
  r_able = true;
  queued = false;
  packet = bytes;
  first = woken s.first;
  second = woken s.second;
}

-- From the entry of g_char_read to the wait.
unfoldable pub begin_read : Reading → Who → ℤ → Reading
begin_read s i answer =
    let cleared = record s { r_able = false } in
    if is_zero answer
    then set_reader (record cleared { queued = true }) i runnable
    else set_reader cleared i (refused answer)

-- The test of r_able in the wait.
unfoldable pub test_able : Reading → Who → Reading
test_able s i = set_reader s i (if s.r_able then delivered s.packet else asleep)

-- usb_ep_dequeue gives a request that is queued back through its completion, with nothing in it.
unfoldable pub break_off : Reading → Who → Reading
unfolding g_char_complete
break_off s i = set_reader (if s.queued then g_char_complete s [] else s) i (refused (negsuc 511))

unfoldable pub step : Reading → Event → Reading
unfolding begin_read g_char_complete test_able break_off
step s (call i answer) = if is_waiting (reader s i) then s else begin_read s i answer
step s (arrive bytes) = if s.queued then g_char_complete s bytes else s
step s (go_on i) = elim (reader s i) [ runnable ↦ test_able s i | _ ↦ s ]
step s (signal i) = if is_waiting (reader s i) then break_off s i else s

unfoldable pub run : Reading → List Event → Reading
run s [] = s
run s (e ∷ es) = run (step s e) es

-- Only the first reader calls.
abbrev pub is_ones : Event → Bool
is_ones (call two _) = false
is_ones _ = true

abbrev pub AllOnes : List Event → Type 0
AllOnes [] = Unit
AllOnes (e ∷ es) = (is_ones e ≡ true) × AllOnes es

-- A reader that waits has its request queued, or the flag is set and it is not asleep.
pub record IsServed (s : Reading) : Type 0 where
  pub pending : is_waiting s.first ≡ true → (s.queued ≡ true) ⊎ (s.r_able ≡ true)
  pub awake : s.first ≡ asleep → s.r_able ≡ false
  pub alone : is_waiting s.second ≡ false

step-IsServed : (s : Reading) (e : Event) → is_ones e ≡ true → IsServed s → IsServed (step s e)
unfolding step begin_read g_char_complete test_able break_off
step-IsServed s (call one answer) own h = grind arith
step-IsServed s (call two answer) own h = absurd (cc own)
step-IsServed s (arrive bytes) own h = grind arith
step-IsServed s (go_on one) own h = grind arith
step-IsServed s (go_on two) own h = grind arith
step-IsServed s (signal one) own h = grind arith
step-IsServed s (signal two) own h = grind arith

run-IsServed : (es : List Event) (s : Reading) → AllOnes es → IsServed s → IsServed (run s es)
unfolding run
run-IsServed [] s own h = h
run-IsServed (e ∷ es) s (own, rest) h = run-IsServed es (step s e) rest (step-IsServed s e own h)

run-append : (s : Reading) (es fs : List Event) → run s (es ++ fs) ≡ run (run s es) fs
unfolding run
run-append s [] fs = refl
run-append s (e ∷ es) fs = run-append (step s e) es fs

-- Before the first call.
abbrev pub quiet : Reading
quiet = record { r_able = false; queued = false; packet = []; first = outside; second = outside }

quiet-IsServed : IsServed quiet
quiet-IsServed = grind arith

asleep_wakes :
    (s : Reading) (bytes : List ℕ)
    → IsServed s
    → s.first ≡ asleep
    → (run s (arrive bytes ∷ go_on one ∷ [])).first ≡ delivered bytes
unfolding run step g_char_complete test_able
asleep_wakes s bytes h sleeps = grind arith

-- While only one reader uses the file: whatever calls, packets and signals there were before, a reader
-- that sleeps is woken by the next packet and gets it.
pub sleeper_served :
    (es : List Event) (bytes : List ℕ)
    → AllOnes es
    → (run quiet es).first ≡ asleep
    → (run quiet (es ++ arrive bytes ∷ go_on one ∷ [])).first ≡ delivered bytes
sleeper_served es bytes own sleeps =
    rw (run-append quiet es (arrive bytes ∷ go_on one ∷ []))
      (asleep_wakes (run quiet es) bytes (run-IsServed es quiet own quiet-IsServed) sleeps)

-- Packets that arrive, and readers that go on.
abbrev pub is_progress : Event → Bool
is_progress (arrive _) = true
is_progress (go_on _) = true
is_progress _ = false

abbrev pub AllProgress : List Event → Type 0
AllProgress [] = Unit
AllProgress (e ∷ es) = (is_progress e ≡ true) × AllProgress es

abbrev IsStranded : Reading → Type 0
IsStranded s = (s.first ≡ asleep) × (s.queued ≡ false)

step-IsStranded :
    (s : Reading) (e : Event) → is_progress e ≡ true → IsStranded s → IsStranded (step s e)
unfolding step test_able g_char_complete
step-IsStranded s (call i answer) more h = absurd (cc more)
step-IsStranded s (arrive bytes) more h = grind arith
step-IsStranded s (go_on one) more h = grind arith
step-IsStranded s (go_on two) more h = grind arith
step-IsStranded s (signal i) more h = absurd (cc more)

run-IsStranded :
    (es : List Event) (s : Reading) → AllProgress es → IsStranded s → IsStranded (run s es)
unfolding run
run-IsStranded [] s more h = h
run-IsStranded (e ∷ es) s (more, rest) h =
    run-IsStranded es (step s e) rest (step-IsStranded s e more h)

failed_call :
    (s : Reading) (n : ℕ)
    → s.first ≡ runnable
    → s.second ≡ outside
    → s.queued ≡ false
    → IsStranded (step (step s (call two (negsuc n))) (go_on one))
unfolding step begin_read test_able
failed_call s n ready away given = grind arith

-- A reader whose packet has arrived, and which has not tested r_able yet, is put to sleep for good by a
-- second reader whose call fails at once: r_able is cleared before usb_ep_queue is asked, and no
-- request is with the controller. No packet and no step of a reader gets it out of its sleep.
pub second_call_strands :
    (s : Reading) (n : ℕ) (es : List Event)
    → s.first ≡ runnable
    → s.second ≡ outside
    → s.queued ≡ false
    → AllProgress es
    → (run (step (step s (call two (negsuc n))) (go_on one)) es).first ≡ asleep
second_call_strands s n es ready away given more =
    (run-IsStranded es (step (step s (call two (negsuc n))) (go_on one)) more
      (failed_call s n ready away given)).0

-- When a second reader calls with success while the first has been woken and has not tested r_able yet,
-- the first goes back to sleep, the next packet wakes both, and both are given that packet, whatever
-- packet the first was woken for.
pub second_call_overwrites :
    (s : Reading) (bytes : List ℕ)
    → s.first ≡ runnable
    → s.second ≡ outside
    → let s' = run s (call two (pos 0) ∷ go_on one ∷ arrive bytes ∷ go_on one ∷ go_on two ∷ []) in
      (s'.first ≡ delivered bytes) × (s'.second ≡ delivered bytes)
unfolding run step begin_read test_able g_char_complete
second_call_overwrites s bytes ready away = grind arith
