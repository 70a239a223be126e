-- ===== src/Watchdog.antt =====
-- The software watchdogs of 14.watchdog/driver/soft_wdt.c: each has a timer that restarts the machine
-- and one that warns before; an armed watchdog keeps the module loaded.
pub mod Refs
pub mod Timing
pub mod Setup
mod Tests
use linux_driver_kb.Prelude.{
  ℕ, zero, suc, ◌+◌, ◌-◌, ◌*◌, ◌%◌, ◌^◌, ◌==◌, Bool, true, false, not, Option, none, some, List, [],
  ◌∷◌, get_elem?, if◌then◌else◌,
}

-- One watchdog: its settings in seconds, which the watchdog core keeps, and when its timers are due
-- (`none`: not pending).
pub record Softdog : Type 0 where
  pub timeout : ℕ  -- unsigned int
  pub pretimeout : ℕ  -- unsigned int
  pub fire : Option ℕ
  pub pre : Option ℕ

-- All watchdogs, the module's reference count and whether a restart was initiated.
pub record Dogs : Type 0 where
  pub dogs : List Softdog
  pub refs : ℕ
  pub restarted : Bool
  pub notified : ℕ

abbrev pub pending : Option ℕ → Bool
pending none = false
pending (some _) = true

-- `-` and `*` of unsigned int.
abbrev pub sub32 : ℕ → ℕ → ℕ
sub32 a b = (a + 2 ^ 32 - b) % 2 ^ 32

abbrev pub in_jiffies : ℕ → ℕ → ℕ
in_jiffies hz seconds = seconds * hz % 2 ^ 32

-- softdog_ping: the watchdog after it, and whether the module gains a reference.
unfoldable pub softdog_ping : ℕ → ℕ → Softdog → Softdog × Bool
softdog_ping hz jiffies w = (
  record w {
    fire = some (jiffies + in_jiffies hz w.timeout);
    pre =
        if w.pretimeout == 0
        then none
        else some (jiffies + in_jiffies hz (sub32 w.timeout w.pretimeout));
  },
  not (pending w.fire),
)

-- softdog_stop: the watchdog after it, and whether the module loses a reference.
unfoldable pub softdog_stop : Softdog → Softdog × Bool
softdog_stop w = (record w { fire = none; pre = none }, pending w.fire)

abbrev pub change : List Softdog → ℕ → Softdog → List Softdog
change [] i w = []
change (x ∷ xs) zero w = w ∷ xs
change (x ∷ xs) (suc i) w = x ∷ change xs i w

-- What happens to the watchdog `i`: a ping, a stop, or one of its timers runs out. A timer that runs
-- out is no longer pending.
pub data Event : Type 0 where
  ping : ℕ → ℕ → Event
  stop : ℕ → Event
  fires : ℕ → Event
  warns : ℕ → Event

-- softdog_fire, with the module's reference put back.
unfoldable pub softdog_fire : Dogs → Dogs
softdog_fire s = record s { refs = s.refs - 1; restarted = true }

unfoldable pub softdog_pretimeout : Dogs → Dogs
softdog_pretimeout s = record s { notified = s.notified + 1 }

unfoldable pub on_dog : ℕ → Dogs → Event → Softdog → Dogs
unfolding softdog_ping softdog_stop softdog_fire softdog_pretimeout
on_dog hz s (ping i jiffies) w =
    let (w', gained) = softdog_ping hz jiffies w in
    record s { dogs = change s.dogs i w'; refs = if gained then s.refs + 1 else s.refs }
on_dog hz s (stop i) w =
    let (w', lost) = softdog_stop w in
    record s { dogs = change s.dogs i w'; refs = if lost then s.refs - 1 else s.refs }
on_dog hz s (fires i) w =
    if pending w.fire
    then softdog_fire (record s { dogs = change s.dogs i (record w { fire = none }) })
    else s
on_dog hz s (warns i) w =
    if pending w.pre
    then softdog_pretimeout (record s { dogs = change s.dogs i (record w { pre = none }) })
    else s

abbrev pub subject : Event → ℕ
subject (ping i jiffies) = i
subject (stop i) = i
subject (fires i) = i
subject (warns i) = i

-- An event of a watchdog that is not there is none.
unfoldable pub step : ℕ → Dogs → Event → Dogs
step hz s e = elim (get_elem? s.dogs (subject e)) [ none ↦ s | some w ↦ on_dog hz s e w ]

unfoldable pub run : ℕ → Dogs → List Event → Dogs
run hz s [] = s
run hz s (e ∷ es) = run hz (step hz s e) es
