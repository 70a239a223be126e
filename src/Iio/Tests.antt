-- ===== src/Iio/Tests.antt =====
-- The theorems about the sensor at concrete states.
use linux_driver_kb.Prelude.{List, ◌+◌, ◌++◌, ◌≡◌, refl, true, none, [], ◌∷◌, replicate, arith}
use linux_driver_kb.Prelude.Int.{negsuc}
use linux_driver_kb.Iio.{
  ch0, ch1, rising, falling, int_time, probed, Priv, lux_auto_change, push_events,
}
use linux_driver_kb.Iio.Light.{Call, write_raw, write_event_value, timer, trigger, run}
use linux_driver_kb.Iio.Scan
use linux_driver_kb.Iio.Scan.{Who, dark, timer_step, trigger_step, AllHalved, run-halved}
use linux_driver_kb.Iio.Types.{IsTyped, run-IsTyped}
use linux_driver_kb.Iio.Crossing.{count, elapse, full_circle}

abbrev watching : Priv
watching = record {
  current_lux = (30, 15);
  freq = 1;
  event = (true, true);
  high_thresh = (32, 100);
  low_thresh = (31, 20);
  due = none;
  events = [];
  scans = [];
}

two_ticks : (elapse 100 (0 ∷ 100 ∷ []) watching).events ≡ (ch0, rising) ∷ (ch0, falling) ∷ []
unfolding elapse lux_auto_change push_events
two_ticks = refl

full_circle_example :
    count (ch1, rising) (elapse 100 (replicate 256 0) watching).events ≡ 2 + count (ch1, rising) []
full_circle_example =
    full_circle 100 ch1 rising (replicate 256 0) watching refl (omega arith) refl (omega arith)

-- Negative numbers are written, the light changes, and a scan is taken.
abbrev some_calls : List Call
some_calls =
    write_raw 0 ch0 (negsuc 0) int_time
    ∷ write_event_value ch1 falling (negsuc 300)
    ∷ timer 100
    ∷ trigger
    ∷ []

some_calls-IsTyped : IsTyped (run 100 (probed 100 0) some_calls)
some_calls-IsTyped = run-IsTyped 100 0 some_calls

-- The timer comes between the two copies of the trigger, and has to wait.
abbrev schedule : List Who
schedule =
    replicate 8 Scan.timer
    ++ (Scan.trigger ∷ Scan.trigger ∷ Scan.timer ∷ Scan.timer ∷ Scan.trigger ∷ Scan.trigger
        ∷ Scan.timer ∷ Scan.timer ∷ Scan.trigger ∷ [])

one_scan : (Scan.run dark schedule).scans ≡ (2, 1) ∷ []
unfolding Scan.run Scan.step timer_step trigger_step dark
one_scan = refl

run-halved_example : AllHalved (Scan.run dark schedule).scans
run-halved_example = run-halved schedule
