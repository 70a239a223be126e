-- ===== src/Input/Debounce.antt =====
-- The button of input-drv.c from its interrupts to its reports.
use linux_driver_kb.Prelude.{
  ℕ, suc, ◌+◌, ◌-◌, ◌<◌, ◌≡◌, refl, ap, ◌∙◌, Option, none, some, List, [], ◌∷◌, ◌++◌, length, map,
  leb, if◌then◌else◌, arith,
}

-- input_report_key followed by input_sync.
pub record Report : Type 0 where
  pub code : ℕ
  pub value : ℕ

-- `expires` is the timer's, while it is pending; jiffies do not wrap.
pub record Button : Type 0 where
  pub code : ℕ
  pub jiffies : ℕ
  pub expires : Option ℕ
  pub reports : List Report

-- An edge of the line, and a jiffy that passes, with the level of the line after it.
pub data Event : Type 0 where
  edge : Event
  tick : ℕ → Event

-- mod_timer starts the timer, or puts its end off.
unfoldable pub gpio_interrupt_handler : ℕ → Button → Button
gpio_interrupt_handler fifty_ms s = record s { expires = some (s.jiffies + fifty_ms) }

unfoldable pub debounce_timer_handler : ℕ → Button → Button
debounce_timer_handler level s = record s {
  reports = record { code = s.code; value = level } ∷ s.reports;
}

-- A timer that is due runs its handler once.
abbrev expired : Option ℕ → ℕ → Button → Button → Button
expired none now fires s = s
expired (some t) now fires s = if leb t now then fires else s

unfoldable pub step : ℕ → Button → Event → Button
unfolding gpio_interrupt_handler debounce_timer_handler
step fifty_ms s edge = gpio_interrupt_handler fifty_ms s
step fifty_ms s (tick level) =
    let later = record s { jiffies = s.jiffies + 1 } in
    expired later.expires later.jiffies
      (debounce_timer_handler level (record later { expires = none })) later

unfoldable pub run : ℕ → Button → List Event → Button
run fifty_ms s [] = s
run fifty_ms s (e ∷ es) = run fifty_ms (step fifty_ms s e) es

run-append :
    (fifty_ms : ℕ) (s : Button) (es fs : List Event)
    → run fifty_ms s (es ++ fs) ≡ run fifty_ms (run fifty_ms s es) fs
unfolding run
run-append t s [] fs = refl
run-append t s (e ∷ es) fs = run-append t (step t s e) es fs

tick_passes :
    (fifty_ms level due : ℕ) (s : Button)
    → s.expires ≡ some due
    → s.jiffies + 1 < due
    → step fifty_ms s (tick level) ≡ record s { jiffies = s.jiffies + 1 }
unfolding step
tick_passes f level due s e early = ground arith

tick_fires :
    (fifty_ms level due : ℕ) (s : Button)
    → s.expires ≡ some due
    → s.jiffies + 1 ≡ due
    → step fifty_ms s (tick level) ≡ record s {
      jiffies = due;
      expires = none;
      reports = record { code = s.code; value = level } ∷ s.reports;
    }
unfolding step debounce_timer_handler
tick_fires f level due s e now = ground arith

-- The line bounces: after `k` jiffies without an edge, fewer than `fifty_ms` pass until the next one.
abbrev pub Bounces : ℕ → ℕ → List Event → Type 0
Bounces fifty_ms k [] = Unit
Bounces fifty_ms k (edge ∷ es) = Bounces fifty_ms 0 es
Bounces fifty_ms k (tick level ∷ es) = (k + 1 < fifty_ms) × Bounces fifty_ms (k + 1) es

-- No report, and the same button.
abbrev Silent : Button → Button → Type 0
Silent s s' = (s'.reports ≡ s.reports) × (s'.code ≡ s.code)

Bounces-Silent :
    (fifty_ms k : ℕ) (es : List Event) (s : Button)
    → k < fifty_ms
    → s.expires ≡ some (s.jiffies + (fifty_ms - k))
    → Bounces fifty_ms k es
    → Silent s (run fifty_ms s es)
unfolding run step gpio_interrupt_handler
Bounces-Silent t k [] s h e b = (refl, refl)
Bounces-Silent t k (edge ∷ es) s h e b =
    Bounces-Silent t 0 es (step t s edge) (omega arith) (ground arith) b
Bounces-Silent t k (tick level ∷ es) s h e (less, b) =
    rw (run, tick_passes t level (s.jiffies + (t - k)) s e (omega arith))
      (Bounces-Silent t (k + 1) es (record s { jiffies = s.jiffies + 1 }) (omega arith)
        (ground arith) b)

-- The timer runs down.
count_down :
    (fifty_ms due : ℕ) (levels : List ℕ) (last : ℕ) (s : Button)
    → s.expires ≡ some due
    → s.jiffies + suc (length levels) ≡ due
    → run fifty_ms s (map tick levels ++ tick last ∷ []) ≡ record {
      code = s.code;
      jiffies = due;
      expires = none;
      reports = record { code = s.code; value = last } ∷ s.reports;
    }
unfolding run
count_down t due [] last s e now = tick_fires t last due s e (omega (arith, now))
count_down t due (level ∷ levels) last s e now =
    rw (run, tick_passes t level due s e (omega (arith, now)))
      (count_down t due levels last (record s { jiffies = s.jiffies + 1 }) e (omega (arith, now)))

-- The line has an edge, and may go on bouncing with fewer than `fifty_ms` jiffies between its edges.
-- When, after the last edge, `fifty_ms` jiffies pass without one, the button's code is reported exactly
-- once since the first edge, with the level that the line has then, and the timer is not pending.
pub press-reported :
    (fifty_ms : ℕ) (es : List Event) (levels : List ℕ) (last : ℕ) (s : Button)
    → length levels + 1 ≡ fifty_ms
    → Bounces fifty_ms 0 es
    → let s' = run fifty_ms s ((edge ∷ es) ++ (edge ∷ (map tick levels ++ tick last ∷ []))) in
      (s'.reports ≡ record { code = s.code; value = last } ∷ s.reports) × (s'.expires ≡ none)
unfolding run step gpio_interrupt_handler
press-reported t es levels last s enough bounces =
    let armed = gpio_interrupt_handler t s in
    let bounced = run t armed es in
    let (same, code) = Bounces-Silent t 0 es armed (omega (arith, enough)) (ground arith) bounces in
    let end =
      count_down t (bounced.jiffies + t) levels last (gpio_interrupt_handler t bounced) refl
        (omega (arith, enough)) in
    let whole = run-append t armed es (edge ∷ (map tick levels ++ tick last ∷ [])) ∙ end in
    let report : List Report → ℕ → List Report =
      λ reports c. record { code = c; value = last } ∷ reports in
    (
      ap (λ b. b.reports) whole
          ∙ (ap (λ r. report r bounced.code) same ∙ ap (λ c. report s.reports c) code),
      ap (λ b. b.expires) whole,
    )
