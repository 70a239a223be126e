-- ===== src/Watchdog/Refs.antt =====
-- The module stays loaded exactly as long as a watchdog can fire.
use linux_driver_kb.Prelude.{
  ℕ, zero, suc, ◌+◌, ◌≡◌, none, some, List, [], ◌∷◌, get_elem?, arith, if◌then◌else◌, Option-cases,
  inl, inr,
}
use linux_driver_kb.Watchdog.{
  Softdog, Dogs, pending, change, softdog_ping, softdog_stop, softdog_fire, softdog_pretimeout,
  Event, ping, stop, fires, warns, on_dog, step, run, subject,
}

-- One for a watchdog whose restart timer is pending.
abbrev weight : Softdog → ℕ
weight w = if pending w.fire then 1 else 0

abbrev pub armed : List Softdog → ℕ
armed [] = 0
armed (w ∷ ws) = weight w + armed ws

armed-change :
    (ws : List Softdog) (i : ℕ) (w w' : Softdog)
    → get_elem? ws i ≡ some w
    → armed (change ws i w') + weight w ≡ armed ws + weight w'
armed-change [] i w w' e = cc
armed-change (x ∷ ws) zero w w' e = ground arith
armed-change (x ∷ ws) (suc i) w w' e = omega (arith, armed-change ws i w w' e)

on_dog-refs :
    (hz others : ℕ) (s : Dogs) (e : Event) (w : Softdog)
    → get_elem? s.dogs (subject e) ≡ some w
    → s.refs ≡ others + armed s.dogs
    → (on_dog hz s e w).refs ≡ others + armed (on_dog hz s e w).dogs
unfolding on_dog softdog_ping softdog_stop softdog_fire softdog_pretimeout
on_dog-refs hz others s (ping i now) w there h =
    ground (arith, armed-change s.dogs i w (softdog_ping hz now w).0 there)
on_dog-refs hz others s (stop i) w there h =
    ground (arith, armed-change s.dogs i w (softdog_stop w).0 there)
on_dog-refs hz others s (fires i) w there h =
    ground (arith, armed-change s.dogs i w (record w { fire = none }) there)
on_dog-refs hz others s (warns i) w there h =
    ground (arith, armed-change s.dogs i w (record w { pre = none }) there)

step_refs :
    (hz others : ℕ) (s : Dogs) (e : Event)
    → s.refs ≡ others + armed s.dogs
    → (step hz s e).refs ≡ others + armed (step hz s e).dogs
unfolding step
step_refs hz others s e h = elim (Option-cases (get_elem? s.dogs (subject e))) [
  | inl gone ↦ rw (gone, step) h
  | inr (w, there) ↦ rw (there, step) (on_dog-refs hz others s e w there h)
]

-- Whatever pings, stops and expirations happen in whatever order, the module's reference count is the
-- references held by others plus one for each watchdog whose restart timer is pending, if it was so at
-- the start.
pub run_refs :
    (hz others : ℕ) (s : Dogs) (es : List Event)
    → s.refs ≡ others + armed s.dogs
    → (run hz s es).refs ≡ others + armed (run hz s es).dogs
unfolding run
run_refs hz others s [] h = h
run_refs hz others s (e ∷ es) h = run_refs hz others (step hz s e) es (step_refs hz others s e h)
