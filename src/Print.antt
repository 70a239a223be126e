-- ===== src/Print.antt =====
-- The messages of 34.debug/driver/print.c, and which of them a console shows.
use linux_driver_kb.Prelude.{
  ℕ, ◌+◌, ◌*◌, ◌<◌, ◌≡◌, refl, Bool, true, false, List, [], ◌∷◌, ◌++◌, length, ltb, ◌==◌,
  if◌then◌else◌, Option, some, none, ==_iff,
}
use linux_driver_kb.Prelude.Every.{every, every-below}
use linux_driver_kb.Prelude.Search.{filter}
use Prim.Native.String.{String}

-- A message and its level, 0 the most urgent; without one the kernel's default is taken.
pub record Message : Type 0 where
  pub level : Option ℕ
  pub text : String

abbrev at_level : ℕ → String → Message
at_level n text = record { level = some n; text = text }

abbrev unmarked : String → Message
unmarked text = record { level = none; text = text }

-- The messages of print_probe, in order, before it breaks off in BUG_ON. The pr_ messages have the prefix of
-- pr_fmt. pr_debug and dev_dbg are there only where they are compiled in.
unfoldable pub print_probe : Bool → List Message
print_probe debug =
    at_level 0 "KERN_EMERG"
    ∷ at_level 1 "KERN_ALERT"
    ∷ at_level 2 "KERN_CRIT"
    ∷ at_level 3 "KERN_ERR"
    ∷ at_level 4 "KERN_WARNING"
    ∷ at_level 5 "KERN_NOTICE"
    ∷ at_level 6 "KERN_INFO"
    ∷ at_level 7 "KERN_DEBUG"
    ∷ unmarked "the default kernel loglevel"
    ∷ at_level 0 "xm: pr_emerg"
    ∷ at_level 1 "xm: pr_alert"
    ∷ at_level 2 "xm: pr_crit"
    ∷ at_level 3 "xm: pr_err"
    ∷ at_level 4 "xm: pr_warn"
    ∷ at_level 5 "xm: pr_notice"
    ∷ at_level 6 "xm: pr_info"
    ∷ ((if debug then at_level 7 "xm: pr_debug" ∷ [] else [])
        ++ (at_level 0 "dev_emerg"
            ∷ at_level 1 "dev_alert"
            ∷ at_level 2 "dev_crit"
            ∷ at_level 3 "dev_err"
            ∷ at_level 4 "dev_warn"
            ∷ at_level 5 "dev_notice"
            ∷ at_level 6 "dev_info"
            ∷ (if debug then at_level 7 "dev_debug" ∷ [] else [])))

abbrev level_or : ℕ → Option ℕ → ℕ
level_or default none = default
level_or default (some n) = n

-- A console of some level shows what is more urgent.
abbrev pub console : (loglevel default : ℕ) → List Message → List Message
console loglevel default ms = filter (λ m. ltb (level_or default m.level) loglevel) ms

abbrev counts : Bool → ℕ → ℕ → Bool
counts debug loglevel default =
    length (console loglevel default (print_probe debug))
    == 3 * loglevel + (if ltb default loglevel then 1 else 0)

counted :
    (debug : Bool) → every 8 (λ loglevel. every 8 (λ default. counts debug loglevel default)) ≡ true
unfolding every print_probe
counted true = refl
counted false = refl

-- Below the level of debugging messages a console shows one message of each kind for each level that is
-- urgent enough, and the one without a level if the default is; it makes no difference what was compiled in.
pub console-count :
    (debug : Bool) (loglevel default : ℕ)
    → loglevel < 8
    → default < 8
    → length (console loglevel default (print_probe debug))
      ≡ 3 * loglevel + (if ltb default loglevel then 1 else 0)
console-count debug loglevel default hl hd =
    let row = every-below 8 loglevel (λ l. every 8 (λ d. counts debug l d)) (counted debug) hl in
    let cell = every-below 8 default (λ d. counts debug loglevel d) row hd in (==_iff _ _).0 cell
