-- ===== src/Usb/GChar/Alt.antt =====
-- Choosing the setting of the interface, again and again.
use mathlib.Core.Path.{subst}
use linux_driver_kb.Prelude.{
  ℕ, ◌+◌, ◌*◌, ◌≡◌, ◌⊎◌, inl, inr, refl, Bool, true, false, ◌&&◌, List, [], ◌∷◌, arith,
  if◌then◌else◌,
}
use linux_driver_kb.Prelude.Int.{ℤ, pos, is_neg}
use linux_driver_kb.Usb.GChar.{
  function, Ep, valid, Priv, Answers, is_zero, is_owned, disable_ep, disable_g_char,
  enable_endpoint, enable_rest, enable_g_char, err_enable_out, err_alloc_in, err_alloc_out,
  g_char_f_set_alt, g_char_f_disable,
}

-- What is enabled is owned, and set_alt, which asks the in endpoint alone, misses nothing.
pub record IsValid (s : Priv) : Type 0 where
  pub in_owned : s.in_ep.enabled ≡ true → is_owned s.in_ep.owner ≡ true
  pub out_owned : s.out_ep.enabled ≡ true → is_owned s.out_ep.owner ≡ true
  pub both : s.out_ep.enabled ≡ true → is_owned s.in_ep.owner ≡ true

abbrev pub working : Ep
working = record { owner = function; enabled = true }

abbrev pub BothWork : Priv → Type 0
BothWork s = (s.in_ep ≡ working) × (s.out_ep ≡ working) × (s.in_req ≡ valid) × (s.out_req ≡ valid)

abbrev pub NoneWorks : Priv → Type 0
NoneWorks s = (s.in_ep.enabled ≡ false) × (s.out_ep.enabled ≡ false)

-- config_ep_by_speed returns 0 or a negative number.
abbrev pub IsError : ℤ → Type 0
IsError r = (is_zero r ≡ true) ⊎ (is_neg r ≡ true)

enable_endpoint_cases :
    (config enable : ℤ) (ep : Ep)
    → IsError config
    → let (r, ep') = enable_endpoint config enable ep in
      ((is_neg r ≡ true) × (ep' ≡ ep)) ⊎ ((is_neg r ≡ false) × (ep' ≡ working))
unfolding enable_endpoint
enable_endpoint_cases config enable ep h = ground arith

-- One of two ends.
abbrev pub Ends : ℕ → ℤ × Priv → Type 0
Ends live (ret, s) =
    (BothWork s × (s.live ≡ live + 2) × (is_neg ret ≡ false)) ⊎ (NoneWorks s × (s.live ≡ live))

enable_rest-Ends :
    (a : Answers) (s : Priv) (one two : ℤ × Ep)
    → NoneWorks s
    → ((is_neg one.0 ≡ true) × (one.1 ≡ s.in_ep)) ⊎ ((is_neg one.0 ≡ false) × (one.1 ≡ working))
    → ((is_neg two.0 ≡ true) × (two.1 ≡ s.out_ep)) ⊎ ((is_neg two.0 ≡ false) × (two.1 ≡ working))
    → Ends s.live (enable_rest a one two s)
unfolding enable_rest err_enable_out err_alloc_in err_alloc_out
enable_rest-Ends a s one two none h1 h2 = ground arith

enable_g_char-Ends :
    (a : Answers) (s : Priv)
    → IsError a.config_in
    → IsError a.config_out
    → NoneWorks s
    → Ends s.live (enable_g_char a s)
unfolding enable_g_char
enable_g_char-Ends a s h1 h2 none =
    enable_rest-Ends a s (enable_endpoint a.config_in a.enable_in s.in_ep)
      (enable_endpoint a.config_out a.enable_out s.out_ep) none
      (enable_endpoint_cases a.config_in a.enable_in s.in_ep h1)
      (enable_endpoint_cases a.config_out a.enable_out s.out_ep h2)

-- What set_alt does before it enables anything.
abbrev stopped : Priv → Priv
stopped s = if is_owned s.in_ep.owner then disable_g_char s else s

stopped-NoneWorks : (s : Priv) → IsValid s → NoneWorks (stopped s) × ((stopped s).live ≡ s.live)
unfolding disable_g_char disable_ep
stopped-NoneWorks s v = ground arith

-- From a state in which what is enabled is owned, and when config_ep_by_speed returns 0 or a negative
-- number: after set_alt either both endpoints work with a request each, two requests more are allocated
-- than before, and the result is no error; or no endpoint is enabled, and no request more is allocated.
pub set_alt-Ends :
    (a : Answers) (s : Priv)
    → IsError a.config_in
    → IsError a.config_out
    → IsValid s
    → Ends s.live (g_char_f_set_alt a s)
unfolding g_char_f_set_alt
set_alt-Ends a s h1 h2 v =
    let (none, same) = stopped-NoneWorks s v in
    subst (λ live. Ends live (enable_g_char a (stopped s))) same
      (enable_g_char-Ends a (stopped s) h1 h2 none)

-- From a state in which what is enabled is owned: if there is no memory for in_req, or for neither
-- request, although both endpoints could be enabled, set_alt returns 0 and leaves both disabled.
pub set_alt_no_memory :
    (s : Priv) (found : Bool)
    → IsValid s
    → let a : Answers = record {
      config_in = pos 0;
      enable_in = pos 0;
      config_out = pos 0;
      enable_out = pos 0;
      alloc_out = found;
      alloc_in = false;
    } in
      let (ret, s') = g_char_f_set_alt a s in (ret ≡ pos 0) × NoneWorks s'
unfolding g_char_f_set_alt enable_g_char enable_endpoint enable_rest err_enable_out err_alloc_in
    err_alloc_out
set_alt_no_memory s found v = ground arith

-- What the host can do: choose the setting, or go away.
pub data Event : Type 0 where
  set_alt : Answers → Event
  disable : Event

unfoldable pub step : Priv → Event → Priv
step s (set_alt a) = (g_char_f_set_alt a s).1
step s disable = g_char_f_disable s

abbrev pub Errors : List Event → Type 0
Errors [] = Unit
Errors (set_alt a ∷ es) = IsError a.config_in × IsError a.config_out × Errors es
Errors (disable ∷ es) = Errors es

unfoldable pub run : Priv → List Event → Priv
run s [] = s
run s (e ∷ es) = run (step s e) es

-- How many of the events enabled the endpoints.
abbrev is_set_alt : Event → Bool
is_set_alt (set_alt a) = true
is_set_alt disable = false

unfoldable pub enablings : Priv → List Event → ℕ
enablings s [] = 0
enablings s (e ∷ es) =
    (if (step s e).in_ep.enabled && is_set_alt e then 1 else 0) + enablings (step s e) es

Ends-IsValid : (live : ℕ) (r : ℤ × Priv) → Ends live r → IsValid r.1
Ends-IsValid live r (inl ((i, o, _, _), _, _)) = record {
  in_owned = λ _. rw i;
  out_owned = λ _. rw o;
  both = λ _. rw i;
}
Ends-IsValid live r (inr ((i, o), _)) = record {
  in_owned = λ e. cc (i, e);
  out_owned = λ e. cc (o, e);
  both = λ e. cc (o, e);
}

disabled-IsValid : (s : Priv) → IsValid s → IsValid (g_char_f_disable s)
unfolding g_char_f_disable disable_g_char disable_ep
disabled-IsValid s v = ground (arith, v)

no_more : (b : Bool) → ◌≡◌ {A = ℕ} (if b && false then 1 else 0) 0
no_more true = refl
no_more false = refl

disabled_live : (s : Priv) → (g_char_f_disable s).live ≡ s.live
unfolding g_char_f_disable disable_g_char
disabled_live s = refl

step_counts :
    (s : Priv) (e : Event)
    → Errors (e ∷ [])
    → IsValid s
    → IsValid (step s e)
      × ((step s e).live ≡ s.live + 2 * (if (step s e).in_ep.enabled && is_set_alt e then 1 else 0))
unfolding step
step_counts s (set_alt a) (h1, h2, _) v =
    let ends = set_alt-Ends a s h1 h2 v in
    (Ends-IsValid s.live (g_char_f_set_alt a s) ends, counted (g_char_f_set_alt a s) s.live ends)
  where
    counted :
        (r : ℤ × Priv) (live : ℕ)
        → Ends live r
        → r.1.live ≡ live + 2 * (if r.1.in_ep.enabled && true then 1 else 0)
    counted r live (inl ((i, _, _, _), l, _)) = rw i (omega (arith, l))
    counted r live (inr ((i, _), l)) = rw i (omega (arith, l))
step_counts s disable h v = (
  disabled-IsValid s v,
  omega (arith, disabled_live s, no_more (g_char_f_disable s).in_ep.enabled),
)

-- No request is ever given back: from a state in which what is enabled is owned, after any settings and
-- disconnections, with any failures between them where config_ep_by_speed returns 0 or a negative number,
-- two requests more are allocated for each setting that left the endpoints enabled.
pub run_leaks :
    (es : List Event) (s : Priv)
    → Errors es
    → IsValid s
    → (run s es).live ≡ s.live + 2 * enablings s es
unfolding run enablings
run_leaks [] s h v = omega arith
run_leaks (set_alt a ∷ es) s (h1, h2, h) v =
    let (v', counted) = step_counts s (set_alt a) (h1, h2, record {}) v in
    omega (arith, run_leaks es (step s (set_alt a)) h v', counted)
run_leaks (disable ∷ es) s h v =
    let (v', counted) = step_counts s disable (record {}) v in
    omega (arith, run_leaks es (step s disable) h v', counted)
