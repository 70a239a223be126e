-- ===== src/Usb/Mouse.antt =====
-- The USB mouse of 23.USB/driver/fake_mouse.c: probe, disconnect and what happens when a transfer ends.
pub mod Poll
use linux_driver_kb.Prelude.{
  ◌∷◌, List, [], refl, ℕ, ◌+◌, ◌-◌, ◌≤◌, ◌<◌, ◌≡◌, ◌⊎◌, inl, inr, ◌==◌, Bool, true, false, not,
  ◌||◌, if◌then◌else◌, some, none, Option, arith,
}
use linux_driver_kb.Prelude.Int.{ℤ, pos, negsuc, is_neg}
use linux_driver_kb.Kernel.Errno.{enomem, einval, enodev, eperm, efault}
use linux_driver_kb.Kernel.Ledger.{
  Kernel, Code, Log, holds, refuse, return, acquire, grant, attempt, drop_res, Res, Res-discrete,
  coherent_buffer, memory, urb, urb_submission, Runs, ProbeEnds, Gone, acquire_rule, grant_rule,
  drop_rule, return_rule, probe_error_rule, probe_done_rule, Gone-rule,
}

error_alloc_buffer : ℤ → Code
error_alloc_buffer ret = drop_res memory (return ret)

error_alloc_urb : ℤ → Code
unfolding error_alloc_buffer
error_alloc_urb ret = drop_res coherent_buffer (error_alloc_buffer ret)

error_submit_urb : ℤ → Code
unfolding error_alloc_urb
error_submit_urb ret = drop_res urb (error_alloc_urb ret)

pub fake_mouse_probe : Kernel → Code
unfolding error_alloc_buffer error_alloc_urb error_submit_urb
fake_mouse_probe k =
    acquire k memory (λ _. return enomem)
      (acquire k coherent_buffer (λ _. error_alloc_buffer enomem)
        (acquire k urb (λ _. error_alloc_urb enomem)
          (acquire k urb_submission (λ n. error_submit_urb (negsuc n)) (return (pos 0)))))

pub fake_mouse_disconnect : Code
fake_mouse_disconnect =
    drop_res urb_submission
      (drop_res urb (drop_res coherent_buffer (drop_res memory (return (pos 0)))))

pub fake_mouse_probe-Runs :
    (k : Kernel) (held : List Res)
    → Runs
        (ProbeEnds held (urb_submission ∷ urb ∷ coherent_buffer ∷ memory ∷ held))
        held
        (fake_mouse_probe k)
unfolding fake_mouse_probe Res-discrete
fake_mouse_probe-Runs k held =
    acquire_rule k memory (λ _. probe_error_rule held 11 refl)
      (acquire_rule k coherent_buffer
        (λ _. drop_rule memory refl refl (probe_error_rule held 11 refl))
        (acquire_rule k urb
          (λ _.
            drop_rule coherent_buffer refl refl
              (drop_rule memory refl refl (probe_error_rule held 11 refl)))
          (acquire_rule k urb_submission
            (λ n. drop_rule urb refl refl (
              drop_rule coherent_buffer refl refl
                (drop_rule memory refl refl (probe_error_rule held n refl))))
            (probe_done_rule held))))

pub fake_mouse_disconnect-Runs :
    (held : List Res)
    → Runs
        (Gone held)
        (urb_submission ∷ urb ∷ coherent_buffer ∷ memory ∷ held)
        fake_mouse_disconnect
unfolding fake_mouse_disconnect Res-discrete
fake_mouse_disconnect-Runs held = drop_rule urb_submission refl refl (
    drop_rule urb refl refl (
      drop_rule coherent_buffer refl refl
        (drop_rule memory refl refl (Gone-rule held (pos 0) refl))))
