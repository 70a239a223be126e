-- ===== src/Ssd1306/Setup.antt =====
-- Probe and remove of the panel. No label of the probe frees the pages.
use linux_driver_kb.Prelude.{ℕ, ◌∷◌, List, [], ◌≡◌, ◌⊎◌, inl, inr, true, some, refl}
use linux_driver_kb.Prelude.Int.{ℤ, pos, negsuc, is_neg}
use linux_driver_kb.Kernel.Errno.{enomem}
use linux_driver_kb.Kernel.Ledger.{
  Kernel, Code, Log, holds, refuse, return, acquire, grant, drop_res, Res, Res-discrete,
  framebuffer, pages, defio, panel, fb_registration, Runs, unmanaged, acquire_rule, grant_rule,
  drop_rule, return_rule, Gone, Gone-rule,
}

err_get_free_page : ℤ → Code
err_get_free_page ret = drop_res framebuffer (return ret)

err_reg_fb : ℤ → Code
err_reg_fb ret = drop_res defio (err_get_free_page ret)

unfoldable pub ssd1306fb_probe : Kernel → Code
unfolding err_get_free_page err_reg_fb
ssd1306fb_probe k =
    acquire k framebuffer (λ _. return enomem)
      (acquire k pages (λ _. err_get_free_page enomem)
        (grant defio (
          acquire k panel (λ n. err_reg_fb (negsuc n))
            (acquire k fb_registration (λ n. err_reg_fb (negsuc n)) (return (pos 0))))))

ssd1306fb_remove : Code
ssd1306fb_remove =
    drop_res fb_registration
      (drop_res defio (drop_res pages (drop_res framebuffer (return (pos 0)))))

-- How the probe can end.
abbrev pub Ends : List Res → ℤ → List Res → Type 0
Ends held ret end =
    ((ret ≡ pos 0) × (end ≡ fb_registration ∷ panel ∷ defio ∷ pages ∷ framebuffer ∷ held))
    ⊎ ((is_neg ret ≡ true)
        × ((unmanaged end ≡ unmanaged held) ⊎ (unmanaged end ≡ pages ∷ unmanaged held)))

-- Whatever the kernel answers, the probe releases only what it holds. It returns 0 with all it asked
-- for, or an error with nothing more held than before but what the device core releases, or an error
-- with the pages of the picture still held beside that.
ssd1306fb_probe-Runs : (k : Kernel) (held : List Res) → Runs (Ends held) held (ssd1306fb_probe k)
unfolding ssd1306fb_probe Res-discrete
ssd1306fb_probe-Runs k held =
    acquire_rule k framebuffer (λ _. return_rule enomem (inr (refl, inl refl)))
      (acquire_rule k pages
        (λ _. drop_rule framebuffer refl refl (return_rule enomem (inr (refl, inl refl))))
        (grant_rule defio (
          acquire_rule k panel
            (λ n.
              drop_rule defio refl refl
                (drop_rule framebuffer refl refl (return_rule (negsuc n) (inr (refl, inr refl)))))
            (acquire_rule k fb_registration
              (λ n.
                drop_rule defio refl refl
                  (drop_rule framebuffer refl refl (return_rule (negsuc n) (inr (refl, inr refl)))))
              (return_rule (pos 0) (inl (refl, refl)))))))

-- Remove releases what a successful probe took.
ssd1306fb_remove-Runs :
    (held : List Res)
    → Runs
        (Gone held)
        (fb_registration ∷ panel ∷ defio ∷ pages ∷ framebuffer ∷ held)
        ssd1306fb_remove
unfolding ssd1306fb_remove Res-discrete
ssd1306fb_remove-Runs held = drop_rule fb_registration refl refl (
    drop_rule defio refl refl
      (drop_rule pages refl refl (drop_rule framebuffer refl refl (Gone-rule held (pos 0) refl))))

-- If only the setup of the panel fails, the probe fails and keeps the pages.
pub ssd1306fb_probe_leaks :
    (n : ℕ) (l : Log)
    → holds l ≡ some []
    → let end = ssd1306fb_probe (refuse panel n) l in
      (end.0 ≡ negsuc n) × (holds end.1 ≡ some (pages ∷ []))
unfolding ssd1306fb_probe acquire grant drop_res return Res-discrete
ssd1306fb_probe_leaks n l e = (refl, rw e)
