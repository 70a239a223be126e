-- ===== src/Usb/GChar/Setup.antt =====
-- The gadget is bound: memory, the function in the configuration, and the device for user programs.
use linux_driver_kb.Prelude.{ℕ, List, ◌∷◌}
use linux_driver_kb.Prelude.Int.{ℤ, pos, negsuc}
use linux_driver_kb.Kernel.Errno.{enomem}
use linux_driver_kb.Kernel.Ledger.{
  Kernel, Code, return, acquire, drop_res, memory, usb_function, miscdev, string_ids, Res, Runs,
  acquire_rule, return_rule,
}

-- Both labels: the memory is freed, and the function stays in the configuration.
err_add_function : ℤ → Code
err_add_function ret = drop_res memory (return ret)

unfoldable pub g_char_bind_config : Kernel → Code
unfolding err_add_function
g_char_bind_config k =
    acquire k memory (λ _. return enomem)
      (acquire k usb_function (λ n. err_add_function (negsuc n))
        (acquire k miscdev (λ n. err_add_function (negsuc n)) (return (pos 0))))

-- The core calls it for a function that it takes out of a configuration.
pub g_char_f_unbind : Code
g_char_f_unbind = drop_res miscdev (drop_res memory (return (pos 0)))

-- `usb_add_config` is the core's call, which comes back to g_char_bind_config; the numbers of the
-- strings are never given back.
pub g_char_bind : Kernel → Code → Code
g_char_bind k usb_add_config = acquire k string_ids (λ n. return (negsuc n)) usb_add_config

-- Binding passes on how the configuration ends, if there are numbers for the strings.
g_char_bind-Runs :
    (k : Kernel) (held : List Res) (add : Code) {Q : ℤ → List Res → Type 0}
    → Runs Q (string_ids ∷ held) add
    → ((n : ℕ) → Q (negsuc n) held)
    → Runs Q held (g_char_bind k add)
unfolding g_char_bind
g_char_bind-Runs k held add good bad =
    acquire_rule k string_ids (λ n. return_rule (negsuc n) (bad n)) good
