-- ===== src/Usb/GChar/Requests.antt =====
-- The requests of g_char.c: alloc_ep_req and free_ep_req.
use linux_driver_kb.Prelude.{ℕ, ◌≡◌, refl, Bool, if◌then◌else◌, List, ◌∷◌}
use linux_driver_kb.Prelude.Int.{ℤ, pos}
use linux_driver_kb.Kernel.Errno.{enomem}
use linux_driver_kb.Kernel.Ledger.{
  Kernel, Code, return, acquire, drop_res, Res, Res-discrete, memory, usb_request, Runs,
  acquire_rule, drop_rule, return_rule,
}

-- The length of a request; usb_ep_align, the kernel's, rounds up to whole packets.
unfoldable pub request_length : (ℕ → ℕ) → Bool → ℕ → ℕ
request_length usb_ep_align dir_out len = if dir_out then usb_ep_align len else len

-- `failed` goes on with a null pointer, `next` with the request and its buffer.
unfoldable pub alloc_ep_req : Kernel → Code → Code → Code
alloc_ep_req k failed next =
    acquire k usb_request (λ _. failed) (acquire k memory (λ _. drop_res usb_request failed) next)

unfoldable pub free_ep_req : Code → Code
free_ep_req next = drop_res memory (drop_res usb_request next)

-- The request comes with its buffer or not at all.
pub alloc_ep_req_rule :
    {Q : ℤ → List Res → Type 0} (k : Kernel) {failed next : Code} {held : List Res}
    → Runs Q held failed
    → Runs Q (memory ∷ usb_request ∷ held) next
    → Runs Q held (alloc_ep_req k failed next)
unfolding alloc_ep_req Res-discrete
alloc_ep_req_rule k bad good =
    acquire_rule k usb_request (λ _. bad)
      (acquire_rule k memory (λ _. drop_rule usb_request refl refl bad) good)

pub free_ep_req_rule :
    {Q : ℤ → List Res → Type 0} {next : Code} {held : List Res}
    → Runs Q held next
    → Runs Q (memory ∷ usb_request ∷ held) (free_ep_req next)
unfolding free_ep_req Res-discrete
free_ep_req_rule good = drop_rule memory refl refl (drop_rule usb_request refl refl good)

-- A request that is allocated, if it can be, and freed leaves what was held.
alloc_ep_req-free_ep_req :
    (k : Kernel) (held : List Res)
    → Runs
        (λ ret end. end ≡ held)
        held
        (alloc_ep_req k (return enomem) (free_ep_req (return (pos 0))))
alloc_ep_req-free_ep_req k held =
    alloc_ep_req_rule k (return_rule enomem refl) (free_ep_req_rule (return_rule (pos 0) refl))
