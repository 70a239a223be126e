-- ===== src/KernelParts/Tests.antt =====
-- A chain that is a list of its blocks, and the calls of it.
use linux_driver_kb.Prelude.{◌≡◌, refl, List, [], ◌∷◌, map}
use linux_driver_kb.Prelude.Int.{pos}
use linux_driver_kb.KernelParts.Chain.{
  Block, Notifiers, insert, register_init, call_init, call-register,
}

-- Every registration succeeds; no block stops a call.
abbrev listed_chain : Notifiers
listed_chain = record {
  Chain = List Block;
  blocks = λ c. c;
  register = λ b c. (pos 0, insert b c);
  call_chain = λ c f. (pos 1, map (λ b. (f b).1) c);
  from_errno = λ e. pos 1;
  to_errno = λ r. pos 0;
  registers = λ b c. refl;
  calls = λ c f none_stops. (refl, refl);
}

call-register_example : call_init listed_chain (register_init listed_chain []).1 ≡ (
  pos 0,
  record { priority = 2; event = 123 }
      ∷ record { priority = 1; event = 123 }
      ∷ record { priority = 0; event = 123 }
      ∷ [],
)
unfolding register_init
call-register_example = call-register listed_chain [] refl refl
