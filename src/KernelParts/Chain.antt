-- ===== src/KernelParts/Chain.antt =====
-- The two modules of 26.内核组件/driver/notifier_chain: notifier_register.c puts three blocks on a chain,
-- and notifier_call.c calls it.
use linux_driver_kb.Prelude.{ℕ, ◌≡◌, refl, ltb, if◌then◌else◌, List, [], ◌∷◌, map, arith}
use linux_driver_kb.Prelude.Int.{ℤ, pos, is_neg}

-- notifier_block1 to notifier_block3.
pub record Block : Type 0 where
  pub number : ℕ
  pub priority : ℕ

abbrev pub notifier_block1 : Block
notifier_block1 = record { number = 1; priority = 0 }

abbrev pub notifier_block2 : Block
notifier_block2 = record { number = 2; priority = 1 }

abbrev pub notifier_block3 : Block
notifier_block3 = record { number = 3; priority = 2 }

-- A block goes before those of lower priority.
abbrev pub insert : Block → List Block → List Block
insert b [] = b ∷ []
insert b (c ∷ cs) = if ltb c.priority b.priority then b ∷ (c ∷ cs) else c ∷ insert b cs

-- What notifier_call prints.
pub record Call : Type 0 where
  pub priority : ℕ
  pub event : ℕ

-- The blocking chain of the kernel. A refused registration changes nothing. A call goes on from block to
-- block while none stops it, and gives the last result, which stands for no error.
pub record Notifiers : Type 1 where
  pub Chain : Type 0
  pub blocks : Chain → List Block
  pub register : Block → Chain → ℤ × Chain
  pub call_chain : Chain → (Block → ℤ × Call) → ℤ × List Call
  pub from_errno : ℤ → ℤ
  pub to_errno : ℤ → ℤ
  pub registers :
      (b : Block) (c : Chain)
      → blocks (register b c).1
        ≡ (if is_neg (register b c).0 then blocks c else insert b (blocks c))
  pub calls :
      (c : Chain) (f : Block → ℤ × Call)
      → ((b : Block) → (f b).0 ≡ from_errno (pos 0))
      → ((call_chain c f).1 ≡ map (λ b. (f b).1) (blocks c)) × (to_errno (call_chain c f).0 ≡ pos 0)

module _ (kernel : Notifiers) where
  unfoldable pub notifier_call : ℕ → Block → ℤ × Call
  notifier_call event nb =
      (kernel.from_errno (pos 0), record { priority = nb.priority; event = event })

  abbrev registered : ℤ × kernel.Chain → ℤ × kernel.Chain → ℤ × kernel.Chain
  registered (ret, chain) next = if is_neg ret then (ret, chain) else next

  -- notifier_chain_test_init of notifier_register.c.
  unfoldable pub register_init : kernel.Chain → ℤ × kernel.Chain
  register_init chain =
      let one = kernel.register notifier_block1 chain in
      let two = kernel.register notifier_block2 one.1 in
      let three = kernel.register notifier_block3 two.1 in
      registered one (registered two (registered three (pos 0, three.1)))

  -- notifier_chain_test_init of notifier_call.c: the return value, and what the blocks print.
  unfoldable pub call_init : kernel.Chain → ℤ × List Call
  unfolding notifier_call
  call_init chain =
      let (ret, printed) = kernel.call_chain chain (notifier_call 123) in
      (kernel.to_errno ret, printed)

  abbrev printed : ℕ → Call
  printed priority = record { priority = priority; event = 123 }

  register_init-blocks :
      (chain : kernel.Chain)
      → kernel.blocks chain ≡ []
      → (register_init chain).0 ≡ pos 0
      → kernel.blocks (register_init chain).1
        ≡ notifier_block3 ∷ notifier_block2 ∷ notifier_block1 ∷ []
  unfolding register_init
  register_init-blocks chain e done =
      let one = kernel.register notifier_block1 chain in
      let two = kernel.register notifier_block2 one.1 in
      ground (
        arith,
        kernel.registers notifier_block1 chain,
        kernel.registers notifier_block2 one.1,
        kernel.registers notifier_block3 two.1,
      )

  -- When the first module has been loaded with success, on an empty chain, the second loads with success,
  -- and its call reaches the three blocks once each, the one of the highest priority first.
  pub call-register :
      (chain : kernel.Chain)
      → kernel.blocks chain ≡ []
      → (register_init chain).0 ≡ pos 0
      → call_init (register_init chain).1 ≡ (pos 0, printed 2 ∷ printed 1 ∷ printed 0 ∷ [])
  unfolding call_init notifier_call
  call-register chain e done =
      let (p, r) = kernel.calls (register_init chain).1 (notifier_call 123) (λ b. refl) in
      let all = register_init-blocks chain e done in rw (r, p, all) refl
