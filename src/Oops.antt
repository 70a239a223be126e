-- ===== src/Oops.antt =====
-- The module of 34.debug/driver/oops.c, which breaks a rule of memory on purpose, and a checker for these
-- rules like the kernel's.
use linux_driver_kb.Prelude.{
  ℕ, zero, suc, Option, none, some, get_elem?, ◌≡◌, refl, Bool, true, false, ◌==◌, ◌||◌,
  if◌then◌else◌, List, [], ◌∷◌, arith,
}
use linux_driver_kb.Prelude.Int.{ℤ, pos, negsuc, ◌+ℤ◌, is_neg, ltb_ℤ}

-- A pointer, by its distance from 0, from the array `a`, or from the memory of kmalloc.
pub data Pointer : Type 0 where
  null stack heap : ℤ → Pointer

abbrev plus : Pointer → ℤ → Pointer
plus (null i) j = null (i +ℤ j)
plus (stack i) j = stack (i +ℤ j)
plus (heap i) j = heap (i +ℤ j)

-- What the code does with memory: bytes are written from a pointer on, or it is freed.
pub data Action : Type 0 where
  write : Pointer → ℕ → Action
  kfree : Pointer → Action

-- kmalloc's answer.
abbrev kmalloc : Bool → Pointer
kmalloc true = heap (pos 0)
kmalloc false = null (pos 0)

-- What oops_test_init does in a mode; in each it returns 0 if it gets that far.
unfoldable pub oops_test_init : Bool → ℕ → List Action
oops_test_init granted mode =
    let ptr = kmalloc granted in
    if mode == 0
    then write (null (pos 0)) 4 ∷ []
    else if mode == 1
    then write (stack (pos 0)) 8 ∷ []
    else if mode == 2
    then write ptr 80 ∷ kfree ptr ∷ []
    else if mode == 3
    then write (plus ptr (negsuc 0)) 1 ∷ kfree ptr ∷ []
    else if mode == 4
    then kfree ptr ∷ kfree ptr ∷ []
    else if mode == 5
    then kfree ptr ∷ write ptr 1 ∷ []
    else if mode == 6
    then kfree (plus ptr (pos 1)) ∷ []
    else []

-- The array has 3 bytes, and the memory of kmalloc 32.
abbrev array_size : ℤ
array_size = pos 3

abbrev size : ℤ
size = pos 32

-- The faults, as the parameter's description names them.
pub data Fault : Type 0 where
  null_access out_of_bounds_on_stack out_of_bounds_to_right out_of_bounds_to_left : Fault
  already_freed use_after_free invalid_free : Fault

-- Whether the memory of kmalloc is still allocated, and the fault of one action.
abbrev reported : Bool → Action → List Fault
reported live (write (null _) n) = null_access ∷ []
reported live (write (stack i) n) =
    if is_neg i || ltb_ℤ array_size (i +ℤ pos n) then out_of_bounds_on_stack ∷ [] else []
reported live (write (heap i) n) =
    if live
    then if is_neg i
      then out_of_bounds_to_left ∷ []
      else if ltb_ℤ size (i +ℤ pos n)
      then out_of_bounds_to_right ∷ []
      else []
    else use_after_free ∷ []
reported live (kfree (null (pos zero))) = []
reported live (kfree (heap (pos zero))) = if live then [] else already_freed ∷ []
reported live (kfree _) = invalid_free ∷ []

abbrev live_after : Bool → Action → Bool
live_after live (kfree (heap (pos zero))) = false
live_after live _ = live

-- The faults of some actions.
unfoldable pub faults : Bool → List Action → List Fault
faults live [] = []
faults live (a ∷ more) = elim (reported live a) [
  | [] ↦ faults (live_after live a) more
  | f ∷ _ ↦ f ∷ faults (live_after live a) more
]

-- MODULE_PARM_DESC.
abbrev description : List Fault
description =
    null_access ∷ out_of_bounds_on_stack ∷ out_of_bounds_to_right ∷ out_of_bounds_to_left
    ∷ already_freed ∷ use_after_free ∷ invalid_free ∷ []

abbrev listed : Option Fault → List Fault
listed none = []
listed (some f) = f ∷ []

-- With memory each mode has the one fault that the description of the parameter names, and every other
-- number none.
pub oops_test_init-documented :
    (mode : ℕ) → faults true (oops_test_init true mode) ≡ listed (get_elem? description mode)
unfolding faults oops_test_init
oops_test_init-documented zero = refl
oops_test_init-documented (suc zero) = refl
oops_test_init-documented (suc (suc zero)) = refl
oops_test_init-documented (suc (suc (suc zero))) = refl
oops_test_init-documented (suc (suc (suc (suc zero)))) = refl
oops_test_init-documented (suc (suc (suc (suc (suc zero))))) = refl
oops_test_init-documented (suc (suc (suc (suc (suc (suc zero)))))) = refl
oops_test_init-documented (suc (suc (suc (suc (suc (suc (suc n))))))) = ground arith
