-- ===== src/Prelude/Search.antt =====
-- Tests over the elements of a list.
use mathlib.Core.Path.{◌≡◌}
use mathlib.Core.Logic.{inl, inr}
use mathlib.Core.Bool.{Bool, true, false, ◌&&◌, ◌||◌}
use mathlib.Core.List.{List, [], ◌∷◌, Memᴰ}
use mathlib.Core.List.Memᴰ.{head, tail}
use mathlib.Core.Option.{some}
use Prim.Native.Nat.{ℕ, zero, suc}
use Prim.Native.String.{String}
use native.Mathlib.Omega.{arith}
use text.Mathlib.Text.{◌==◌}
use text.Mathlib.TextEquality.{eq_iff}
use linux_driver_kb.Prelude.Tests.{if◌then◌else◌, Bool-cases}
use linux_driver_kb.Prelude.Lists.{get_elem?}

module _ {ℓ} {A : Type ℓ} where
  abbrev pub all : (A → Bool) → List A → Bool
  all p [] = true
  all p (x ∷ xs) = p x && all p xs

  abbrev pub any : (A → Bool) → List A → Bool
  any p [] = false
  any p (x ∷ xs) = p x || any p xs

  abbrev pub filter : (A → Bool) → List A → List A
  filter p [] = []
  filter p (x ∷ xs) = let rest = filter p xs in if p x then x ∷ rest else rest

  pub all-Mem : (p : A → Bool) (xs : List A) (x : A) → all p xs ≡ true → Memᴰ x xs → p x ≡ true
  all-Mem p [] x every m = elim m [ ]
  all-Mem p (y ∷ xs) x every (head e) = ground (arith, every, e)
  all-Mem p (y ∷ xs) x every (tail m) = all-Mem p xs x (ground (arith, every)) m

  pub get_elem-Mem : (xs : List A) (i : ℕ) (x : A) → get_elem? xs i ≡ some x → Memᴰ x xs
  get_elem-Mem [] i x e = absurd (ground (arith, e))
  get_elem-Mem (y ∷ xs) zero x e = head (ground (arith, e))
  get_elem-Mem (y ∷ xs) (suc i) x e = tail (get_elem-Mem xs i x e)

  pub any_head : (p : A → Bool) (x : A) (xs : List A) → any p (x ∷ xs) ≡ false → p x ≡ false
  any_head p x xs h = ground (arith, h)

  pub any_tail : (p : A → Bool) (x : A) (xs : List A) → any p (x ∷ xs) ≡ false → any p xs ≡ false
  any_tail p x xs h = ground (arith, h)

  pub any-filter : (p q : A → Bool) (xs : List A) → any q xs ≡ false → any q (filter p xs) ≡ false
  any-filter p q [] h = h
  any-filter p q (x ∷ xs) h =
      let rest = any-filter p q xs (ground (arith, h)) in ground (arith, rest)

abbrev pub has : String → List String → Bool
has c xs = any (λ x. c == x) xs

abbrev pub meets : List String → List String → Bool
meets xs ys = any (λ x. has x ys) xs

pub meets_common :
    (c : String) (xs ys : List String) → has c xs ≡ true → has c ys ≡ true → meets xs ys ≡ true
meets_common c [] ys h k = absurd (ground (arith, h))
meets_common c (x ∷ xs) ys h k = elim (Bool-cases (c == x)) [
  | inl e ↦ let same = (eq_iff c x).0 e in ground (arith, k, same)
  | inr e ↦ let later = meets_common c xs ys (ground (arith, h, e)) k in ground (arith, later)
]
