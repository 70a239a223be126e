-- ===== src/Kernel/Ledger/Bags.antt =====
-- What is held, without its order and without what the device core releases by itself.
use linux_driver_kb.Prelude.{
  ℕ, ◌+◌, ◌<◌, ◌≡◌, ◌≢◌, refl, List, [], ◌∷◌, ◌++◌, Option, some, Bool, true, false, if◌then◌else◌,
  sym, ap, ◌∙◌, inl, inr, Bool-cases, Option-cases, arith,
}
use mathlib.Core.Logic.{ite, if_pos, if_neg}
use mathlib.Core.Option
use linux_driver_kb.Kernel.Ledger.Resources.{
  Res, Res-discrete, devm_mem, devm_gpio, devm_irq, devm_iio_buffer, devm_iio, dt_property, panel,
  devm_regmap, devm_hwmon, devm_rtc, devm_input, devm_mfd,
}
use linux_driver_kb.Kernel.Ledger.Calls.{remove}

-- What the device core releases by itself when a probe fails or the device goes.
abbrev pub is_managed : Res → Bool
is_managed devm_mem = true
is_managed devm_gpio = true
is_managed devm_irq = true
is_managed devm_iio_buffer = true
is_managed devm_iio = true
is_managed dt_property = true
is_managed panel = true
is_managed devm_regmap = true
is_managed devm_hwmon = true
is_managed devm_rtc = true
is_managed devm_input = true
is_managed devm_mfd = true
is_managed _ = false

abbrev one_if : Res → Res → ℕ
one_if r x = ite (Res-discrete r x) 1 0

abbrev pub count : Res → List Res → ℕ
count r [] = 0
count r (x ∷ xs) = one_if r x + count r xs

-- The same things, the managed ones aside.
pub record Same (a b : List Res) : Type 0 where
  pub counts : (r : Res) → is_managed r ≡ false → count r a ≡ count r b

pub Same-refl : (a : List Res) → Same a a
Same-refl a = record { counts = λ r own. refl }

pub Same-trans : {a b c : List Res} → Same a b → Same b c → Same a c
Same-trans ab bc = record { counts = λ r own. cc (ab.counts r own, bc.counts r own) }

pub Same-cons : (x : Res) {a b : List Res} → Same a b → Same (x ∷ a) (x ∷ b)
Same-cons x ab = record { counts = λ r own. rw (ab.counts r own) refl }

pub count-append : (r : Res) (a b : List Res) → count r (a ++ b) ≡ count r a + count r b
count-append r [] b = omega arith
count-append r (x ∷ a) b = omega (arith, count-append r a b)

count-remove :
    (s r : Res) (xs rest : List Res)
    → remove r xs ≡ some rest
    → count s xs ≡ one_if s r + count s rest
count-remove s r [] rest e = absurd (cc e)
count-remove s r (x ∷ xs) rest e = elim (Res-discrete r x) [
  | yes same ↦
      let found : some xs ≡ some rest = rw (if_pos (Res-discrete r x) same) at e in
      let end : xs ≡ rest = cc found in rw (same, end) refl
  | no other ↦ elim (Option-cases (remove r xs)) [
    | inl gone ↦ absurd (cc (rw (if_neg (Res-discrete r x) other, gone) at e))
    | inr (ys, found) ↦
        let sum = count-remove s r xs ys found in
        let all : some (x ∷ ys) ≡ some rest = rw (if_neg (Res-discrete r x) other, found) at e in
        let end : x ∷ ys ≡ rest = cc all in rw (← end) (omega (arith, sum))
  ]
]

remove-found :
    (r : Res) (xs : List Res) → 0 < count r xs → (rest : List Res) × (remove r xs ≡ some rest)
remove-found r [] h = absurd (omega (arith, h))
remove-found r (x ∷ xs) h = elim (Res-discrete r x) [
  | yes same ↦ (xs, if_pos {C = Option (List Res)} (Res-discrete r x) same _ _)
  | no other ↦
      let (rest, found) =
        remove-found r xs (omega (arith, h, if_neg {C = ℕ} (Res-discrete r x) other 1 0)) in
      (
        x ∷ rest,
        if_neg {C = Option (List Res)} (Res-discrete r x) other _ _
            ∙ ap (Option.map (λ l. x ∷ l)) found,
      )
]

-- What can be released can be released from the same things in any order.
pub remove-Same :
    (r : Res) {now held rest : List Res}
    → is_managed r ≡ false
    → Same now held
    → remove r held ≡ some rest
    → (rest' : List Res) × (remove r now ≡ some rest') × Same rest' rest
remove-Same r {now} {held} {rest} own same e =
    let one : one_if r r ≡ 1 = if_pos (Res-discrete r r) refl 1 0 in
    let (rest', e') =
      remove-found r now (omega (arith, same.counts r own, count-remove r r held rest e, one)) in
    (
      rest',
      e',
      record {
        counts = λ s sown. omega (
          arith,
          same.counts s sown,
          count-remove s r held rest e,
          count-remove s r now rest' e',
        );
      },
    )

abbrev pub unmanaged : List Res → List Res
unmanaged [] = []
unmanaged (r ∷ held) = if is_managed r then unmanaged held else r ∷ unmanaged held

count-unmanaged :
    (r : Res) (a : List Res) → is_managed r ≡ false → count r (unmanaged a) ≡ count r a
count-unmanaged r [] own = refl
count-unmanaged r (x ∷ a) own = elim (Bool-cases (is_managed x)) [
  | inl managed ↦
      let other : r ≢ x = λ e. cc (own, managed, e) in
      rw (managed, if_neg (Res-discrete r x) other) (omega (arith, count-unmanaged r a own))
  | inr not_managed ↦ rw (not_managed, count-unmanaged r a own) refl
]

pub unmanaged-Same : {a b : List Res} → unmanaged a ≡ unmanaged b → Same a b
unmanaged-Same {a} {b} e = record {
  counts = λ r own. sym (count-unmanaged r a own) ∙ ap (count r) e ∙ count-unmanaged r b own;
}

pub Same-forget : (x : Res) (a : List Res) → is_managed x ≡ true → Same (x ∷ a) a
Same-forget x a managed = record {
  counts = λ r own.
      let other : r ≢ x = λ e. cc (own, managed, e) in
      omega (arith, if_neg {C = ℕ} (Res-discrete r x) other 1 0);
}
