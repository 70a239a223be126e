-- ===== src/Prelude/Bytes.antt =====
-- Memory as a list of bytes: what memcpy and memset at an offset do to it.
use Prim.Native.Nat.{ℕ, zero, suc, ◌+◌, ◌-◌, ◌≤◌, ◌<◌, min}
use mathlib.Core.Path.{◌≡◌, refl, ap, ◌∙◌}
use mathlib.Core.List.{List, [], ◌∷◌, ◌++◌}
use mathlib.Core.Logic.{◌⊎◌}
use native.Mathlib.Omega.{arith}
use linux_driver_kb.Prelude.Lists.{length, get_or, take, drop, length-take, length-drop}

-- The `n` bytes from offset `p`: fewer where the memory ends.
abbrev pub slice : ℕ → ℕ → List ℕ → List ℕ
slice p n mem = take n (drop p mem)

-- The memory with `bs` written from offset `p` on. What falls behind the end is not written.
abbrev pub splice : ℕ → List ℕ → List ℕ → List ℕ
splice p bs [] = []
splice zero [] (m ∷ mem) = m ∷ mem
splice zero (b ∷ bs) (m ∷ mem) = b ∷ splice zero bs mem
splice (suc p) bs (m ∷ mem) = m ∷ splice p bs mem

pub length-splice : (p : ℕ) (bs mem : List ℕ) → length (splice p bs mem) ≡ length mem
length-splice p bs [] = refl
length-splice zero [] (m ∷ mem) = refl
length-splice zero (b ∷ bs) (m ∷ mem) = ap suc (length-splice zero bs mem)
length-splice (suc p) bs (m ∷ mem) = ap suc (length-splice p bs mem)

length-slice : (p n : ℕ) (mem : List ℕ) → length (slice p n mem) ≡ min n (length mem - p)
length-slice p n mem = omega (arith, length-take n (drop p mem), length-drop p mem)

-- What was written is read back.
pub slice-splice :
    (p : ℕ) (bs mem : List ℕ)
    → p + length bs ≤ length mem
    → slice p (length bs) (splice p bs mem) ≡ bs
slice-splice zero [] [] h = refl
slice-splice zero [] (m ∷ mem) h = refl
slice-splice zero (b ∷ bs) [] h = absurd (omega arith)
slice-splice zero (b ∷ bs) (m ∷ mem) h = ap (λ l. b ∷ l) (slice-splice zero bs mem (omega arith))
slice-splice (suc p) [] [] h = refl
slice-splice (suc p) (b ∷ bs) [] h = absurd (omega arith)
slice-splice (suc p) bs (m ∷ mem) h = slice-splice p bs mem (omega arith)

-- The byte at each offset: inside the range the new one, outside it the old one.
pub get_or-splice_out :
    (p : ℕ) (bs mem : List ℕ) (i d : ℕ)
    → ((i < p) ⊎ (p + length bs ≤ i))
    → get_or (splice p bs mem) i d ≡ get_or mem i d
get_or-splice_out p bs [] i d h = refl
get_or-splice_out zero [] (m ∷ mem) i d h = refl
get_or-splice_out zero (b ∷ bs) (m ∷ mem) zero d h = absurd (omega arith)
get_or-splice_out zero (b ∷ bs) (m ∷ mem) (suc i) d h =
    get_or-splice_out zero bs mem i d (omega arith)
get_or-splice_out (suc p) bs (m ∷ mem) zero d h = refl
get_or-splice_out (suc p) bs (m ∷ mem) (suc i) d h = get_or-splice_out p bs mem i d (omega arith)

pub get_or-splice_in :
    (p : ℕ) (bs mem : List ℕ) (i j d : ℕ)
    → i ≡ p + j
    → j < length bs
    → i < length mem
    → get_or (splice p bs mem) i d ≡ get_or bs j d
get_or-splice_in p bs [] i j d e h l = absurd (omega arith)
get_or-splice_in zero [] (m ∷ mem) i j d e h l = absurd (omega arith)
get_or-splice_in zero (b ∷ bs) (m ∷ mem) zero zero d e h l = refl
get_or-splice_in zero (b ∷ bs) (m ∷ mem) zero (suc j) d e h l = absurd (omega arith)
get_or-splice_in zero (b ∷ bs) (m ∷ mem) (suc i) zero d e h l = absurd (omega arith)
get_or-splice_in zero (b ∷ bs) (m ∷ mem) (suc i) (suc j) d e h l =
    get_or-splice_in zero bs mem i j d (omega arith) (omega arith) (omega arith)
get_or-splice_in (suc p) bs (m ∷ mem) zero j d e h l = absurd (omega arith)
get_or-splice_in (suc p) bs (m ∷ mem) (suc i) j d e h l =
    get_or-splice_in p bs mem i j d (omega arith) (omega arith) (omega arith)

pub splice-nil : (p : ℕ) (mem : List ℕ) → splice p [] mem ≡ mem
splice-nil p [] = refl
splice-nil zero (m ∷ mem) = refl
splice-nil (suc p) (m ∷ mem) = ap (λ l. m ∷ l) (splice-nil p mem)

-- A range that lies in the first part of a memory, or in the second.
pub splice-append_left :
    (p : ℕ) (bs a b : List ℕ) → p + length bs ≤ length a → splice p bs (a ++ b) ≡ splice p bs a ++ b
splice-append_left zero [] [] b h = splice-nil 0 b
splice-append_left (suc p) bs [] b h = absurd (omega arith)
splice-append_left zero (x ∷ bs) [] b h = absurd (omega arith)
splice-append_left zero [] (m ∷ a) b h = refl
splice-append_left zero (x ∷ bs) (m ∷ a) b h =
    ap (λ l. x ∷ l) (splice-append_left zero bs a b (omega (arith, h)))
splice-append_left (suc p) bs (m ∷ a) b h =
    ap (λ l. m ∷ l) (splice-append_left p bs a b (omega (arith, h)))

pub splice-append_right :
    (p : ℕ) (bs a b : List ℕ) → splice (length a + p) bs (a ++ b) ≡ a ++ splice p bs b
splice-append_right p bs [] b = ap (λ n. splice n bs b) (omega arith)
splice-append_right p bs (m ∷ a) b =
    let next : length (m ∷ a) + p ≡ suc (length a + p) = omega arith in
    ap (λ n. splice n bs ((m ∷ a) ++ b)) next ∙ ap (λ l. m ∷ l) (splice-append_right p bs a b)

pub slice-append_left :
    (p n : ℕ) (a b : List ℕ) → p + n ≤ length a → slice p n (a ++ b) ≡ slice p n a
slice-append_left zero zero a b h = refl
slice-append_left zero (suc n) [] b h = absurd (omega arith)
slice-append_left zero (suc n) (m ∷ a) b h =
    ap (λ l. m ∷ l) (slice-append_left zero n a b (omega (arith, h)))
slice-append_left (suc p) zero [] b h = absurd (omega arith)
slice-append_left (suc p) (suc n) [] b h = absurd (omega arith)
slice-append_left (suc p) n (m ∷ a) b h = slice-append_left p n a b (omega (arith, h))

pub slice-append_right : (p n : ℕ) (a b : List ℕ) → slice (length a + p) n (a ++ b) ≡ slice p n b
slice-append_right p n [] b = ap (λ k. slice k n b) (omega arith)
slice-append_right p n (m ∷ a) b =
    let next : length (m ∷ a) + p ≡ suc (length a + p) = omega arith in
    ap (λ k. slice k n ((m ∷ a) ++ b)) next ∙ slice-append_right p n a b
