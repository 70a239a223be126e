-- ===== src/CharDev/Spec.antt =====
-- What the character device promises: a store of fixed size with a cursor. Amounts are plain
-- numbers here, with no machine words and no copies that fail.
use linux_driver_kb.Prelude.{
  ℕ, ◌+◌, ◌-◌, ◌||◌, List, [], ◌∷◌, min, length, take, ◌==◌, if◌then◌else◌,
}
use linux_driver_kb.Prelude.Int.{ℤ, pos, pos_part, ◌+ℤ◌, leb_ℤ, is_neg}
use linux_driver_kb.Prelude.Bytes.{slice, splice}
use linux_driver_kb.Kernel.Errno.{einval}
use linux_driver_kb.CharDev.{mem_size}

pub record Store : Type 0 where
  pub content : List ℕ
  pub cursor : ℕ

-- What a user asks of the file: to write a buffer, to read at most so many bytes, to move.
pub data Op : Type 0 where
  put : List ℕ → Op
  get : ℕ → Op
  seek : ℤ → ℕ → Op

-- The result of the call, and the bytes that a read delivers.
abbrev pub Reply : Type 0
Reply = ℤ × List ℕ

abbrev move : Store → ℤ → Reply × Store
move s target =
    if is_neg target || leb_ℤ (pos mem_size) target
    then ((einval, []), s)
    else ((target, []), record s { cursor = pos_part target })

unfoldable pub step : Store → Op → Reply × Store
step s (put buf) =
    let n = min (length buf) (mem_size - s.cursor) in
    (
      (pos n, []),
      record { content = splice s.cursor (take n buf) s.content; cursor = s.cursor + n },
    )
step s (get len) =
    let n = min len (mem_size - s.cursor) in
    ((pos n, slice s.cursor n s.content), record s { cursor = s.cursor + n })
step s (seek offset orig) =
    if orig == 0
    then move s offset
    else if orig == 1
    then move s (pos s.cursor +ℤ offset)
    else ((einval, []), s)

unfoldable pub run : Store → List Op → List Reply
run s [] = []
run s (op ∷ ops) = let (r, s') = step s op in r ∷ run s' ops
