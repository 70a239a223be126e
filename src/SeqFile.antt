-- ===== src/SeqFile.antt =====
-- The sequence file of 01.字符设备/driver/seq_file.c: a table of three entries, shown one by one by the
-- kernel's seq_file, which calls start, show, next and stop.
pub mod Walk
mod Tests
use linux_driver_kb.Kernel.Ledger.{Kernel, Code}
use linux_driver_kb.CharDev.{char_dev_init, char_dev_exit}
use linux_driver_kb.Prelude.{
  ℕ, ◌+◌, Option, none, some, List, [], ◌∷◌, leb, get_elem?, length, if◌then◌else◌,
}

pub record SeqfileEntry : Type 0 where
  pub str : List ℕ  -- the bytes before the closing 0
  pub num : ℕ

-- "first", "second" and "third".
abbrev pub seqfile_entrys : List SeqfileEntry
seqfile_entrys =
    record { str = 102 ∷ 105 ∷ 114 ∷ 115 ∷ 116 ∷ []; num = 1 }
    ∷ record { str = 115 ∷ 101 ∷ 99 ∷ 111 ∷ 110 ∷ 100 ∷ []; num = 2 }
    ∷ record { str = 116 ∷ 104 ∷ 105 ∷ 114 ∷ 100 ∷ []; num = 3 }
    ∷ []

-- The position at which to show something, if there is one.
unfoldable pub seq_start : ℕ → Option ℕ
seq_start pos = if leb (length seqfile_entrys) pos then none else some pos

-- The new position, and the same answer.
unfoldable pub seq_next : ℕ → ℕ × Option ℕ
seq_next pos = (pos + 1, if leb (length seqfile_entrys) (pos + 1) then none else some (pos + 1))

-- The entry that is printed; `none` is a read outside the table.
unfoldable pub seq_show : ℕ → Option SeqfileEntry
seq_show pos = get_elem? seqfile_entrys pos

-- The module is loaded and unloaded by the same calls, in the same order, as c-drv.c.
abbrev pub seqfile_test_init : Kernel → Code
seqfile_test_init = char_dev_init

abbrev pub seqfile_test_exit : Code
seqfile_test_exit = char_dev_exit
