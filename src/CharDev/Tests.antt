-- ===== src/CharDev/Tests.antt =====
-- Runs of the character device, and its theorems at concrete inputs.
use linux_driver_kb.Prelude.{◌≡◌, refl, List, [], ◌∷◌, arith, replicate}
use linux_driver_kb.Prelude.Int.{pos, negsuc}
use linux_driver_kb.Kernel.Errno.{einval}
use linux_driver_kb.Kernel.FlatCopy.{flat_copy, flat_copy-Mapped}
use linux_driver_kb.CharDev.{
  CharDev, mem_size, char_dev_open, char_dev_write, char_dev_read, char_dev_llseek,
}
use linux_driver_kb.CharDev.Bounds.{IsValid, char_dev_open-IsValid}
use linux_driver_kb.CharDev.Refine.{call, run}
use linux_driver_kb.CharDev.Shared
use linux_driver_kb.CharDev.Shared.{
  Files, Stores, FileOp, opens, on, AllValid, file_run, spec_run, files_refine,
}
use linux_driver_kb.CharDev.Spec.{put, get, seek}

abbrev fresh : CharDev
fresh = record { mem = replicate mem_size 0; f_pos = pos 0 }

fresh-IsValid : IsValid fresh
unfolding char_dev_open
fresh-IsValid = char_dev_open-IsValid fresh

-- At the end of the memory a write is cut, and the next one writes nothing.
write_cut :
    run flat_copy fresh (seek (pos 1022) 0 ∷ put (7 ∷ 8 ∷ 9 ∷ []) ∷ put (1 ∷ []) ∷ [])
    ≡ (pos 1022, []) ∷ (pos 2, []) ∷ (pos 0, []) ∷ []
unfolding run call char_dev_llseek char_dev_write
write_cut = refl

-- SEEK_END is refused, and so is a position outside the memory.
seek_errors :
    run flat_copy fresh (seek (pos 0) 2 ∷ seek (pos 1024) 0 ∷ seek (negsuc 0) 1 ∷ [])
    ≡ (einval, []) ∷ (einval, []) ∷ (einval, []) ∷ []
unfolding run call char_dev_llseek
seek_errors = refl

-- Nothing written, and every file at the start.
abbrev blank : Files
blank = record { mem = replicate mem_size 0; positions = λ i. pos 0 }

abbrev blank_stores : Stores
blank_stores = record { content = replicate mem_size 0; cursors = λ i. 0 }

blank-AllValid : AllValid blank
blank-AllValid i = fresh-IsValid

-- File 1 is opened while file 0 is in use: what file 0 wrote is gone.
abbrev two_files : List FileOp
two_files = opens 0 ∷ on 0 (put (5 ∷ 6 ∷ [])) ∷ opens 1 ∷ on 0 (seek (pos 0) 0) ∷ on 0 (get 2) ∷ []

second_open_erases :
    file_run flat_copy blank two_files
    ≡ (pos 0, []) ∷ (pos 2, []) ∷ (pos 0, []) ∷ (pos 0, []) ∷ (pos 2, 0 ∷ 0 ∷ []) ∷ []
unfolding file_run Shared.file_step call char_dev_open char_dev_write char_dev_llseek char_dev_read
second_open_erases = refl

files_refine_example : file_run flat_copy blank two_files ≡ spec_run blank_stores two_files
files_refine_example =
    files_refine flat_copy two_files blank blank_stores flat_copy-Mapped blank-AllValid
      (record {}, (omega arith, (record {}, (omega arith, (omega arith, record {}))))) (λ i. refl)
