-- ===== src/SeqFile/Tests.antt =====
-- The pass over the table at concrete positions.
use linux_driver_kb.Prelude.{◌≡◌, some, drop, arith}
use linux_driver_kb.SeqFile.{seqfile_entrys, seq_start}
use linux_driver_kb.SeqFile.Walk.{pass, pass-drop}

pass-drop_example : pass 5 (seq_start 1) ≡ some (drop 1 seqfile_entrys)
pass-drop_example = pass-drop 5 1 (omega arith)
