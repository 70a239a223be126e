-- ===== src/CharDev/Refine.antt =====
-- The character device is the store of `Spec`, for every sequence of calls.
use linux_driver_kb.Prelude.{◌^◌, ◌≤◌, ◌<◌, ◌≡◌, refl, List, [], ◌∷◌, arith, length}
use linux_driver_kb.Prelude.Int.{pos_part, neg_part}
use linux_driver_kb.Prelude.Bytes.{slice, splice-nil}
use linux_driver_kb.Kernel.User.{UserCopy, Mapped}
use linux_driver_kb.CharDev.{CharDev, clip, char_dev_write, char_dev_read, char_dev_llseek}
use linux_driver_kb.CharDev.Bounds.{
  IsValid, char_dev_write-IsValid, char_dev_read-IsValid, char_dev_llseek-IsValid,
}
use linux_driver_kb.CharDev.Spec
use linux_driver_kb.CharDev.Spec.{Store, Op, put, get, seek, Reply}

abbrev pub store : CharDev → Store
store d = record { content = d.mem; cursor = pos_part d.f_pos }

-- An argument that fits its C type: a length fits `size_t`, an offset `loff_t`.
abbrev pub Fits : Op → Type 0
Fits (put buf) = length buf < 2 ^ 64
Fits (get len) = len < 2 ^ 64
Fits (seek offset orig) = (pos_part offset < 2 ^ 63) × (neg_part offset ≤ 2 ^ 63)

abbrev pub AllFit : List Op → Type 0
AllFit [] = Unit
AllFit (op ∷ ops) = Fits op × AllFit ops

module _ (u : UserCopy) where
  -- One call of the driver, with the whole buffer written.
  unfoldable pub call : CharDev → Op → Reply × CharDev
  call d (put buf) = let (r, d') = char_dev_write u d buf (length buf) in ((r, []), d')
  call d (get len) = let (r, bs, d') = char_dev_read u d len in ((r, bs), d')
  call d (seek offset orig) = let (r, d') = char_dev_llseek d offset orig in ((r, []), d')

  unfoldable pub run : CharDev → List Op → List Reply
  run d [] = []
  run d (op ∷ ops) = let (r, d') = call d op in r ∷ run d' ops

  pub call-IsValid : {d : CharDev} (op : Op) → IsValid d → IsValid (call d op).1
  unfolding call
  call-IsValid (put buf) v = char_dev_write-IsValid u buf (length buf) v
  call-IsValid (get len) v = char_dev_read-IsValid u len v
  call-IsValid (seek offset orig) v = char_dev_llseek-IsValid offset orig v

  pub call_refines :
      {d : CharDev} (op : Op)
      → Mapped u
      → IsValid d
      → Fits op
      → ((call d op).0 ≡ (Spec.step (store d) op).0)
        × (store (call d op).1 ≡ (Spec.step (store d) op).1)
  unfolding call Spec.step char_dev_write char_dev_read char_dev_llseek
  call_refines {d} (put buf) m v f = ground (
    arith,
    m.readable d.mem (pos_part d.f_pos) buf (clip (pos_part d.f_pos) (length buf)),
    u.from_user_all d.mem (pos_part d.f_pos) buf (clip (pos_part d.f_pos) (length buf)),
    splice-nil (pos_part d.f_pos) d.mem,
  )
  call_refines {d} (get len) m v f = ground (
    arith,
    m.writable (slice (pos_part d.f_pos) (clip (pos_part d.f_pos) len) d.mem),
    u.to_user_all (slice (pos_part d.f_pos) (clip (pos_part d.f_pos) len) d.mem),
  )
  call_refines {d} (seek offset orig) m v f = ground arith

  -- With mapped user buffers, every sequence of writes, reads and seeks on an open file gets the
  -- replies that a store of 1024 bytes with a cursor gives: counts, bytes, positions and errors.
  pub run_refines :
      (ops : List Op) {d : CharDev}
      → Mapped u
      → IsValid d
      → AllFit ops
      → run d ops ≡ Spec.run (store d) ops
  unfolding run Spec.run
  run_refines [] m v f = refl
  run_refines (op ∷ ops) {d} m v (f, fs) =
      let (same, next) = call_refines op m v f in
      rw (run_refines ops m (call-IsValid op v) fs, same, next)
