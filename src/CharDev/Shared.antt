-- ===== src/CharDev/Shared.antt =====
-- Several files open on the one memory: each has its own position, and opening clears the memory for
-- all of them.
use linux_driver_kb.Prelude.{
  ℕ, ◌≡◌, refl, ap, ◌∙◌, List, [], ◌∷◌, replicate, ◌==◌, if◌then◌else◌, arith,
}
use linux_driver_kb.Prelude.Int.{ℤ, pos}
use linux_driver_kb.Kernel.User.{UserCopy, Mapped}
use linux_driver_kb.CharDev.{CharDev, mem_size, char_dev_open}
use linux_driver_kb.CharDev.Bounds.{IsValid, char_dev_open-IsValid}
use linux_driver_kb.CharDev.Spec
use linux_driver_kb.CharDev.Spec.{Store, Op, Reply}
use linux_driver_kb.CharDev.Refine.{store, Fits, call, call-IsValid, call_refines}

abbrev pub update {ℓ} : {A : Type ℓ} → ℕ → A → (ℕ → A) → ℕ → A
update i a f j = if j == i then a else f j

-- The device, and the position of each open file, by a number.
pub record Files : Type 0 where
  pub mem : List ℕ
  pub positions : ℕ → ℤ

-- A program opens the device as file `i`, or calls something on file `i`.
pub data FileOp : Type 0 where
  opens : ℕ → FileOp
  on : ℕ → Op → FileOp

abbrev pub file : Files → ℕ → CharDev
file s i = record { mem = s.mem; f_pos = s.positions i }

abbrev with_file : Files → ℕ → CharDev → Files
with_file s i d = record { mem = d.mem; positions = update i d.f_pos s.positions }

-- What the files promise together: one store with a cursor for each.
pub record Stores : Type 0 where
  pub content : List ℕ
  pub cursors : ℕ → ℕ

abbrev view : Stores → ℕ → Store
view t i = record { content = t.content; cursor = t.cursors i }

unfoldable pub spec_step : Stores → FileOp → Reply × Stores
spec_step t (opens i) =
    ((pos 0, []), record { content = replicate mem_size 0; cursors = update i 0 t.cursors })
spec_step t (on i op) =
    let (r, s) = Spec.step (view t i) op in
    (r, record { content = s.content; cursors = update i s.cursor t.cursors })

unfoldable pub spec_run : Stores → List FileOp → List Reply
spec_run t [] = []
spec_run t (op ∷ ops) = let (r, t') = spec_step t op in r ∷ spec_run t' ops

abbrev FitsFile : FileOp → Type 0
FitsFile (opens i) = Unit
FitsFile (on i op) = Fits op

abbrev pub AllFit : List FileOp → Type 0
AllFit [] = Unit
AllFit (op ∷ ops) = FitsFile op × AllFit ops

-- Every file's position is inside the memory.
abbrev pub AllValid : Files → Type 0
AllValid s = (i : ℕ) → IsValid (file s i)

-- The files and the stores that they stand for.
abbrev pub Stands : Files → Stores → Type 0
Stands s t = (i : ℕ) → store (file s i) ≡ view t i

module _ (u : UserCopy) where
  unfoldable pub file_step : Files → FileOp → Reply × Files
  file_step s (opens i) = ((pos 0, []), with_file s i (char_dev_open (file s i)))
  file_step s (on i op) = let (r, d) = call u (file s i) op in (r, with_file s i d)

  unfoldable pub file_run : Files → List FileOp → List Reply
  file_run s [] = []
  file_run s (op ∷ ops) = let (r, s') = file_step s op in r ∷ file_run s' ops

  with_file-AllValid :
      (s : Files) (i : ℕ) (d : CharDev) → AllValid s → IsValid d → AllValid (with_file s i d)
  with_file-AllValid s i d v v' j = let own = v j in ground arith

  with_file-Stands :
      (s : Files) (t : Stores) (i : ℕ) (d : CharDev) (new : Store)
      → Stands s t
      → store d ≡ new
      → Stands
          (with_file s i d)
          (record { content = new.content; cursors = update i new.cursor t.cursors })
  with_file-Stands s t i d new h e j = let own = h j in ground arith

  step_refines :
      (op : FileOp) (s : Files) (t : Stores)
      → Mapped u
      → AllValid s
      → FitsFile op
      → Stands s t
      → ((file_step s op).0 ≡ (spec_step t op).0)
        × AllValid (file_step s op).1
        × Stands (file_step s op).1 (spec_step t op).1
  unfolding file_step spec_step char_dev_open
  step_refines (opens i) s t m v f h = (
    refl,
    with_file-AllValid s i (char_dev_open (file s i)) v (char_dev_open-IsValid (file s i)),
    with_file-Stands s t i (char_dev_open (file s i)) _ h refl,
  )
  step_refines (on i op) s t m v f h =
      let (same, next) = call_refines u op m (v i) f in
      let valid = call-IsValid u op (v i) in
      (
        same ∙ ap (λ x. (Spec.step x op).0) (h i),
        with_file-AllValid s i (call u (file s i) op).1 v valid,
        with_file-Stands s t i (call u (file s i) op).1 _ h
            (next ∙ ap (λ x. (Spec.step x op).1) (h i)),
      )

  -- With mapped user buffers, any sequence of calls on any number of files, in any interleaving, gets the
  -- replies of one store of 1024 bytes with a cursor for each file, which every opening fills with
  -- zeros, also under the files that are open already.
  pub files_refine :
      (ops : List FileOp) (s : Files) (t : Stores)
      → Mapped u
      → AllValid s
      → AllFit ops
      → Stands s t
      → file_run s ops ≡ spec_run t ops
  unfolding file_run spec_run
  files_refine [] s t m v f h = refl
  files_refine (op ∷ ops) s t m v (f, fs) h =
      let (same, v', h') = step_refines op s t m v f h in
      rw (same, files_refine ops (file_step s op).1 (spec_step t op).1 m v' fs h') refl
