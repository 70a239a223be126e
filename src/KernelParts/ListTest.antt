-- ===== src/KernelParts/ListTest.antt =====
-- The walk over the kernel's list in 26.内核组件/driver/list/list.c.
use linux_driver_kb.Prelude.{
  ℕ, ◌≡◌, refl, ap, ◌∙◌, Bool, true, false, ◌==◌, if◌then◌else◌, List, [], ◌∷◌, ◌++◌, map,
  append_assoc, arith,
}

-- A list head in memory, and the entries that are linked to it, each by its index.
abbrev pub erase : ℕ → List ℕ → List ℕ
erase x [] = []
erase x (y ∷ ys) = if x == y then ys else y ∷ erase x ys

abbrev pub is_nil : List ℕ → Bool
is_nil [] = true
is_nil _ = false

erase_head : (x : ℕ) (xs : List ℕ) → erase x (x ∷ xs) ≡ xs
erase_head x xs = ground arith

-- The functions of linux/list.h, by what they do to the entries.
pub record ListHead : Type 1 where
  pub Head : Type 0
  pub entries : Head → List ℕ
  pub list_empty : Head → Bool
  pub list_add : ℕ → Head → Head
  pub list_add_tail : ℕ → Head → Head
  pub list_del : ℕ → Head → Head
  pub empty_if_nil : (h : Head) → list_empty h ≡ is_nil (entries h)
  pub adds : (x : ℕ) (h : Head) → entries (list_add x h) ≡ x ∷ entries h
  pub adds_tail : (x : ℕ) (h : Head) → entries (list_add_tail x h) ≡ entries h ++ x ∷ []
  pub deletes : (x : ℕ) (h : Head) → entries (list_del x h) ≡ erase x (entries h)

-- The messages of list_test_init.
pub data Message : Type 0 where
  empty : Bool → Message
  after_add after_del : ℕ → Message

module _ (lib : ListHead) where
  -- The last loop: each entry that was linked when it began is deleted.
  unfoldable pub delete_each : List ℕ → lib.Head → lib.Head
  delete_each [] h = h
  delete_each (x ∷ xs) h = delete_each xs (lib.list_del x h)

  -- The list after the three additions, and after the first deletion.
  unfoldable pub after_adding : lib.Head → lib.Head
  after_adding h = lib.list_add_tail 3 (lib.list_add_tail 2 (lib.list_add 1 h))

  -- list_for_each_entry goes through the entries in their order. What is printed, and the list.
  unfoldable pub list_test_init : lib.Head → List Message × lib.Head
  unfolding delete_each after_adding
  list_test_init h =
      let added = after_adding h in
      let deleted = lib.list_del 1 added in
      let end = delete_each (lib.entries deleted) deleted in
      (
        empty (lib.list_empty h)
            ∷ (map after_add (lib.entries added)
                ++ (map after_del (lib.entries deleted) ++ empty (lib.list_empty end) ∷ [])),
        end,
      )

  delete_each_lem :
      (xs : List ℕ) (h : lib.Head) → lib.entries h ≡ xs → lib.entries (delete_each xs h) ≡ []
  unfolding delete_each
  delete_each_lem [] h e = e
  delete_each_lem (x ∷ xs) h e =
      delete_each_lem xs (lib.list_del x h) (lib.deletes x h ∙ ap (erase x) e ∙ erase_head x xs)

  -- On a list with any entries the function prints these between the ones that it adds, first to the front
  -- and then to the tail, and leaves the list empty: nothing links to the entries, which stood on the
  -- function's stack.
  pub list_test_init-empties :
      (h : lib.Head) (old : List ℕ)
      → lib.entries h ≡ old
      → let (printed, end) = list_test_init h in
        (lib.entries end ≡ [])
        × (printed
            ≡ empty (is_nil old)
              ∷ (map after_add (1 ∷ (old ++ 2 ∷ 3 ∷ []))
                  ++ (map after_del (old ++ 2 ∷ 3 ∷ []) ++ empty true ∷ [])))
  unfolding list_test_init after_adding
  list_test_init-empties h old e =
      let added : lib.entries (after_adding h) ≡ 1 ∷ (old ++ 2 ∷ 3 ∷ []) =
        lib.adds_tail 3 (lib.list_add_tail 2 (lib.list_add 1 h))
        ∙ ap (λ l. l ++ 3 ∷ [])
            (lib.adds_tail 2 (lib.list_add 1 h)
              ∙ ap (λ l. l ++ 2 ∷ []) (lib.adds 1 h ∙ ap (λ l. 1 ∷ l) e))
        ∙ ap (λ l. 1 ∷ l) (append_assoc old (2 ∷ []) (3 ∷ [])) in
      let deleted : lib.entries (lib.list_del 1 (after_adding h)) ≡ old ++ 2 ∷ 3 ∷ [] =
        lib.deletes 1 (after_adding h) ∙ ap (erase 1) added in
      let none_left : lib.entries (
            delete_each (lib.entries (lib.list_del 1 (after_adding h)))
              (lib.list_del 1 (after_adding h)))
          ≡ [] =
        delete_each_lem _ (lib.list_del 1 (after_adding h)) refl in
      let last_empty =
        lib.empty_if_nil (delete_each (old ++ 2 ∷ 3 ∷ []) (lib.list_del 1 (after_adding h)))
        ∙ ap is_nil
            (delete_each_lem (old ++ 2 ∷ 3 ∷ []) (lib.list_del 1 (after_adding h)) deleted) in
      (none_left, rw (lib.empty_if_nil h, e, added, deleted, last_empty) refl)
