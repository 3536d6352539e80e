-- ===== src/Tree/Cleaning.antt =====
-- `_clean_tree` of src/udfread.c, which frees the directory cache.
pub mod Frees
pub mod Slots
pub mod Whole
use libudfread.Common.{
  ℕ, zero, suc, ◌+◌, ◌==◌, if◌then◌else◌, Bool, true, false, List, [], ◌∷◌, Option, none, some,
  length,
}
use libudfread.Memory.{Mem, fault, running, done, ◌>>=◌}
use libudfread.Fs.Dir.{DirEntry}
use libudfread.Tree.{DirTree, DirCell, set_cell, pointer_in}

-- The store, and the directories that have been freed.
pub record Cleaning : Type 0 where
  pub tree : DirTree
  pub freed : List ℕ

-- how often it is in the list
unfoldable pub times : ℕ → List ℕ → ℕ
times c [] = 0
times c (d ∷ list) = if d == c then suc (times c list) else times c list

-- `free(subdirs[i])`: a fault if it has been freed.
unfoldable pub free_dir : Cleaning → ℕ → Mem Cleaning
free_dir s c = if times c s.freed == 0 then done (record s { freed = c ∷ s.freed }) else fault

-- `p->subdirs[i] = NULL`
unfoldable pub without : Option (ℕ → Option ℕ) → ℕ → Option (ℕ → Option ℕ)
without none i = none
without (some subdirs) i = some (λ j. if j == i then none else subdirs j)

unfoldable pub clear_slot : Cleaning → ℕ → ℕ → Cleaning
clear_slot s d i = record s {
  tree =
      set_cell s.tree d (record (s.tree.cells d) { subdirs = without (s.tree.cells d).subdirs i });
}

-- A round of the loop, where `clean` is `_clean_tree`; on NULL it does nothing.
unfoldable pub clean_slot : (Cleaning → ℕ → Mem Cleaning) → Cleaning → ℕ → ℕ → Mem Cleaning
clean_slot clean s d i = elim (pointer_in (s.tree.cells d).subdirs i) [
  | none ↦ done s
  | some c ↦ do cleaned ← clean s c; s' ← free_dir cleaned c; done (clear_slot s' d i)
]

-- the loop from slot `i` on, by the rounds left
unfoldable pub clean_slots : (Cleaning → ℕ → Mem Cleaning) → ℕ → ℕ → ℕ → Cleaning → Mem Cleaning
clean_slots clean d zero i s = done s
clean_slots clean d (suc rounds) i s = do
  s' ← clean_slot clean s d i
  clean_slots clean d rounds (i + 1) s'

-- `p->subdirs = NULL`, and the entries are cleaned
unfoldable pub clear_cell : Cleaning → ℕ → Cleaning
clear_cell s d = record s { tree = set_cell s.tree d (record { entries = []; subdirs = none }) }

-- `_clean_tree` on directory `d`, with `fuel` for the depth. A directory that has been freed faults.
unfoldable pub clean_tree : ℕ → Cleaning → ℕ → Mem Cleaning
clean_tree zero s d = running
clean_tree (suc fuel) s d =
    if times d s.freed == 0
    then (do
      s' ← elim (s.tree.cells d).subdirs [
        | none ↦ done s
        | some subdirs ↦ clean_slots (clean_tree fuel) d (length (s.tree.cells d).entries) 0 s
      ]
      done (clear_cell s' d))
    else fault
