-- ===== src/Sharing.antt =====
-- `_cache_subdir` of src/udfread.c where several threads use one handle. A thread runs from one
-- access to shared memory to the next, and the threads' steps come in any order; a
-- compare-and-exchange (src/udf_atomic.h) is one step. calloc is taken to succeed, and plain reads
-- of a pointer give the last value written.
pub mod Alone
pub mod Call
pub mod Invariant
pub mod Moves
pub mod Results
pub mod Steps
pub mod Worlds
use libudfread.Common.{
  ℕ, ◌+◌, ◌<◌, ◌≡◌, ◌⊎◌, ◌==◌, if◌then◌else◌, Bool, true, false, List, [], Option, none, some,
}
use libudfread.Memory.{Mem, fault, done, ◌>>=◌}
use libudfread.Fs.{UdfFs}
use libudfread.Fs.Dir.{DirEntry, udf_read_dir}
use libudfread.Directory.{file_at}
use libudfread.Tree.{
  DirCell, DirTree, root_dir, root_only, fresh_cell, set_cell, with_array, set_pointer, is_dir,
  pointer_in,
}

-- The store of directories, and which of them have been freed.
pub record World : Type 0 where
  pub tree : DirTree
  pub freed : ℕ → Bool

-- Where a thread is in `_cache_subdir(udf, d, index)`.
pub data Thread : Type 0 where
  -- before the test of the entry's flags
  at_flag : ℕ → ℕ → Thread
  -- before `if (!dir->subdirs)`
  at_array : ℕ → ℕ → Thread
  -- with a new array, before the exchange of `dir->subdirs`
  new_array : ℕ → ℕ → Thread
  -- before `if (!dir->subdirs[index])`
  at_slot : ℕ → ℕ → Thread
  -- before `udf_read_dir`
  at_read : ℕ → ℕ → Thread
  -- with a new directory, before the exchange of `dir->subdirs[index]`
  new_subdir : ℕ → ℕ → ℕ → Thread
  -- before `return dir->subdirs[index]`
  at_return : ℕ → ℕ → Thread
  -- behind the call, with its result; NULL is `none`
  returned : ℕ → ℕ → Option ℕ → Thread

-- a directory that has not been freed
unfoldable pub deref : World → ℕ → Mem DirCell
deref w d = if w.freed d then fault else done (w.tree.cells d)

-- `dir->subdirs[index]`, where the array must be there
unfoldable pub slot_of : DirCell → ℕ → Mem (Option ℕ)
slot_of cell index = elim cell.subdirs [ none ↦ fault | some subdirs ↦ done (subdirs index) ]

-- `dir->entries.files[index]`
unfoldable pub file_of : DirCell → ℕ → Mem DirEntry
file_of cell index = elim (file_at cell.entries index) [ none ↦ fault | some fi ↦ done fi ]

-- The exchange of `dir->subdirs`: a new array of NULLs is put there, or freed.
unfoldable pub exchange_array : World → ℕ → World
exchange_array w d = record w { tree = with_array w.tree d }

-- A directory that has been read is new in the store; no pointer leads there.
unfoldable pub add_cell : World → List DirEntry → World
add_cell w entries = record w {
  tree = record (set_cell w.tree w.tree.used (fresh_cell entries)) { used = w.tree.used + 1 };
}

unfoldable pub after_read : World → ℕ → ℕ → Bool × List DirEntry → World × Thread
after_read w d index (false, entries) = (w, returned d index none)
after_read w d index (true, entries) = (add_cell w entries, new_subdir d index w.tree.used)

unfoldable pub set_slot : World → ℕ → ℕ → ℕ → World
set_slot w d index c = record w {
  tree =
      set_cell w.tree d
        (record (w.tree.cells d) { subdirs = some (set_pointer (w.tree.cells d).subdirs index c) });
}

unfoldable pub free_cell : World → ℕ → World
free_cell w c = record w { freed = λ e. if e == c then true else w.freed e }

-- The exchange of `dir->subdirs[index]`: directory `c` is put there, or freed.
unfoldable pub exchange_slot : World → ℕ → ℕ → ℕ → Option ℕ → World
exchange_slot w d index c none = set_slot w d index c
exchange_slot w d index c (some other) = free_cell w c

-- One step of a thread. The threads that have returned do nothing.
unfoldable pub act : UdfFs → ℕ → World → Thread → Mem (World × Thread)
act fs fuel w (at_flag d index) = do
  cell ← deref w d
  fi ← file_of cell index
  done (w, if is_dir fi then at_array d index else returned d index none)
act fs fuel w (at_array d index) = do
  cell ← deref w d
  done (w, elim cell.subdirs [ none ↦ new_array d index | some subdirs ↦ at_slot d index ])
act fs fuel w (new_array d index) = do cell ← deref w d; done (exchange_array w d, at_slot d index)
act fs fuel w (at_slot d index) = do
  cell ← deref w d
  slot ← slot_of cell index
  done (w, elim slot [ none ↦ at_read d index | some c ↦ at_return d index ])
act fs fuel w (at_read d index) = do
  cell ← deref w d
  fi ← file_of cell index
  r ← udf_read_dir fs fuel fi.icb []
  done (after_read w d index r)
act fs fuel w (new_subdir d index c) = do
  cell ← deref w d
  slot ← slot_of cell index
  done (exchange_slot w d index c slot, at_return d index)
act fs fuel w (at_return d index) = do
  cell ← deref w d
  slot ← slot_of cell index
  done (w, returned d index slot)
act fs fuel w (returned d index r) = done (w, returned d index r)

pub record System : Type 0 where
  pub world : World
  pub threads : ℕ → Thread

abbrev pub set_thread : (ℕ → Thread) → ℕ → Thread → ℕ → Thread
set_thread threads k th j = if j == k then th else threads j

-- The directories that a thread can name: the root, and those that a pointer leads to.
abbrev pub IsLinked : DirTree → ℕ → Type 0
IsLinked t c = (e : ℕ) × (j : ℕ) × (e < t.used) × (pointer_in (t.cells e).subdirs j ≡ some c)

abbrev pub IsReached : DirTree → ℕ → Type 0
IsReached t d = (d ≡ root_dir) ⊎ IsLinked t d

-- A thread takes a step, or one that has returned calls `_cache_subdir` again, for an entry of a
-- directory.
pub data Step (fs : UdfFs) (fuel : ℕ) (s : System) : System → Type 0 where
  acts :
      (k : ℕ) (w : World) (th : Thread)
      → act fs fuel s.world (s.threads k) ≡ done (w, th)
      → Step fs fuel s (record { world = w; threads = set_thread s.threads k th })
  calls :
      (k d index d' index' : ℕ) (r : Option ℕ) (fi : DirEntry)
      → s.threads k ≡ returned d' index' r
      → d < s.world.tree.used
      → IsReached s.world.tree d
      → file_at (s.world.tree.cells d).entries index ≡ some fi
      → Step fs fuel s
          (record { world = s.world; threads = set_thread s.threads k (at_flag d index) })

-- A handle that has just been opened, with no thread in a call.
abbrev pub start : List DirEntry → System
start entries = record {
  world = record { tree = root_only entries; freed = λ c. false };
  threads = λ k. returned root_dir 0 none;
}

-- The states that steps lead to from `s`.
pub data Run (fs : UdfFs) (fuel : ℕ) (s : System) : System → Type 0 where
  here : Run fs fuel s s
  later : {t u : System} → Run fs fuel s t → Step fs fuel t u → Run fs fuel s u
