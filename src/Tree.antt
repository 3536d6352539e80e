-- ===== src/Tree.antt =====
-- The directory cache of src/udfread.c: `struct udf_dir`, and `_cache_subdir` where no other thread
-- runs meanwhile (for threads see `Sharing`). calloc is taken to succeed.
pub mod Cleaning
pub mod Forest
pub mod Grows
pub mod Reading
use libudfread.Common.{
  ℕ, ◌+◌, ◌==◌, bit_and, if◌then◌else◌, true, false, Bool, List, [], Option, none, some,
}
use libudfread.Memory.{Mem, fault, done, ◌>>=◌}
use libudfread.Fs.{UdfFs}
use libudfread.Fs.Dir.{DirEntry, udf_read_dir}
use libudfread.Directory.{file_at, char_flag_dir}

-- struct udf_dir. `subdirs` is NULL, or an array with a pointer (or NULL) for each entry.
pub record DirCell : Type 0 where
  pub entries : List DirEntry
  pub subdirs : Option (ℕ → Option ℕ)

-- The store of directories: a pointer is the number of a cell, and those below `used` are
-- allocated. The root directory, which stands in the handle, is cell 0.
pub record DirTree : Type 0 where
  pub cells : ℕ → DirCell
  pub used : ℕ

abbrev pub root_dir : ℕ
root_dir = 0

-- a directory just read: calloc and `entries`
abbrev pub fresh_cell : List DirEntry → DirCell
fresh_cell entries = record { entries = entries; subdirs = none }

-- the handle before anything is cached, with the entries of the root directory
abbrev pub root_only : List DirEntry → DirTree
root_only entries = record {
  cells = λ d. fresh_cell (if d == root_dir then entries else []);
  used = 1;
}

unfoldable pub set_cell : DirTree → ℕ → DirCell → DirTree
set_cell t d cell = record t { cells = λ e. if e == d then cell else t.cells e }

-- `subdirs[index]`
unfoldable pub pointer_in : Option (ℕ → Option ℕ) → ℕ → Option ℕ
pointer_in none index = none
pointer_in (some subdirs) index = subdirs index

unfoldable pub set_pointer : Option (ℕ → Option ℕ) → ℕ → ℕ → ℕ → Option ℕ
set_pointer subdirs index d i = if i == index then some d else pointer_in subdirs i

-- `dir->subdirs` after the array has been allocated: the one that is there, or one of NULLs
unfoldable pub with_array : DirTree → ℕ → DirTree
with_array t d = elim (t.cells d).subdirs [
  | none ↦ set_cell t d (record (t.cells d) { subdirs = some (λ i. none) })
  | some subdirs ↦ t
]

-- A new directory, put into its slot.
unfoldable pub publish : DirTree → ℕ → ℕ → List DirEntry → DirTree
publish t d index entries =
    let added = record (set_cell t t.used (fresh_cell entries)) { used = t.used + 1 } in
    set_cell added d
      (record (t.cells d) { subdirs = some (set_pointer (t.cells d).subdirs index t.used) })

-- the subdirectory that was read, if it was
unfoldable pub keep_subdir : DirTree → ℕ → ℕ → Bool × List DirEntry → Option ℕ × DirTree
keep_subdir t d index (false, entries) = (none, t)
keep_subdir t d index (true, entries) = (some t.used, publish t d index entries)

-- the part of `_cache_subdir` behind the allocation of the array
unfoldable pub load_subdir : UdfFs → ℕ → DirTree → ℕ → ℕ → DirEntry → Mem (Option ℕ × DirTree)
load_subdir fs fuel t d index fi = elim (pointer_in (t.cells d).subdirs index) [
  | some c ↦ done (some c, t)
  | none ↦ do r ← udf_read_dir fs fuel fi.icb []; done (keep_subdir t d index r)
]

abbrev pub is_dir : DirEntry → Bool
is_dir fi = if bit_and fi.characteristic char_flag_dir == 0 then false else true

-- `_cache_subdir` for entry `index` of directory `d`; `none` is NULL. `fuel` is for the file entry
-- of the subdirectory.
unfoldable pub cache_subdir : UdfFs → ℕ → DirTree → ℕ → ℕ → Mem (Option ℕ × DirTree)
cache_subdir fs fuel t d index = elim (file_at (t.cells d).entries index) [
  | none ↦ fault
  | some fi ↦ if is_dir fi then load_subdir fs fuel (with_array t d) d index fi else done (none, t)
]
