-- ===== src/Directory.antt =====
-- Directory streams of src/udfread.c: udfread_readdir and udfread_rewinddir, and the search for a
-- name in a directory by _scan_dir. Names are C strings without their final 0.
pub mod Reading
use libudfread.Common.{
  ℕ, zero, suc, ◌+◌, ◌%◌, ◌^◌, ◌==◌, ◌&&◌, bit_and, not, if◌then◌else◌, Bool, true, false, List, [],
  ◌∷◌, Option, none, some,
}
use libudfread.Fs.Dir.{DirEntry, char_flag_parent}

-- `!strcmp(a, b)`
unfoldable pub same_name : List ℕ → List ℕ → Bool
same_name [] [] = true
same_name [] (y ∷ ys) = false
same_name (x ∷ xs) [] = false
same_name (x ∷ xs) (y ∷ ys) = x == y && same_name xs ys

-- the loop of `_scan_dir`, from index `i` on; `none` is -1
unfoldable pub scan_from : List DirEntry → List ℕ → ℕ → Option ℕ
scan_from [] filename i = none
scan_from (e ∷ files) filename i =
    if same_name filename e.filename then some i else scan_from files filename (i + 1)

unfoldable pub scan_dir : List DirEntry → List ℕ → Option ℕ
scan_dir files filename = scan_from files filename 0

-- `files[i]`, if `i < num_entries`
unfoldable pub file_at : List DirEntry → ℕ → Option DirEntry
file_at [] i = none
file_at (e ∷ files) zero = some e
file_at (e ∷ files) (suc i) = file_at files i

-- UDF_DT_DIR and UDF_DT_REG
pub data DirentType : Type 0 where
  dt_dir dt_reg : DirentType

pub record Dirent : Type 0 where
  pub d_type : DirentType
  pub d_name : List ℕ

-- CHAR_FLAG_DIR
abbrev pub char_flag_dir : ℕ
char_flag_dir = 2

unfoldable pub dirent_of : DirEntry → Dirent
dirent_of fi =
    if not (bit_and fi.characteristic char_flag_parent == 0)
    then record { d_type = dt_dir; d_name = b'.' ∷ b'.' ∷ [] }
    else if not (bit_and fi.characteristic char_flag_dir == 0)
    then record { d_type = dt_dir; d_name = fi.filename }
    else record { d_type = dt_reg; d_name = fi.filename }

-- struct udfread_dir: `dir`, and the entries there, which do not change once the directory is in
-- the cache
pub record UdfDir : Type 0 where
  pub dir : ℕ
  pub files : List DirEntry
  pub current_file : ℕ

unfoldable pub udfread_readdir : UdfDir → Option Dirent × UdfDir
udfread_readdir p = elim (file_at p.files p.current_file) [
  | none ↦ (none, p)
  | some fi ↦ (some (dirent_of fi), record p { current_file = (p.current_file + 1) % 2 ^ 32 })
]

unfoldable pub udfread_rewinddir : UdfDir → UdfDir
udfread_rewinddir p = record p { current_file = 0 }
