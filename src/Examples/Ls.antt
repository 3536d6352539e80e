-- ===== src/Examples/Ls.antt =====
-- examples/udfls.c: `_lsdir_at`, which lists a directory and all that is below it.
pub mod Cycle
pub mod Lists
pub mod Main
pub mod Prints
pub mod Program
pub mod Safety
use libudfread.Common.{
  ℕ, zero, suc, ◌||◌, Bool, true, false, List, [], ◌∷◌, ◌++◌, Option, none, some,
}
use libudfread.Common.Int.{ℤ}
use libudfread.Memory.{Mem, fault, running, done, ◌>>=◌}
use libudfread.Fs.{UdfFs}
use libudfread.Directory.{UdfDir, Dirent, DirentType, dt_dir, dt_reg, same_name, udfread_readdir}
use libudfread.Stream.{UdfFile, udfread_file_size}
use libudfread.Tree.{DirTree}
use libudfread.Path.{udfread_opendir_at, udfread_file_openat}

-- The lines that it prints: a directory or a file, with the path in front of its name, and the
-- errors.
pub data Line : Type 0 where
  dir_line : List ℕ → List ℕ → Line
  file_line : ℤ → List ℕ → List ℕ → Line
  no_dir : List ℕ → Line
  no_file : List ℕ → List ℕ → Line

-- `!strcmp(name, ".") || !strcmp(name, "..")`
unfoldable pub is_dot : List ℕ → Bool
is_dot name = same_name name (b'.' ∷ []) || same_name name (b'.' ∷ b'.' ∷ [])

-- sprintf(next_dir, "%s%s/", path, name)
abbrev pub next_dir : List ℕ → List ℕ → List ℕ
next_dir path name = path ++ name ++ (b'/' ∷ [])

unfoldable pub line_of : Option UdfFile → List ℕ → List ℕ → Line
line_of none path name = no_file path name
line_of (some file) path name = file_line (udfread_file_size file) path name

-- The listing of a stream, with the path in front of the names, and the cache behind it.
abbrev pub Lister : Type 0
Lister = DirTree → UdfDir → List ℕ → Mem (List Line × DirTree)

-- The part behind udfread_opendir_at: the child is listed, then the rest of `dir`.
unfoldable pub list_child :
    Lister → UdfDir → List ℕ → List ℕ → Option UdfDir × DirTree → Mem (List Line × DirTree)
list_child list dir path name (none, t) = do
  rest ← list t dir path
  done (dir_line path name ∷ no_dir name ∷ rest.0, rest.1)
list_child list dir path name (some child, t) = do
  below ← list t child (next_dir path name)
  rest ← list below.1 dir path
  done (dir_line path name ∷ (below.0 ++ rest.0), rest.1)

unfoldable pub list_entry :
    UdfFs → ℕ → Lister → DirTree → UdfDir → List ℕ → List ℕ → DirentType → Mem (List Line × DirTree)
list_entry fs fuel list t dir path name dt_dir = do
  r ← udfread_opendir_at fs fuel t dir name
  list_child list dir path name r
list_entry fs fuel list t dir path name dt_reg = do
  file ← udfread_file_openat fs fuel dir name
  rest ← list t dir path
  done (line_of file path name ∷ rest.0, rest.1)

-- A round: what udfread_readdir has returned.
unfoldable pub list_next :
    UdfFs → ℕ → Lister → DirTree → List ℕ → Option Dirent × UdfDir → Mem (List Line × DirTree)
list_next fs fuel list t path (none, dir) = done ([], t)
list_next fs fuel list t path (some dirent, dir) = elim (is_dot dirent.d_name) [
  | true ↦ list t dir path
  | false ↦ list_entry fs fuel list t dir path dirent.d_name dirent.d_type
]

-- `rounds` is for the rounds of the loop and the depth. Allocation is taken to succeed.
unfoldable pub lsdir_at : UdfFs → ℕ → ℕ → Lister
lsdir_at fs fuel zero t dir path = running
lsdir_at fs fuel (suc rounds) t dir path =
    list_next fs fuel (lsdir_at fs fuel rounds) t path (udfread_readdir dir)
