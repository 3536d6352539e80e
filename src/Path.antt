-- ===== src/Path.antt =====
-- Path lookup of src/udfread.c: `_find_file`, `udfread_opendir`, `udfread_opendir_at`,
-- `udfread_file_open` and `udfread_file_openat`. Paths are C strings without their final 0.
-- Allocation is taken to succeed.
pub mod Files
pub mod Lookup
pub mod Open
pub mod Safety
pub mod Tokens
use libudfread.Common.{
  ℕ, zero, suc, ◌+◌, ◌==◌, ◌||◌, ◌&&◌, if◌then◌else◌, not, Bool, true, false, List, [], ◌∷◌, ◌++◌,
  Option, none, some,
}
use libudfread.Memory.{Mem, fault, done, ◌>>=◌, zeros}
use libudfread.Ecma
use libudfread.FileEntry.{FileEntry}
use libudfread.Fs.{UdfFs, udf_read_file_entry}
use libudfread.Fs.Dir.{DirEntry}
use libudfread.Directory.{UdfDir, file_at, scan_dir}
use libudfread.Stream.{UdfFile}
use libudfread.Tree.{DirTree, root_dir, is_dir, cache_subdir}

-- the delimiters '/' and '\\'
unfoldable pub is_separator : ℕ → Bool
is_separator ch = ch == b'/' || ch == 0x5c

-- a token that has ended, unless it is empty
unfoldable pub add_token : List ℕ → List (List ℕ) → List (List ℕ)
add_token [] rest = rest
add_token (ch ∷ token) rest = (ch ∷ token) ∷ rest

-- The tokens that calls of strtok_r give, behind the characters `token` of the first one.
unfoldable pub tokens_from : List ℕ → List ℕ → List (List ℕ)
tokens_from token [] = add_token token []
tokens_from token (ch ∷ path) =
    let rest = tokens_from (if is_separator ch then [] else token ++ (ch ∷ [])) path in
    if is_separator ch then add_token token rest else rest

unfoldable pub tokens : List ℕ → List (List ℕ)
tokens = tokens_from []

-- What `_find_file` stores at `p_dir` (`none` is NULL) and `p_fid`.
pub record Target : Type 0 where
  pub dir : Option ℕ
  pub fid : Option DirEntry

-- An entry that is no directory must be the last of the path.
unfoldable pub found_file : DirEntry → List (List ℕ) → Option Target
found_file fi [] = some (record { dir = none; fid = some fi })
found_file fi (token ∷ rest) = none

-- The loop of `_find_file` from directory `d` on; `none` is -1.
unfoldable pub find_tokens :
    UdfFs → ℕ → DirTree → ℕ → Option DirEntry → List (List ℕ) → Mem (Option Target × DirTree)
find_tokens fs fuel t d fid [] = done (some (record { dir = some d; fid = fid }), t)
find_tokens fs fuel t d fid (token ∷ rest) = elim (scan_dir (t.cells d).entries token) [
  | none ↦ done (none, t)
  | some index ↦ elim (file_at (t.cells d).entries index) [
    | none ↦ fault
    | some fi ↦ elim (is_dir fi) [
      | false ↦ done (found_file fi rest, t)
      | true ↦ do
        r ← cache_subdir fs fuel t d index
        elim r.0 [ none ↦ done (none, r.1) | some c ↦ find_tokens fs fuel r.1 c (some fi) rest ]
    ]
  ]
]

-- `_find_file` from the root directory.
unfoldable pub find_file : UdfFs → ℕ → DirTree → List ℕ → Mem (Option Target × DirTree)
find_file fs fuel t path = find_tokens fs fuel t root_dir none (tokens path)

-- a stream on directory `d`; `none` is NULL
unfoldable pub new_udfdir : DirTree → Option ℕ → Option UdfDir
new_udfdir t none = none
new_udfdir t (some d) = some (record { dir = d; files = (t.cells d).entries; current_file = 0 })

unfoldable pub stream_of : Option Target × DirTree → Option UdfDir × DirTree
stream_of (none, t) = (none, t)
stream_of (some found, t) = (new_udfdir t found.dir, t)

-- An empty path is refused.
unfoldable pub udfread_opendir : UdfFs → ℕ → DirTree → List ℕ → Mem (Option UdfDir × DirTree)
udfread_opendir fs fuel t [] = done (none, t)
udfread_opendir fs fuel t (ch ∷ path) = do r ← find_file fs fuel t (ch ∷ path); done (stream_of r)

unfoldable pub udfread_opendir_at :
    UdfFs → ℕ → DirTree → UdfDir → List ℕ → Mem (Option UdfDir × DirTree)
udfread_opendir_at fs fuel t p [] = done (none, t)
udfread_opendir_at fs fuel t p (ch ∷ name) = elim (scan_dir p.files (ch ∷ name)) [
  | none ↦ done (none, t)
  | some index ↦ do r ← cache_subdir fs fuel t p.dir index; done (new_udfdir r.1 r.0, r.1)
]

-- A file that is open, at its start; nothing is in its block buffer.
unfoldable pub new_file : Option FileEntry → Option UdfFile
new_file none = none
new_file (some fe) =
    some (record { fe = fe; pos = 0; block = zeros Ecma.block_size; block_valid = false })

-- `_file_open`; `none` is NULL
unfoldable pub file_open : UdfFs → ℕ → DirEntry → Mem (Option UdfFile)
file_open fs fuel fi =
    if is_dir fi then done none else do fe ← udf_read_file_entry fs fuel fi.icb; done (new_file fe)

-- The search of `udfread_file_open` has `p_fid`, so that a path with no token fails.
unfoldable pub open_found : UdfFs → ℕ → Option Target → Mem (Option UdfFile)
open_found fs fuel none = done none
open_found fs fuel (some found) = elim found.fid [
  | none ↦ done none
  | some fi ↦ file_open fs fuel fi
]

unfoldable pub udfread_file_open : UdfFs → ℕ → DirTree → List ℕ → Mem (Option UdfFile × DirTree)
udfread_file_open fs fuel t path = do
  r ← find_file fs fuel t path
  file ← open_found fs fuel r.0
  done (file, r.1)

unfoldable pub udfread_file_openat : UdfFs → ℕ → UdfDir → List ℕ → Mem (Option UdfFile)
udfread_file_openat fs fuel p [] = done none
udfread_file_openat fs fuel p (ch ∷ name) = elim (scan_dir p.files (ch ∷ name)) [
  | none ↦ done none
  | some index ↦ elim (file_at p.files index) [ none ↦ fault | some fi ↦ file_open fs fuel fi ]
]
