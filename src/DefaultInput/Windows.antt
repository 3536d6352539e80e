-- ===== src/DefaultInput/Windows.antt =====
-- `pread` and `_open_win32` on Windows in src/default_blockinput.c, over the functions of
-- that system.
use libudfread.Common.{ℕ, ◌/◌, ◌%◌, ◌^◌, if◌then◌else◌, Bool, true, false, List, Option, none, some}
use libudfread.Common.Int.{ℤ, pos, leb_ℤ}
use libudfread.DefaultInput.{Pread, stored, interrupted, broken, OpenFile}

-- What the system has for the file: a handle, if `_get_osfhandle` gives one, and by call what
-- `ReadFile` answers for a number of bytes and the two halves of an offset: how many bytes it has
-- read, with the bytes, or a failure. The number of bytes is a DWORD. `stale` is whether errno is
-- EINTR at a call, from something earlier: nothing in `pread` sets errno.
pub record WindowsFile : Type 0 where
  pub handle : Option ℕ
  pub read_file : ℕ → ℕ → ℕ → ℕ → ℕ → Option (ℕ × (ℕ → ℕ))
  pub stale : ℕ → Bool

-- -1, with the errno that is there
unfoldable pub minus_one : Bool → Pread
minus_one true = interrupted
minus_one false = broken

unfoldable pub answer_of : Bool → Option (ℕ × (ℕ → ℕ)) → Pread
answer_of stale none = minus_one stale
answer_of stale (some (got, content)) = stored got content

-- `count` is converted to a DWORD, and so is the low half of the offset; its high half fits one,
-- since an off_t has 64 bits.
unfoldable pub pread_win32 : WindowsFile → ℕ → ℕ → ℕ → Pread
pread_win32 file call offset count = elim file.handle [
  | none ↦ minus_one (file.stale call)
  | some handle ↦
      answer_of (file.stale call)
        (file.read_file call handle (count % 2 ^ 32) (offset % 2 ^ 32) (offset / 2 ^ 32))
]

abbrev pub windows_file : WindowsFile → Option ℕ → OpenFile
windows_file file end = record { pread = pread_win32 file; end = end }

-- What the system has for paths: the length of a path in wide characters (below 1 is an error), its
-- conversion into an array of that length, and `_wopen`.
pub record WindowsPaths : Type 0 where
  pub wide_length : List ℕ → ℤ
  pub to_wide : List ℕ → ℤ → Option (List ℕ)
  pub wopen : List ℕ → Option ℕ

-- `_open_win32`: `none` is -1; malloc is taken to succeed.
unfoldable pub open_win32 : WindowsPaths → List ℕ → Option ℕ
open_win32 system path =
    if leb_ℤ (system.wide_length path) (pos 0)
    then none
    else elim (system.to_wide path (system.wide_length path)) [
      | none ↦ none
      | some wpath ↦ system.wopen wpath
    ]
