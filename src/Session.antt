-- ===== src/Session.antt =====
-- A program that uses the interface of src/udfread.h on one handle: its calls in any order, with
-- the handles of directories and files that they return in its variables.
pub mod Calls
pub mod Keeps
pub mod Runs
pub mod State
pub mod Steps
use libudfread.Common.{ℕ, ◌==◌, if◌then◌else◌, Bool, List, [], ◌∷◌, Option, none, some}
use libudfread.Common.Int.{ℤ}
use libudfread.Memory.{Heap, Buf, Mem, fault, running, done, ◌>>=◌}
use libudfread.Input.{BlockInput}
use libudfread.Fs.{UdfFs}
use libudfread.Directory.{UdfDir, udfread_readdir, udfread_rewinddir}
use libudfread.File.{Disc, udfread_read_blocks}
use libudfread.Stream.{UdfFile, udfread_file_read, udfread_file_seek}
use libudfread.Tree.{DirTree}
use libudfread.Path.{udfread_opendir, udfread_opendir_at, udfread_file_open, udfread_file_openat}
use libudfread.Handle.{
  Udfread, udfread_init, udfread_set_log, udfread_set_log_level, udfread_select_partition, fs_of,
  disc_of, udfread_open_input, udfread_open, udfread_get_volume_set_id,
}

-- The handle and the variables; `none` is NULL.
pub record Session : Type 0 where
  pub udf : Udfread
  pub dirs : ℕ → Option UdfDir
  pub files : ℕ → Option UdfFile

-- A call, on variables, with its arguments; the first variable of an open gets the result.
pub data Call : Type 0 where
  set_log : ℕ → Option ℕ → Call
  set_log_level : ℤ → Call
  select_partition : ℤ → Call
  open_input : BlockInput → Call
  open_path : List ℕ → Call
  get_volume_set_id : Buf → ℕ → Call
  opendir : ℕ → List ℕ → Call
  opendir_at : ℕ → ℕ → List ℕ → Call
  readdir : ℕ → Call
  rewinddir : ℕ → Call
  closedir : ℕ → Call
  open_file : ℕ → List ℕ → Call
  open_file_at : ℕ → ℕ → List ℕ → Call
  file_read : ℕ → Buf → ℕ → Call
  file_seek : ℕ → ℤ → ℕ → Call
  read_file_blocks : ℕ → Buf → ℕ → ℕ → ℕ → Call
  file_close : ℕ → Call

-- a variable with a new value
abbrev pub assign : {A : Type 0} → (ℕ → Option A) → ℕ → Option A → ℕ → Option A
assign vars v value w = if w == v then value else vars w

abbrev pub set_udf : Session → Udfread → Session
set_udf s udf = record s { udf = udf }

abbrev pub set_dir : Session → ℕ → Option UdfDir → Session
set_dir s v dir = record s { dirs = assign s.dirs v dir }

abbrev pub set_file : Session → ℕ → Option UdfFile → Session
set_file s v file = record s { files = assign s.files v file }

abbrev pub with_root : Session → DirTree → Session
with_root s t = record s { udf = record s.udf { root = t } }

-- a handle of a directory or a file that was opened, and the cache
abbrev pub opened_dir : Session → ℕ → Option UdfDir × DirTree → Session
opened_dir s v r = set_dir (with_root s r.1) v r.0

abbrev pub opened_file : Session → ℕ → Option UdfFile × DirTree → Session
opened_file s v r = set_file (with_root s r.1) v r.0

-- A call on a directory or a file: its handle is open, unless the variable has NULL.
unfoldable pub on_dir :
    Session → ℕ → Mem Session → (BlockInput → UdfDir → Mem Session) → Mem Session
on_dir s w null call = elim (s.dirs w) [
  | none ↦ null
  | some p ↦ elim s.udf.input [ none ↦ fault | some input ↦ call input p ]
]

unfoldable pub on_file : Session → ℕ → (BlockInput → UdfFile → Mem Session) → Mem Session
on_file s w call = elim (s.files w) [
  | none ↦ done s
  | some p ↦ elim s.udf.input [ none ↦ fault | some input ↦ call input p ]
]

module _ (block_input_new : List ℕ → Option BlockInput) (fuel : ℕ) where
  -- A call by a path; on a handle that is not open it returns NULL.
  unfoldable pub call_opendir : Session → ℕ → List ℕ → Mem Session
  call_opendir s v path = elim s.udf.input [
    | none ↦ done (set_dir s v none)
    | some input ↦ do
      r ← udfread_opendir (fs_of s.udf input) fuel s.udf.root path
      done (opened_dir s v r)
  ]

  unfoldable pub call_file_open : Session → ℕ → List ℕ → Mem Session
  call_file_open s v path = elim s.udf.input [
    | none ↦ done (set_file s v none)
    | some input ↦ do
      r ← udfread_file_open (fs_of s.udf input) fuel s.udf.root path
      done (opened_file s v r)
  ]

  unfoldable pub step : Session → Call → Mem Session
  step s (set_log ctx logger) = done (set_udf s (udfread_set_log s.udf ctx logger).1)
  step s (set_log_level level) = done (set_udf s (udfread_set_log_level s.udf level).1)
  step s (select_partition partition) =
      done (set_udf s (udfread_select_partition s.udf partition).1)
  step s (open_input input) = do r ← udfread_open_input fuel s.udf input; done (set_udf s r.1)
  step s (open_path path) = do
    o ← udfread_open block_input_new fuel s.udf path
    done (set_udf s o.udf)
  step s (get_volume_set_id buffer size) = do
    r ← udfread_get_volume_set_id s.udf buffer size
    done s
  step s (opendir v path) = call_opendir s v path
  step s (opendir_at v w name) = on_dir s w (done (set_dir s v none)) (λ input p. do
    r ← udfread_opendir_at (fs_of s.udf input) fuel s.udf.root p name
    done (opened_dir s v r))
  step s (readdir w) =
      on_dir s w (done s) (λ input p. done (set_dir s w (some (udfread_readdir p).1)))
  step s (rewinddir w) =
      on_dir s w (done s) (λ input p. done (set_dir s w (some (udfread_rewinddir p))))
  step s (closedir w) = done (set_dir s w none)
  step s (open_file v path) = call_file_open s v path
  step s (open_file_at v w name) = on_dir s w (done (set_file s v none)) (λ input p. do
    file ← udfread_file_openat (fs_of s.udf input) fuel p name
    done (set_file s v file))
  step s (file_read w buf bytes) = on_file s w (λ input p. do
    r ← udfread_file_read (disc_of s.udf input) fuel p buf bytes
    done (set_file s w (some r.1)))
  step s (file_seek w offset whence) =
      on_file s w
        (λ input p. do r ← udfread_file_seek p offset whence; done (set_file s w (some r.1)))
  step s (read_file_blocks w buf file_block num_blocks flags) = on_file s w (λ input p. do
    r ← udfread_read_blocks (disc_of s.udf input) p.fe buf 0 file_block num_blocks flags
    done s)
  step s (file_close w) = done (set_file s w none)

-- a new handle, and no variable set
unfoldable pub new_session : Heap → Bool → Bool → Session
new_session heap trace log = record {
  udf = udfread_init heap trace log;
  dirs = λ v. none;
  files = λ v. none;
}
