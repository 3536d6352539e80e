-- ===== src/Session/State.antt =====
-- What holds between any two calls of a program, and what it must keep to.
use libudfread.Common.{ℕ, ◌*◌, ◌-◌, ◌^◌, ◌≤◌, ◌<◌, ◌≡◌, ◌&&◌, true, All, none, some}
use libudfread.Common.Int.{ℤ, pos, negsuc, ◌+ℤ◌, leb_ℤ}
use libudfread.Input.{BlockInput}
use libudfread.Directory.{UdfDir}
use libudfread.Fs.Listing.{IsListed}
use libudfread.Stream.{UdfFile, udfread_file_tell, udfread_file_size, seek_cur, seek_end}
use libudfread.File.Safety.{IsModest}
use libudfread.Stream.Safety.{IsFileState}
use libudfread.Tree.Reading.{IsTree}
use libudfread.Handle.{fs_of, root_entries}
use libudfread.Handle.Opening.{IsHandle}
use libudfread.Path.Safety.{IsDirState}
use libudfread.Session.{
  Session, Call, set_log, set_log_level, select_partition, open_input, open_path, get_volume_set_id,
  opendir, opendir_at, readdir, rewinddir, closedir, open_file, open_file_at, file_read, file_seek,
  read_file_blocks, file_close,
}

-- a number that an int64_t holds
abbrev pub IsInt64 : ℤ → Type 0
IsInt64 n = (leb_ℤ (negsuc (2 ^ 63 - 1)) n && leb_ℤ n (pos (2 ^ 63 - 1))) ≡ true

-- The sizes that a program may read from: udfread_file_size gives 0 to 2 ^ 63 - 2048.
abbrev pub IsCountable : UdfFile → Type 0
IsCountable p = p.fe.length < 2 ^ 63 - 2048

-- A seek whose sum does not overflow.
abbrev pub IsSeekable : ℤ → ℕ → UdfFile → Type 0
IsSeekable offset whence p =
    IsInt64 offset
    × (whence ≡ seek_cur → IsInt64 (udfread_file_tell p +ℤ offset))
    × (whence ≡ seek_end → IsInt64 (udfread_file_size p +ℤ offset))

-- What the variable holds, if it is not NULL.
abbrev pub Holding : (UdfFile → Type 0) → Session → ℕ → Type 0
Holding P s w = (p : UdfFile) → s.files w ≡ some p → P p

-- What a program must keep to in a call: it has the room that it says, its inputs do not say that
-- they have read more than they were asked for, it reads from no file of 2 ^ 63 - 2048 bytes or
-- more, and the sums of its seeks do not overflow.
abbrev pub IsAllowed : Session → Call → Type 0
IsAllowed s (set_log ctx logger) = Unit
IsAllowed s (set_log_level level) = Unit
IsAllowed s (select_partition partition) = Unit
IsAllowed s (open_input input) = IsModest input
IsAllowed s (open_path path) = Unit
IsAllowed s (get_volume_set_id buffer size) = size ≤ buffer.len
IsAllowed s (opendir v path) = Unit
IsAllowed s (opendir_at v w name) = Unit
IsAllowed s (readdir w) = Unit
IsAllowed s (rewinddir w) = Unit
IsAllowed s (closedir w) = Unit
IsAllowed s (open_file v path) = Unit
IsAllowed s (open_file_at v w name) = Unit
IsAllowed s (file_read w buf bytes) = (bytes ≤ buf.len) × Holding IsCountable s w
IsAllowed s (file_seek w offset whence) = Holding (IsSeekable offset whence) s w
IsAllowed s (read_file_blocks w buf file_block num_blocks flags) =
    (num_blocks * 2048 ≤ buf.len) × Holding IsCountable s w
IsAllowed s (file_close w) = Unit

module _ (fuel : ℕ) where
  -- The invariants of a session: those of the handle; the root directory lists entries in range;
  -- the cache of a handle that is open has what is on its disc; and a directory or file that is
  -- open is that of an open handle, with its own invariant.
  pub record IsSession (s : Session) : Type 0 where
    pub handle : IsHandle s.udf
    pub listed : All IsListed (root_entries s.udf)
    pub modest : (input : BlockInput) → s.udf.input ≡ some input → IsModest input
    pub cached :
        (input : BlockInput) → s.udf.input ≡ some input → IsTree (fs_of s.udf input) fuel s.udf.root
    pub streams :
        (v : ℕ) (p : UdfDir) → s.dirs v ≡ some p → IsDirState s.udf.root p × ¬ (s.udf.input ≡ none)
    pub opened : (v : ℕ) (p : UdfFile) → s.files v ≡ some p → IsFileState p × ¬ (s.udf.input ≡ none)
