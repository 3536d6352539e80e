-- ===== src/Session/Steps.antt =====
-- Every call of src/udfread.h that a program is allowed keeps the invariants of its session, and
-- its end frees what the handle has.
use libudfread.Common.{ℕ, ◌≤◌, ◌≡◌, refl, arith, ltb, if◌then◌else◌, List, Option, none, some}
use libudfread.Memory.{Buf, Safe, done, ◌>>=◌, memcpy}
use libudfread.Memory.Words.{Safe-bind, Safe-bind_returns, Returns-bind}
use libudfread.Input.{BlockInput}
use libudfread.Volume.Sizes.{memcpy-Keeps}
use libudfread.Directory.{udfread_readdir, udfread_rewinddir}
use libudfread.File.{udfread_read_blocks}
use libudfread.Stream.{UdfFile, udfread_file_read, udfread_file_seek}
use libudfread.File.Safety.{IsModest, blocks-Safe}
use libudfread.Stream.Safety.{IsFileState, udfread_file_read-Safe}
use libudfread.Path.{udfread_opendir_at, udfread_file_openat}
use libudfread.Path.Safety.{Every, udfread_opendir_at-Safe}
use libudfread.Path.Files.{udfread_file_openat-Safe}
use libudfread.Handle.{fs_of, disc_of, udfread_open_input, udfread_open, udfread_get_volume_set_id}
use libudfread.Handle.Opening.{udfread_open_input-Safe}
use libudfread.Session.{
  Session, Call, set_log, set_log_level, select_partition, open_input, open_path, get_volume_set_id,
  opendir, opendir_at, readdir, rewinddir, closedir, open_file, open_file_at, file_read, file_seek,
  read_file_blocks, file_close, set_file, step,
}
use libudfread.Session.State.{IsAllowed, IsSession}
use libudfread.Session.Keeps.{
  set_dir-IsSession, set_file-IsSession, set_log-IsSession, set_log_level-IsSession,
  select_partition-IsSession, opening-IsSession,
}
use libudfread.Session.Calls.{
  seek-IsFileState, readdir-IsDirState, rewinddir-IsDirState, read-IsFileState, on_dir-Safe,
  on_file-Safe, opened_dir-IsSession, call_opendir-Safe, call_file_open-Safe, udfread_open-Safe,
}

module _ (block_input_new : List ℕ → Option BlockInput) (fuel : ℕ)
    (all_modest : (path : List ℕ) → Every IsModest (block_input_new path)) where
  volume_set_id-Safe :
      (s : Session) (buffer : Buf) (size : ℕ)
      → IsSession fuel s
      → size ≤ buffer.len
      → Safe (IsSession fuel) (udfread_get_volume_set_id s.udf buffer size >>= λ r. done s)
  unfolding udfread_get_volume_set_id
  volume_set_id-Safe s buffer size h room =
      let n =
        if ltb s.udf.volume_set_identifier.len size
        then s.udf.volume_set_identifier.len
        else size in
      Safe-bind_returns (IsSession fuel) (udfread_get_volume_set_id s.udf buffer size) _
        (Returns-bind (λ r. IsSession fuel s) (memcpy buffer s.udf.volume_set_identifier 0 n) _
          (memcpy-Keeps buffer s.udf.volume_set_identifier 0 n (ground arith) (ground arith))
          (λ b k. h))
        (λ r k. k)

  openat-IsSession :
      (s : Session) (v : ℕ) (file : Option UdfFile)
      → IsSession fuel s
      → ¬ (s.udf.input ≡ none)
      → Every IsFileState file
      → IsSession fuel (set_file s v file)
  openat-IsSession s v none h is_open k = set_file-IsSession fuel s v none h tt
  openat-IsSession s v (some p) h is_open k = set_file-IsSession fuel s v (some p) h (k, is_open)

  -- A call that a program is allowed, on a session in which the invariants hold, touches no memory outside
  -- its arrays and does nothing undefined, whatever is on the disc. If it ends, the invariants hold
  -- again.
  pub step-Safe :
      (s : Session) (call : Call)
      → IsSession fuel s
      → IsAllowed s call
      → Safe (IsSession fuel) (step block_input_new fuel s call)
  unfolding step
  step-Safe s (set_log ctx logger) h ok = set_log-IsSession fuel s ctx logger h
  step-Safe s (set_log_level level) h ok = set_log_level-IsSession fuel s level h
  step-Safe s (select_partition partition) h ok = select_partition-IsSession fuel s partition h
  step-Safe s (open_input input) h ok =
      Safe-bind _ (udfread_open_input fuel s.udf input) _
        (udfread_open_input-Safe fuel input s.udf h.handle)
        (λ r k. opening-IsSession fuel s input r h ok k)
  step-Safe s (open_path path) h ok =
      Safe-bind _ (udfread_open block_input_new fuel s.udf path) _
        (udfread_open-Safe fuel block_input_new all_modest s path h) (λ o k. k)
  step-Safe s (get_volume_set_id buffer size) h ok = volume_set_id-Safe s buffer size h ok
  step-Safe s (opendir v path) h ok = call_opendir-Safe fuel block_input_new all_modest s v path h
  step-Safe s (opendir_at v w name) h ok =
      on_dir-Safe fuel s w _ _ h (set_dir-IsSession fuel s v none h tt) (λ input p e k.
        Safe-bind _ (udfread_opendir_at (fs_of s.udf input) fuel s.udf.root p name) _
          (udfread_opendir_at-Safe (fs_of s.udf input) fuel s.udf.root p name (h.cached input e) k)
          (λ r l. opened_dir-IsSession fuel s v input r h e l))
  step-Safe s (readdir w) h ok = on_dir-Safe fuel s w _ _ h h (λ input p e k.
      set_dir-IsSession fuel s w (some (udfread_readdir p).1) h
        (readdir-IsDirState s.udf.root p k, λ closed. cc))
  step-Safe s (rewinddir w) h ok = on_dir-Safe fuel s w _ _ h h (λ input p e k.
      set_dir-IsSession fuel s w (some (udfread_rewinddir p)) h
        (rewinddir-IsDirState s.udf.root p k, λ closed. cc))
  step-Safe s (closedir w) h ok = set_dir-IsSession fuel s w none h tt
  step-Safe s (open_file v path) h ok =
      call_file_open-Safe fuel block_input_new all_modest s v path h
  step-Safe s (open_file_at v w name) h ok =
      on_dir-Safe fuel s w _ _ h (set_file-IsSession fuel s v none h tt) (λ input p e k.
        Safe-bind _ (udfread_file_openat (fs_of s.udf input) fuel p name) _
          (udfread_file_openat-Safe (fs_of s.udf input) fuel s.udf.root p name k)
          (λ file l. openat-IsSession s v file h (λ closed. cc) l))
  step-Safe s (file_read w buf bytes) h (room, countable) =
      on_file-Safe fuel s w _ h (λ input p e at k.
        Safe-bind _ (udfread_file_read (disc_of s.udf input) fuel p buf bytes) _
          (udfread_file_read-Safe (disc_of s.udf input) p.fe (countable p at) (h.modest input e)
            fuel p buf bytes k refl room)
          (λ r l. set_file-IsSession fuel s w (some r.1) h (
            read-IsFileState (disc_of s.udf input) p.fe (countable p at) (h.modest input e) buf.len
                bytes r l,
            λ closed. cc,
          )))
  step-Safe s (file_seek w offset whence) h ok = on_file-Safe fuel s w _ h (λ input p e at k.
      Safe-bind_returns _ (udfread_file_seek p offset whence) _
        (seek-IsFileState p k offset whence (ok p at))
        (λ r l. set_file-IsSession fuel s w (some r.1) h (l, λ closed. cc)))
  step-Safe s (read_file_blocks w buf file_block num_blocks flags) h (room, countable) =
      on_file-Safe fuel s w _ h (λ input p e at k.
        Safe-bind _
          (udfread_read_blocks (disc_of s.udf input) p.fe buf 0 file_block num_blocks flags) _
          (blocks-Safe (disc_of s.udf input) p.fe (countable p at) (h.modest input e) buf 0
            file_block num_blocks flags (omega arith))
          (λ r l. h))
  step-Safe s (file_close w) h ok = set_file-IsSession fuel s w none h tt
