-- ===== src/Tests/Directories.antt =====
-- A directory of two entries, listed and searched.
use libudfread.Common.{◌≡◌, arith, List, [], ◌∷◌}
use libudfread.FileEntry.{zero_ad}
use libudfread.Fs.Dir.{DirEntry}
use libudfread.Directory.{dirent_of, dt_dir, dt_reg, UdfDir, udfread_rewinddir}
use libudfread.Directory.Reading.{read_all, readdir-rewinddir}

abbrev files : List DirEntry
files =
    record { filename = b'B' ∷ b'D' ∷ []; icb = zero_ad; characteristic = 2 }
    ∷ record { filename = b'A' ∷ []; icb = zero_ad; characteristic = 0 }
    ∷ []

-- a stream that has been read to its end
abbrev stream : UdfDir
stream = record { dir = 0; files = files; current_file = 2 }

readdir-rewinddir_example :
    read_all 3 (udfread_rewinddir stream)
    ≡ record { d_type = dt_dir; d_name = b'B' ∷ b'D' ∷ [] }
      ∷ record { d_type = dt_reg; d_name = b'A' ∷ [] }
      ∷ []
unfolding dirent_of
readdir-rewinddir_example = readdir-rewinddir stream (omega arith)
