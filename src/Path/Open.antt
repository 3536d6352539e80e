-- ===== src/Path/Open.antt =====
-- `udfread_opendir` and `udfread_file_open` of src/udfread.c: what they open is what the disc has
-- at the path, and a file that is open can be read from its start.
use libudfread.Common.{
  ℕ, ◌-◌, ◌^◌, ◌≤◌, ◌<◌, ◌≡◌, refl, sym, ◌∙◌, arith, false, List, ◌∷◌, Option, none, some, min,
  subst,
}
use libudfread.Memory.{Buf, Mem, Returns, fault, running, done, ◌>>=◌}
use libudfread.Memory.Agree.{Agrees, Agrees-bind, Agrees-Returns}
use libudfread.Ecma.{LongAd}
use libudfread.FileEntry.{FileEntry, ads}
use libudfread.Fs.{UdfFs, udf_read_file_entry}
use libudfread.Fs.Dir.{DirEntry}
use libudfread.Directory.{UdfDir}
use libudfread.File.{Disc}
use libudfread.File.Blocks.{IsReadable}
use libudfread.Stream.{UdfFile, udfread_file_read}
use libudfread.Stream.Chunk.{IsOpen}
use libudfread.Stream.Read.{HasRead, udfread_file_read_lem}
use libudfread.Tree.{DirTree, root_dir, is_dir}
use libudfread.Tree.Grows.{Grows}
use libudfread.Tree.Reading.{IsTree}
use libudfread.Path.{
  Target, find_file, tokens, new_udfdir, stream_of, udfread_opendir, new_file, file_open,
  open_found, udfread_file_open,
}
use libudfread.Path.Lookup.{Place, walk, IsAt, IsPlace, IsLookup, find_file-IsLookup}

-- the file that a place on the disc is, opened; `none` is NULL
unfoldable pub open_place : UdfFs → ℕ → Option Place → Mem (Option UdfFile)
open_place fs fuel none = done none
open_place fs fuel (some place) = elim place.fid [
  | none ↦ done none
  | some fi ↦ file_open fs fuel fi
]

-- A stream on the entries, at its start; NULL where there are none.
abbrev pub IsListing : Option UdfDir → Option (List DirEntry) → Type 0
IsListing stream none = stream ≡ none
IsListing stream (some entries) =
    (p : UdfDir) × (stream ≡ some p) × (p.files ≡ entries) × (p.current_file ≡ 0)

abbrev pub IsStream : Option UdfDir → Option Place → Type 0
IsStream stream none = IsListing stream none
IsStream stream (some place) = IsListing stream place.entries

module _ (fs : UdfFs) (fuel : ℕ) where
  -- An open has given what the disc has, and the cache has grown and still is what the disc has.
  abbrev pub IsOpened : {A B : Type 0} → (A → B → Type 0) → DirTree → A × DirTree → B → Type 0
  IsOpened R t r b = R r.0 b × Grows t r.1 × IsTree fs fuel r.1

  new_udfdir-IsListing :
      (u : DirTree) (d : Option ℕ) (entries : Option (List DirEntry))
      → IsAt u d entries
      → IsListing (new_udfdir u d) entries
  unfolding new_udfdir
  new_udfdir-IsListing u none none at = refl
  new_udfdir-IsListing u none (some entries) at = absurd at
  new_udfdir-IsListing u (some d) none at = absurd at
  new_udfdir-IsListing u (some d) (some entries) (lt, e) = (_, refl, e, refl)

  stream_of-IsStream :
      (t : DirTree) (r : Option Target × DirTree) (place : Option Place)
      → IsLookup fs fuel t r place
      → IsOpened IsStream t (stream_of r) place
  unfolding stream_of new_udfdir
  stream_of-IsStream t (none, u) none (g, h, at) = (refl, g, h)
  stream_of-IsStream t (none, u) (some place) (g, h, at) = absurd at
  stream_of-IsStream t (some found, u) none (g, h, at) = absurd at
  stream_of-IsStream t (some found, u) (some place) (g, h, (same, at)) =
      (new_udfdir-IsListing u found.dir place.entries at, g, h)

  -- `udfread_opendir` of a path that is not empty opens the directory that a walk over the disc
  -- finds there, with its entries as they are on the disc and read from the first on. It returns
  -- NULL where the walk finds nothing or a file. It does not matter which part of the disc is in
  -- the cache, and it stays a cache of the disc.
  pub udfread_opendir_lem :
      (t : DirTree) (ch : ℕ) (path : List ℕ)
      → IsTree fs fuel t
      → Agrees
          (IsOpened IsStream t)
          (udfread_opendir fs fuel t (ch ∷ path))
          (walk fs fuel (t.cells root_dir).entries none (tokens (ch ∷ path)))
  unfolding udfread_opendir
  udfread_opendir_lem t ch path h =
      rw (sym (bind_done (walk fs fuel (t.cells root_dir).entries none (tokens (ch ∷ path))))) (
        Agrees-bind (IsOpened IsStream t) (find_file fs fuel t (ch ∷ path)) _ _ _
          (find_file-IsLookup fs fuel t (ch ∷ path) h)
          (λ r place k. stream_of-IsStream t r place k))
    where
      bind_done : {A : Type 0} (m : Mem A) → m >>= (λ a. done a) ≡ m
      bind_done fault = refl
      bind_done running = refl
      bind_done (done a) = refl

  open_found_place :
      (t : DirTree) (found : Option Target) (place : Option Place)
      → IsPlace t found place
      → open_found fs fuel found ≡ open_place fs fuel place
  unfolding open_found open_place
  open_found_place t none none h = refl
  open_found_place t none (some place) h = absurd h
  open_found_place t (some found) none h = absurd h
  open_found_place t (some found) (some place) (same, at) = rw same refl

  with_tree :
      (t u : DirTree) (m : Mem (Option UdfFile))
      → Grows t u
      → IsTree fs fuel u
      → Agrees (IsOpened ◌≡◌ t) (m >>= λ file. done (file, u)) m
  with_tree t u fault g h = tt
  with_tree t u running g h = tt
  with_tree t u (done file) g h = (refl, g, h)

  -- `udfread_file_open` opens the file that a walk over the disc finds at the path: the result is
  -- that of reading the file entry named there, and NULL where the walk finds nothing, the root or
  -- a directory. It does not matter which part of the disc is in the cache, and it
  -- stays a cache of the disc.
  pub udfread_file_open_lem :
      (t : DirTree) (path : List ℕ)
      → IsTree fs fuel t
      → Agrees (IsOpened ◌≡◌ t) (udfread_file_open fs fuel t path) (
          walk fs fuel (t.cells root_dir).entries none (tokens path) >>= λ place.
          open_place fs fuel place)
  unfolding udfread_file_open
  udfread_file_open_lem t path h =
      Agrees-bind (IsOpened ◌≡◌ t) (find_file fs fuel t path) _ _ _
        (find_file-IsLookup fs fuel t path h)
        (λ r place k.
          rw (sym (open_found_place r.1 r.0 place k.2))
            (with_tree t r.1 (open_found fs fuel r.0) k.0 k.1))

  -- A file that has just been opened can be read: nothing is in its block buffer.
  pub new_file-IsOpen :
      (disc : Disc) (image : ℕ → ℕ) (list : List LongAd) (size : ℕ) (fe : FileEntry)
      → fe.u ≡ ads list
      → fe.length ≡ size
      → (p : UdfFile) × (new_file (some fe) ≡ some p) × (p.pos ≡ 0) × IsOpen disc image list size p
  unfolding new_file
  new_file-IsOpen disc image list size fe u len = (
    _,
    refl,
    refl,
    record { content = u; length = len; room = refl; cached = λ ne v. absurd (ne (omega arith)) },
  )

  -- Where a path leads to a file whose entry can be read and says that its bytes are in extents,
  -- `udfread_file_open` gives a file, and a first `udfread_file_read` of less than 4 GiB ends and
  -- returns the file's bytes from its start on, as many as are wanted and there, unless the input
  -- fails.
  pub open_then_read :
      (t : DirTree) (path : List ℕ) (place : Place) (fi : DirEntry) (fe : FileEntry) (disc : Disc)
      (image : ℕ → ℕ) (list : List LongAd) (size : ℕ) (buf : Buf) (bytes rounds : ℕ)
      → IsTree fs fuel t
      → walk fs fuel (t.cells root_dir).entries none (tokens path) ≡ done (some place)
      → place.fid ≡ some fi
      → is_dir fi ≡ false
      → udf_read_file_entry fs fuel fi.icb ≡ done (some fe)
      → fe.u ≡ ads list
      → fe.length ≡ size
      → IsReadable disc image size list
      → size ≤ 2 ^ 43 - 2048
      → bytes < 2 ^ 32
      → bytes ≤ buf.len
      → bytes < rounds
      → Returns
          (λ r.
            (p : UdfFile) × (r.0 ≡ some p)
            × Returns
                (HasRead disc image list size 0 buf (min bytes size))
                (udfread_file_read disc rounds p buf bytes))
          (udfread_file_open fs fuel t path)
  unfolding open_place file_open
  open_then_read t path place fi fe disc image list size buf bytes rounds h found is_fi file read u
        len good small narrow inside enough =
      Agrees-Returns (IsOpened ◌≡◌ t) _ (udfread_file_open fs fuel t path) _ (new_file (some fe))
        (udfread_file_open_lem t path h) (rw (found, is_fi, file, read) refl)
        (λ r (same, g, tree).
          let (p, e, start, is_open) = new_file-IsOpen disc image list size fe u len in
          let whole : size - 0 ≡ size = omega arith in
          (
            p,
            same ∙ e,
            subst (λ n. ReadAs p 0 (min bytes n)) whole
                (subst (λ n. ReadAs p n (min bytes (size - n))) start
                  (udfread_file_read_lem disc image list size good small p buf bytes rounds is_open
                    narrow inside enough)),
          ))
    where
      ReadAs : UdfFile → ℕ → ℕ → Type 0
      ReadAs p start n =
          Returns (HasRead disc image list size start buf n)
            (udfread_file_read disc rounds p buf bytes)
