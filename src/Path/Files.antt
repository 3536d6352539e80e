-- ===== src/Path/Files.antt =====
-- `udfread_file_open` and `udfread_file_openat` of src/udfread.c on any disc.
use libudfread.Common.{
  ℕ, refl, arith, List, [], ◌∷◌, All, Option, none, some, Bool-cases, Option-cases, inl, inr,
}
use libudfread.Memory.{Safe, done}
use libudfread.Memory.Words.{Safe-bind}
use libudfread.FileEntry.{FileEntry}
use libudfread.Fs.{UdfFs, udf_read_file_entry}
use libudfread.Fs.Dir.{DirEntry}
use libudfread.Fs.Extents.{udf_read_file_entry-Safe}
use libudfread.Fs.Listing.{IsListed}
use libudfread.Directory.{UdfDir, scan_dir}
use libudfread.Stream.Safety.{IsFileState}
use libudfread.Tree.{DirTree, root_dir, is_dir}
use libudfread.Tree.Reading.{IsTree}
use libudfread.Path.{
  Target, find_file, new_file, file_open, open_found, udfread_file_open, udfread_file_openat,
}
use libudfread.Path.Lookup.{named_at}
use libudfread.Path.Safety.{Every, IsFound, IsDirState, IsSafeOpen, find_file-Safe, IsListed-at}

new_file-IsFileState : (fe : Option FileEntry) → Every IsFileState (new_file fe)
unfolding new_file
new_file-IsFileState none = tt
new_file-IsFileState (some fe) = record { room = refl; in_range = omega arith }

module _ (fs : UdfFs) (fuel : ℕ) where
  file_open-Safe : (fi : DirEntry) → IsListed fi → Safe (Every IsFileState) (file_open fs fuel fi)
  unfolding file_open
  file_open-Safe fi h = elim (Bool-cases (is_dir fi)) [
    | inl dir ↦ rw dir tt
    | inr file ↦ rw file (
        Safe-bind _ (udf_read_file_entry fs fuel fi.icb) _
          (udf_read_file_entry-Safe fs fuel fi.icb (omega (arith, h.2.0)) h.2.3)
          (λ fe k. new_file-IsFileState fe))
  ]

  found_fid-Safe :
      (fid : Option DirEntry)
      → Every IsListed fid
      → Safe (Every IsFileState) (elim fid [ none ↦ done none | some fi ↦ file_open fs fuel fi ])
  found_fid-Safe none h = tt
  found_fid-Safe (some fi) h = file_open-Safe fi h

  open_found-Safe :
      (u : DirTree) (found : Option Target)
      → IsFound u found
      → Safe (Every IsFileState) (open_found fs fuel found)
  unfolding open_found
  open_found-Safe u none h = tt
  open_found-Safe u (some found) h = found_fid-Safe found.fid h.1

  pub udfread_file_open-Safe :
      (t : DirTree) (path : List ℕ)
      → IsTree fs fuel t
      → All IsListed (t.cells root_dir).entries
      → Safe (IsSafeOpen fs fuel (λ u p. IsFileState p) t) (udfread_file_open fs fuel t path)
  unfolding udfread_file_open
  udfread_file_open-Safe t path h listed =
      Safe-bind _ (find_file fs fuel t path) _ (find_file-Safe fs fuel t path h listed) (λ r k.
        Safe-bind _ (open_found fs fuel r.0) _ (open_found-Safe r.1 r.0 k.2)
          (λ file l. (k.0, k.1, l)))

  pub udfread_file_openat-Safe :
      (t : DirTree) (p : UdfDir) (name : List ℕ)
      → IsDirState t p
      → Safe (Every IsFileState) (udfread_file_openat fs fuel p name)
  unfolding udfread_file_openat
  udfread_file_openat-Safe t p [] k = tt
  udfread_file_openat-Safe t p (ch ∷ name) k = elim (Option-cases (scan_dir p.files (ch ∷ name))) [
    | inl missing ↦ rw (missing, udfread_file_openat) tt
    | inr (i, found) ↦
        let (fi, at, same) = named_at p.files (ch ∷ name) i found in
        rw (found, at, udfread_file_openat) (file_open-Safe fi (IsListed-at p.files i fi k.2 at))
  ]
