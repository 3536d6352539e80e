-- ===== src/Examples/Cat/Program.antt =====
-- The program examples/udfcat.c behind udfread_open: a file is found by its path and written.
use libudfread.Common.{
  ℕ, ◌-◌, ◌^◌, ◌≤◌, ◌<◌, ◌≡◌, refl, ap, arith, false, List, [], ◌++◌, Option, none, some,
}
use libudfread.Common.Int.{pos}
use libudfread.Memory.{Buf, Returns, done}
use libudfread.Memory.Words.{Returns-bind}
use libudfread.Memory.Agree.{Agrees-Returns}
use libudfread.Input.{BlockInput}
use libudfread.Ecma.{LongAd}
use libudfread.FileEntry.{FileEntry, ads}
use libudfread.Fs.{UdfFs, udf_read_file_entry}
use libudfread.Fs.Dir.{DirEntry}
use libudfread.File.Blocks.{IsReadable}
use libudfread.Stream.{UdfFile}
use libudfread.Tree.{DirTree, root_dir, is_dir}
use libudfread.Tree.Reading.{IsTree}
use libudfread.Tree.Cleaning.{clean_tree}
use libudfread.Tree.Cleaning.Whole.{clean_tree_lem}
use libudfread.Path.{tokens, new_file, file_open, udfread_file_open}
use libudfread.Path.Lookup.{Place, walk}
use libudfread.Path.Open.{IsOpened, open_place, udfread_file_open_lem, new_file-IsOpen}
use libudfread.Handle.{Udfread, held, fs_of, disc_of, root_entries, udfread_close}
use libudfread.Examples.{Exit}
use libudfread.Examples.Cat.{Output, cat, exit_cat, cat_found, cat_path}
use libudfread.Examples.Cat.Writes.{HasCat, cat_lem}

-- The exit of udfcat with a file that was written, and with these inputs closed.
abbrev pub IsCatExit : (Output → Type 0) → List BlockInput → Exit (Option Output) → Type 0
IsCatExit P made e =
    (e.code ≡ pos 0) × (e.closed ≡ made) × ((o : Output) × (e.printed ≡ some o) × P o)

exit-IsCatExit :
    (P : Output → Type 0) (o : Output) (closed : List BlockInput) (udf : Udfread) (fs : UdfFs)
    (fuel : ℕ)
    → P o
    → IsTree fs fuel udf.root
    → Returns (IsCatExit P (closed ++ held udf)) (exit_cat (pos 0) (some o) closed udf)
unfolding exit_cat udfread_close
exit-IsCatExit P o closed udf fs fuel h tree =
    Returns-bind _ (udfread_close udf) _
      (Returns-bind (λ c. c.closed ≡ held udf)
        (clean_tree udf.root.used (record { tree = udf.root; freed = [] }) root_dir) _
        (clean_tree_lem udf.root fs fuel udf.root.used tree (omega arith)) (λ c k. refl))
      (λ c e. (refl, ap (λ l. closed ++ l) e, (o, refl, h)))

module _ (udf : Udfread) (input : BlockInput) (lookup : ℕ) (image : ℕ → ℕ) (list : List LongAd)
    (size : ℕ) where
  cat_found-IsCatExit :
      (rounds fuel : ℕ) (buf : Buf) (closed : List BlockInput) (fe : FileEntry)
      (file : Option UdfFile) (t : DirTree)
      → file ≡ new_file (some fe)
      → IsTree (fs_of udf input) lookup t
      → fe.u ≡ ads list
      → fe.length ≡ size
      → IsReadable (disc_of udf input) image size list
      → size ≤ 2 ^ 43 - 2048
      → buf.len ≡ 2048
      → 2048 < rounds
      → size < fuel
      → Returns
          (IsCatExit (HasCat (disc_of udf input) image list size) (closed ++ held udf))
          (cat_found rounds fuel buf (record udf { root = t }) input closed file)
  unfolding cat_found
  cat_found-IsCatExit rounds fuel buf closed fe file t same tree u len good small room hr hf =
      let (p, e, start, is_open) =
        new_file-IsOpen (fs_of udf input) lookup (disc_of udf input) image list size fe u len in
      rw (same, e, cat_found)
        (Returns-bind _ (cat (disc_of udf input) rounds fuel buf p) _
          (cat_lem (disc_of udf input) image list size good small rounds fuel buf p is_open start
            room hr hf)
          (λ o h.
            exit-IsCatExit (HasCat (disc_of udf input) image list size) o closed
              (record udf { root = t }) (fs_of udf input) lookup h tree))

  -- udfcat on a volume that is open, with a path that leads to a file whose entry can be read and
  -- says that its bytes, 8 TiB at most, are in extents on a disc that can be read: it ends with
  -- exit code 0, has closed the input, and has written the first bytes of the file to the standard
  -- output, all of them unless the input fails. It does not matter what is in the cache.
  pub cat_path_lem :
      (rounds fuel : ℕ) (buf : Buf) (closed : List BlockInput) (path : List ℕ) (place : Place)
      (fi : DirEntry) (fe : FileEntry)
      → udf.input ≡ some input
      → IsTree (fs_of udf input) lookup udf.root
      → walk (fs_of udf input) lookup (root_entries udf) none (tokens path) ≡ done (some place)
      → place.fid ≡ some fi
      → is_dir fi ≡ false
      → udf_read_file_entry (fs_of udf input) lookup fi.icb ≡ done (some fe)
      → fe.u ≡ ads list
      → fe.length ≡ size
      → IsReadable (disc_of udf input) image size list
      → size ≤ 2 ^ 43 - 2048
      → buf.len ≡ 2048
      → 2048 < rounds
      → size < fuel
      → Returns
          (IsCatExit (HasCat (disc_of udf input) image list size) (closed ++ held udf))
          (cat_path lookup rounds fuel buf udf closed path)
  unfolding cat_path open_place file_open
  cat_path_lem rounds fuel buf closed path place fi fe has tree found is_fi file read u len good
        small room hr hf =
      rw (has, cat_path, Returns)
        (Returns-bind _ (udfread_file_open (fs_of udf input) lookup udf.root path) _
          (Agrees-Returns (IsOpened (fs_of udf input) lookup ◌≡◌ udf.root) _
            (udfread_file_open (fs_of udf input) lookup udf.root path) _ (new_file (some fe))
            (udfread_file_open_lem (fs_of udf input) lookup udf.root path tree)
            (rw (found, is_fi, file, read) refl) (λ r k. k))
          (λ r (same, g, grown).
            cat_found-IsCatExit rounds fuel buf closed fe r.0 r.1 same grown u len good small room
              hr hf))
