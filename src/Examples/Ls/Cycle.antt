-- ===== src/Examples/Ls/Cycle.antt =====
-- `_lsdir_at` of examples/udfls.c in a directory that contains itself.
use libudfread.Common.{ℕ, zero, suc, ◌+◌, ◌%◌, ◌^◌, ◌≡◌, refl, false, List, Option, none, some}
use libudfread.Memory.{running, done}
use libudfread.Memory.Words.{Returns-result}
use libudfread.Fs.{UdfFs}
use libudfread.Fs.Dir.{DirEntry}
use libudfread.Directory.{UdfDir, dt_dir, dirent_of, file_at}
use libudfread.Tree.{DirTree}
use libudfread.Tree.Reading.{IsTree}
use libudfread.Path.{udfread_opendir_at}
use libudfread.Examples.Ls.{is_dot, next_dir, list_child, list_entry, list_next, lsdir_at}
use libudfread.Examples.Ls.Lists.{dir_named, IsStreamAt, IsChild}
use libudfread.Examples.Ls.Prints.{opened-IsChild, step_on, readdir_next, step_on-IsStreamAt}

module _ (fs : UdfFs) (fuel : ℕ) (entries : List DirEntry) (fi : DirEntry)
    (first : file_at entries 0 ≡ some fi) (is_named : is_dot (dirent_of fi).d_name ≡ false)
    (is_dir : (dirent_of fi).d_type ≡ dt_dir)
    (itself : dir_named fs fuel entries (dirent_of fi).d_name ≡ done (some entries)) where
  -- The code as it is: where the first entry of a directory is a directory with the same entries,
  -- `_lsdir_at` goes down for ever, however many rounds it is given; its argument `depth` is not
  -- looked at.
  pub lsdir_at-running :
      (rounds : ℕ) (t : DirTree) (p : UdfDir) (path : List ℕ)
      → IsTree fs fuel t
      → IsStreamAt fs fuel t p entries 0
      → lsdir_at fs fuel rounds t p path ≡ running
  unfolding lsdir_at list_next list_entry list_child
  lsdir_at-running zero t p path h k = refl
  lsdir_at-running (suc rounds) t p path h k =
      let next = step_on-IsStreamAt fs fuel t p entries 0 k in
      let (r, opens, c) =
        Returns-result (udfread_opendir_at fs fuel t (step_on fs fuel p) (dirent_of fi).d_name) (
          opened-IsChild fs fuel t (step_on fs fuel p) entries ((0 + 1) % 2 ^ 32)
            (dirent_of fi).d_name (some entries) h next itself) in
      rw
        (
          readdir_next fs fuel t p entries 0 k fi first,
          is_named,
          is_dir,
          opens,
          lsdir_at,
          list_next,
          list_entry,
        )
        (into r
          (λ u child tree l.
            lsdir_at-running rounds u child (next_dir path (dirent_of fi).d_name) tree l)
          c)
    where
      into :
          (r : Option UdfDir × DirTree)
          → ((u : DirTree) (child : UdfDir)
              → IsTree fs fuel u
              → IsStreamAt fs fuel u child entries 0
              → lsdir_at fs fuel rounds u child (next_dir path (dirent_of fi).d_name) ≡ running)
          → IsChild fs fuel t r (some entries)
          → list_child (lsdir_at fs fuel rounds) (step_on fs fuel p) path (dirent_of fi).d_name r
            ≡ running
      into (none, u) again c = absurd c
      into (some child, u) again (g, tree, at_start) =
          rw (again u child tree at_start, list_child) refl
