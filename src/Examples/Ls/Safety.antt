-- ===== src/Examples/Ls/Safety.antt =====
-- examples/udfls.c on any disc.
use libudfread.Common.{ℕ, zero, suc, ◌∙◌, arith, Bool-cases, List, Option, none, some, inl, inr}
use libudfread.Memory.{Safe}
use libudfread.Memory.Words.{Safe-bind}
use libudfread.Fs.{UdfFs}
use libudfread.Directory.{UdfDir, dt_dir, dt_reg, Dirent, DirentType, udfread_readdir}
use libudfread.Tree.{DirTree}
use libudfread.Tree.Grows.{Grows, Grows-refl, Grows-trans}
use libudfread.Tree.Reading.{IsTree}
use libudfread.Path.{udfread_opendir_at, udfread_file_openat}
use libudfread.Path.Safety.{IsDirState, IsSafeOpen, udfread_opendir_at-Safe}
use libudfread.Path.Files.{udfread_file_openat-Safe}
use libudfread.Session.Calls.{readdir-IsDirState}
use libudfread.Examples.Ls.{is_dot, next_dir, list_child, list_entry, list_next, lsdir_at}

module _ (fs : UdfFs) (fuel : ℕ) where
  -- a cache that has grown, beside what is printed
  abbrev pub IsGrown : {A : Type 0} → DirTree → A × DirTree → Type 0
  IsGrown t r = Grows t r.1 × IsTree fs fuel r.1

  grown-IsDirState : (t u : DirTree) (p : UdfDir) → Grows t u → IsDirState t p → IsDirState u p
  grown-IsDirState t u p g (lt, e, all) = (omega (arith, g.more), g.same p.dir lt ∙ e, all)

  -- what is known of the rest of a listing
  abbrev ListsOn : ℕ → Type 0
  ListsOn rounds =
      (t : DirTree) (p : UdfDir) (path : List ℕ)
      → IsTree fs fuel t
      → IsDirState t p
      → Safe (IsGrown t) (lsdir_at fs fuel rounds t p path)

  list_child-Safe :
      (rounds : ℕ) (t : DirTree) (p : UdfDir) (path name : List ℕ)
      → ListsOn rounds
      → IsDirState t p
      → (r : Option UdfDir × DirTree) → IsSafeOpen fs fuel IsDirState t r
      → Safe (IsGrown t) (list_child (lsdir_at fs fuel rounds) p path name r)
  unfolding list_child
  list_child-Safe rounds t p path name again k (none, u) (g, tree, none_open) =
      Safe-bind _ (lsdir_at fs fuel rounds u p path) _
        (again u p path tree (grown-IsDirState t u p g k))
        (λ r (rg, rtree). (Grows-trans t u r.1 g rg, rtree))
  list_child-Safe rounds t p path name again k (some child, u) (g, tree, is_child) =
      Safe-bind _ (lsdir_at fs fuel rounds u child (next_dir path name)) _
        (again u child (next_dir path name) tree is_child)
        (λ b (bg, btree).
          let grown = Grows-trans t u b.1 g bg in
          Safe-bind _ (lsdir_at fs fuel rounds b.1 p path) _
            (again b.1 p path btree (grown-IsDirState t b.1 p grown k))
            (λ r (rg, rtree). (Grows-trans t b.1 r.1 grown rg, rtree)))

  list_entry-Safe :
      (rounds : ℕ) (t : DirTree) (p : UdfDir) (path name : List ℕ) (d_type : DirentType)
      → ListsOn rounds
      → IsTree fs fuel t
      → IsDirState t p
      → Safe (IsGrown t) (list_entry fs fuel (lsdir_at fs fuel rounds) t p path name d_type)
  unfolding list_entry
  list_entry-Safe rounds t p path name dt_dir again h k =
      Safe-bind _ (udfread_opendir_at fs fuel t p name) _
        (udfread_opendir_at-Safe fs fuel t p name h k)
        (λ r c. list_child-Safe rounds t p path name again k r c)
  list_entry-Safe rounds t p path name dt_reg again h k =
      Safe-bind _ (udfread_file_openat fs fuel p name) _
        (udfread_file_openat-Safe fs fuel t p name k)
        (λ file l.
          Safe-bind _ (lsdir_at fs fuel rounds t p path) _ (again t p path h k)
            (λ r (rg, rtree). (rg, rtree)))

  list_next-Safe :
      (rounds : ℕ) (t : DirTree) (path : List ℕ) (r : Option Dirent × UdfDir)
      → ListsOn rounds
      → IsTree fs fuel t
      → IsDirState t r.1
      → Safe (IsGrown t) (list_next fs fuel (lsdir_at fs fuel rounds) t path r)
  unfolding list_next
  list_next-Safe rounds t path (none, p) again h k = (Grows-refl t, h)
  list_next-Safe rounds t path (some d, p) again h k = elim (Bool-cases (is_dot d.d_name)) [
    | inl dot ↦ rw (dot, list_next) (again t p path h k)
    | inr other ↦
        rw (other, list_next) (list_entry-Safe rounds t p path d.d_name d.d_type again h k)
  ]

  pub lsdir_at-Safe : (rounds : ℕ) → ListsOn rounds
  unfolding lsdir_at
  lsdir_at-Safe zero t p path h k = tt
  lsdir_at-Safe (suc rounds) t p path h k =
      list_next-Safe rounds t path (udfread_readdir p) (lsdir_at-Safe rounds) h
        (readdir-IsDirState t p k)
