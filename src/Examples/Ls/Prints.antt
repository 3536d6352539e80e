-- ===== src/Examples/Ls/Prints.antt =====
-- `_lsdir_at` of examples/udfls.c prints what is on the disc.
use libudfread.Common.{
  ℕ, zero, suc, ◌+◌, ◌%◌, ◌^◌, ◌≤◌, ◌≡◌, refl, ap, ap₂, ◌∙◌, arith, false, List, [], ◌∷◌, ◌++◌,
  Option, none, some, Option-cases, inl, inr,
}
use libudfread.Memory.{Returns, done}
use libudfread.Memory.Words.{Returns-bind}
use libudfread.Memory.Agree.{Agrees-Returns}
use libudfread.Fs.{UdfFs}
use libudfread.Fs.Dir.{DirEntry}
use libudfread.Directory.{
  UdfDir, DirentType, dt_dir, dt_reg, dirent_of, file_at, scan_dir, udfread_readdir,
}
use libudfread.Stream.{UdfFile}
use libudfread.Tree.{DirTree}
use libudfread.Tree.Grows.{Grows, Grows-refl, Grows-trans}
use libudfread.Tree.Reading.{IsTree}
use libudfread.Path.{udfread_opendir_at, udfread_file_openat}
use libudfread.Path.Lookup.{named_at, unnamed}
use libudfread.Examples.Ls.{
  Line, dir_line, no_dir, is_dot, next_dir, line_of, list_child, list_entry, list_next, lsdir_at,
}
use libudfread.Examples.Ls.Lists.{
  dir_named, file_named, Lists, over, skips, goes_down, unreadable, shows, IsStreamAt, IsChild,
  opendir_at-IsChild,
}

module _ (fs : UdfFs) (fuel : ℕ) where
  openat_lem :
      (p : UdfDir) (name : List ℕ)
      → udfread_file_openat fs fuel p name ≡ file_named fs fuel p.files name
  unfolding udfread_file_openat file_named
  openat_lem p [] = refl
  openat_lem p (ch ∷ name) = elim (Option-cases (scan_dir p.files (ch ∷ name))) [
    | inl missing ↦
        rw (missing, unnamed p.files (ch ∷ name) missing, udfread_file_openat, file_named) refl
    | inr (j, found) ↦
        let (fi, at, same) = named_at p.files (ch ∷ name) j found in
        rw (found, at, same, udfread_file_openat, file_named) refl
  ]

  -- the stream behind the next entry
  abbrev pub step_on : UdfDir → UdfDir
  step_on p = record p { current_file = (p.current_file + 1) % 2 ^ 32 }

  module _ (t : DirTree) (p : UdfDir) (entries : List DirEntry) (i : ℕ)
      (k : IsStreamAt fs fuel t p entries i) where
    here : (fi : Option DirEntry) → file_at entries i ≡ fi → file_at p.files p.current_file ≡ fi
    here fi at =
        ap (λ l. file_at l p.current_file) k.listed ∙ (ap (λ j. file_at entries j) k.at ∙ at)

    readdir_over : file_at entries i ≡ none → udfread_readdir p ≡ (none, p)
    unfolding udfread_readdir
    readdir_over at = rw (here none at, udfread_readdir) refl

    pub readdir_next :
        (fi : DirEntry)
        → file_at entries i ≡ some fi
        → udfread_readdir p ≡ (some (dirent_of fi), step_on p)
    unfolding udfread_readdir
    readdir_next fi at = rw (here (some fi) at, udfread_readdir) refl

    pub step_on-IsStreamAt : IsStreamAt fs fuel t (step_on p) entries ((i + 1) % 2 ^ 32)
    step_on-IsStreamAt = record {
      inside = k.inside;
      cached = k.cached;
      listed = k.listed;
      at = ap (λ j. (j + 1) % 2 ^ 32) k.at;
    }

  grown-IsStreamAt :
      (t u : DirTree) (p : UdfDir) (entries : List DirEntry) (i : ℕ)
      → Grows t u
      → IsStreamAt fs fuel t p entries i
      → IsStreamAt fs fuel u p entries i
  grown-IsStreamAt t u p entries i g k = record {
    inside = omega (arith, k.inside, g.more);
    cached = g.same p.dir k.inside ∙ k.cached;
    listed = k.listed;
    at = k.at;
  }

  -- The lines are printed, and the cache has grown and still is what the disc has.
  abbrev pub IsPrinted : DirTree → List Line → List Line × DirTree → Type 0
  IsPrinted t lines r = (r.0 ≡ lines) × Grows t r.1 × IsTree fs fuel r.1

  later-IsPrinted :
      (t u : DirTree) (lines : List Line) (r : List Line × DirTree) (add : List Line → List Line)
      → Grows t u
      → IsPrinted u lines r
      → IsPrinted t (add lines) (add r.0, r.1)
  later-IsPrinted t u lines r add g (e, h, tree) = (ap add e, Grows-trans t u r.1 g h, tree)

  -- what is known of the listing of the rest of a directory
  abbrev Prints : ℕ → List DirEntry → ℕ → List ℕ → List Line → Type 0
  Prints rounds entries i path lines =
      (t : DirTree) (p : UdfDir)
      → IsTree fs fuel t
      → IsStreamAt fs fuel t p entries i
      → Returns (IsPrinted t lines) (lsdir_at fs fuel rounds t p path)

  -- The child that is opened, or NULL, as the disc has it.
  pub opened-IsChild :
      (t : DirTree) (p : UdfDir) (entries : List DirEntry) (i : ℕ) (name : List ℕ)
      (sub : Option (List DirEntry))
      → IsTree fs fuel t
      → IsStreamAt fs fuel t p entries i
      → dir_named fs fuel entries name ≡ done sub
      → Returns (λ r. IsChild fs fuel t r sub) (udfread_opendir_at fs fuel t p name)
  opened-IsChild t p entries i name sub h k read =
      Agrees-Returns (IsChild fs fuel t) _ (udfread_opendir_at fs fuel t p name)
        (dir_named fs fuel entries name) sub (opendir_at-IsChild fs fuel t p entries i name h k)
        read (λ r c. c)

  -- What is printed behind the attempt to open a child.
  child-IsPrinted :
      (rounds : ℕ) (t : DirTree) (p : UdfDir) (entries sub : List DirEntry) (i : ℕ)
      (path name : List ℕ) (below rest : List Line)
      → IsStreamAt fs fuel t p entries i
      → Prints rounds sub 0 (next_dir path name) below
      → Prints rounds entries i path rest
      → (r : Option UdfDir × DirTree) → IsChild fs fuel t r (some sub)
      → Returns
          (IsPrinted t (dir_line path name ∷ (below ++ rest)))
          (list_child (lsdir_at fs fuel rounds) p path name r)
  unfolding list_child
  child-IsPrinted rounds t p entries sub i path name below rest k first then' (none, u) c = absurd c
  child-IsPrinted rounds t p entries sub i path name below rest k first then' (some child, u)
        (g, tree, at_start) =
      Returns-bind _ (lsdir_at fs fuel rounds u child (next_dir path name)) _
        (first u child tree at_start)
        (λ b (be, bg, btree).
          let grown = Grows-trans t u b.1 g bg in
          Returns-bind _ (lsdir_at fs fuel rounds b.1 p path) _
            (then' b.1 p btree (grown-IsStreamAt t b.1 p entries i grown k))
            (λ r (re, rg, rtree). (
              ap₂ (λ x y. dir_line path name ∷ (x ++ y)) be re,
              Grows-trans t b.1 r.1 grown rg,
              rtree,
            )))

  no_child-IsPrinted :
      (rounds : ℕ) (t : DirTree) (p : UdfDir) (entries : List DirEntry) (i : ℕ) (path name : List ℕ)
      (rest : List Line)
      → IsStreamAt fs fuel t p entries i
      → Prints rounds entries i path rest
      → (r : Option UdfDir × DirTree) → IsChild fs fuel t r none
      → Returns
          (IsPrinted t (dir_line path name ∷ no_dir name ∷ rest))
          (list_child (lsdir_at fs fuel rounds) p path name r)
  unfolding list_child
  no_child-IsPrinted rounds t p entries i path name rest k then' (some child, u) c = absurd c
  no_child-IsPrinted rounds t p entries i path name rest k then' (none, u) (g, tree) =
      Returns-bind _ (lsdir_at fs fuel rounds u p path) _
        (then' u p tree (grown-IsStreamAt t u p entries i g k))
        (λ r l. later-IsPrinted t u rest r (λ x. dir_line path name ∷ no_dir name ∷ x) g l)

  -- An entry that is a directory, and one that is a file.
  dir-IsPrinted :
      (rounds : ℕ) (t : DirTree) (p : UdfDir) (entries : List DirEntry) (i : ℕ) (path name : List ℕ)
      (sub : Option (List DirEntry)) (lines : List Line)
      → IsTree fs fuel t
      → IsStreamAt fs fuel t p entries i
      → dir_named fs fuel entries name ≡ done sub
      → ((r : Option UdfDir × DirTree)
          → IsChild fs fuel t r sub
          → Returns (IsPrinted t lines) (list_child (lsdir_at fs fuel rounds) p path name r))
      → Returns
          (IsPrinted t lines)
          (list_entry fs fuel (lsdir_at fs fuel rounds) t p path name dt_dir)
  unfolding list_entry
  dir-IsPrinted rounds t p entries i path name sub lines h k read printed =
      Returns-bind _ (udfread_opendir_at fs fuel t p name) _
        (opened-IsChild t p entries i name sub h k read) printed

  file-IsPrinted :
      (rounds : ℕ) (t : DirTree) (p : UdfDir) (entries : List DirEntry) (i : ℕ) (path name : List ℕ)
      (file : Option UdfFile) (rest : List Line)
      → IsTree fs fuel t
      → IsStreamAt fs fuel t p entries i
      → file_named fs fuel entries name ≡ done file
      → Prints rounds entries i path rest
      → Returns
          (IsPrinted t (line_of file path name ∷ rest))
          (list_entry fs fuel (lsdir_at fs fuel rounds) t p path name dt_reg)
  unfolding list_entry
  file-IsPrinted rounds t p entries i path name file rest h k read then' =
      rw (openat_lem p name, ap (λ l. file_named fs fuel l name) k.listed, read)
        (Returns-bind _ (lsdir_at fs fuel rounds t p path) _ (then' t p h k)
          (λ r l. later-IsPrinted t t rest r (λ x. line_of file path name ∷ x) (Grows-refl t) l))

  -- One round on an entry that is not skipped.
  round-IsPrinted :
      (rounds : ℕ) (t : DirTree) (p : UdfDir) (entries : List DirEntry) (i : ℕ) (path : List ℕ)
      (fi : DirEntry) (d_type : DirentType) (lines : List Line)
      → IsStreamAt fs fuel t p entries i
      → file_at entries i ≡ some fi
      → is_dot (dirent_of fi).d_name ≡ false
      → (dirent_of fi).d_type ≡ d_type
      → Returns (IsPrinted t lines) (
          list_entry fs fuel
            (lsdir_at fs fuel rounds)
            t
            (step_on p)
            path
            (dirent_of fi).d_name
            d_type)
      → Returns (IsPrinted t lines) (lsdir_at fs fuel (suc rounds) t p path)
  unfolding lsdir_at list_next
  round-IsPrinted rounds t p entries i path fi d_type lines k at named_it is_type printed =
      rw (readdir_next t p entries i k fi at, named_it, is_type, lsdir_at, list_next) printed

  no_rounds :
      (n : ℕ) (entries : List DirEntry) (i : ℕ) (path : List ℕ) (lines : List Line)
      → Lists fs fuel n entries i path lines
      → n ≤ 0
      → ⊥
  no_rounds _ entries i path _ (over at) le = omega arith
  no_rounds _ entries i path lines (skips fi at dot l) le = omega arith
  no_rounds _ entries i path _ (goes_down fi at dot is_dir read l l') le = omega arith
  no_rounds _ entries i path _ (unreadable fi at dot is_dir read l) le = omega arith
  no_rounds _ entries i path _ (shows fi file at dot is_file read l) le = omega arith

  -- Where what is on the disc below a directory can be listed to the end, `_lsdir_at` ends, with as
  -- many rounds as that takes or more, on a stream of that directory, and prints just this
  -- listing. Subdirectories that it has to read are in the cache then, which still is what the disc
  -- has; it does not matter what was in the cache before.
  pub lsdir_at_lem :
      (n : ℕ) (entries : List DirEntry) (i : ℕ) (path : List ℕ) (lines : List Line)
      → Lists fs fuel n entries i path lines
      → (rounds : ℕ) → n ≤ rounds
      → (t : DirTree) (p : UdfDir) → IsTree fs fuel t
      → IsStreamAt fs fuel t p entries i
      → Returns (IsPrinted t lines) (lsdir_at fs fuel rounds t p path)
  unfolding lsdir_at list_next
  lsdir_at_lem n entries i path lines l zero le t p h k =
      absurd (no_rounds n entries i path lines l le)
  lsdir_at_lem _ entries i path _ (over at) (suc rounds) le t p h k =
      rw (readdir_over t p entries i k at, lsdir_at, list_next) (refl, Grows-refl t, h)
  lsdir_at_lem _ entries i path lines (skips {n} fi at dot l) (suc rounds) le t p h k =
      rw (readdir_next t p entries i k fi at, dot, lsdir_at, list_next)
        (lsdir_at_lem n entries ((i + 1) % 2 ^ 32) path lines l rounds (omega arith) t (step_on p) h
          (step_on-IsStreamAt t p entries i k))
  lsdir_at_lem _ entries i path lines
        (goes_down {n} {m} {sub} {below} {rest} fi at dot is_dir read l l') (suc rounds) le t p h
        k =
      let name = (dirent_of fi).d_name in
      let next = step_on-IsStreamAt t p entries i k in
      round-IsPrinted rounds t p entries i path fi dt_dir _ k at dot is_dir (
        dir-IsPrinted rounds t (step_on p) entries ((i + 1) % 2 ^ 32) path name (some sub) _ h next
          read
          (child-IsPrinted rounds t (step_on p) entries sub ((i + 1) % 2 ^ 32) path name below rest
            next (lsdir_at_lem n sub 0 (next_dir path name) below l rounds (omega arith))
            (lsdir_at_lem m entries ((i + 1) % 2 ^ 32) path rest l' rounds (omega arith))))
  lsdir_at_lem _ entries i path _ (unreadable {n} {rest} fi at dot is_dir read l) (suc rounds) le t
        p h k =
      let name = (dirent_of fi).d_name in
      let next = step_on-IsStreamAt t p entries i k in
      round-IsPrinted rounds t p entries i path fi dt_dir _ k at dot is_dir (
        dir-IsPrinted rounds t (step_on p) entries ((i + 1) % 2 ^ 32) path name none _ h next read (
          no_child-IsPrinted rounds t (step_on p) entries ((i + 1) % 2 ^ 32) path name rest next
            (lsdir_at_lem n entries ((i + 1) % 2 ^ 32) path rest l rounds (omega arith))))
  lsdir_at_lem _ entries i path _ (shows {n} {rest} fi file at dot is_file read l) (suc rounds) le t
        p h k =
      round-IsPrinted rounds t p entries i path fi dt_reg _ k at dot is_file (
        file-IsPrinted rounds t (step_on p) entries ((i + 1) % 2 ^ 32) path (dirent_of fi).d_name
          file rest h (step_on-IsStreamAt t p entries i k) read
          (lsdir_at_lem n entries ((i + 1) % 2 ^ 32) path rest l rounds (omega arith)))
