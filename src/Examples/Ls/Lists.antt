-- ===== src/Examples/Ls/Lists.antt =====
-- What `_lsdir_at` of examples/udfls.c prints, beside what is on the disc.
use libudfread.Common.{
  ℕ, suc, ◌+◌, ◌%◌, ◌^◌, ◌<◌, ◌≡◌, refl, sym, ap, ◌∙◌, true, false, List, [], ◌∷◌, ◌++◌, Option,
  none, some, Option-cases, inl, inr, subst,
}
use libudfread.Memory.{Mem, fault, running, done, ◌>>=◌}
use libudfread.Memory.Agree.{Agrees, Agrees-bind}
use libudfread.Fs.{UdfFs}
use libudfread.Fs.Dir.{DirEntry}
use libudfread.Directory.{UdfDir, dt_dir, dt_reg, dirent_of, file_at, scan_dir}
use libudfread.Stream.{UdfFile}
use libudfread.Tree.{DirTree, cache_subdir}
use libudfread.Tree.Grows.{Grows, Grows-refl}
use libudfread.Tree.Reading.{IsTree, subdir_entries, IsCached, cache_subdir-IsCached}
use libudfread.Path.{new_udfdir, udfread_opendir_at, file_open}
use libudfread.Path.Lookup.{named, named_at, unnamed}
use libudfread.Examples.Ls.{Line, dir_line, no_dir, is_dot, next_dir, line_of}

module _ (fs : UdfFs) (fuel : ℕ) where
  -- the entries of the directory with the name, read from the disc; `none` if it cannot be read
  unfoldable pub dir_named : List DirEntry → List ℕ → Mem (Option (List DirEntry))
  dir_named entries [] = done none
  dir_named entries (ch ∷ name) = elim (named entries (ch ∷ name)) [
    | none ↦ done none
    | some fi ↦ subdir_entries fs fuel fi
  ]

  -- the file with the name, opened
  unfoldable pub file_named : List DirEntry → List ℕ → Mem (Option UdfFile)
  file_named entries [] = done none
  file_named entries (ch ∷ name) = elim (named entries (ch ∷ name)) [
    | none ↦ done none
    | some fi ↦ file_open fs fuel fi
  ]

  -- `Lists n entries i path lines`: the listing of the disc from entry `i` of a directory on, and
  -- how many rounds are enough for it. The index is a 32-bit number.
  pub data Lists : ℕ → List DirEntry → ℕ → List ℕ → List Line → Type 0 where
    over :
        {entries : List DirEntry} {i : ℕ} {path : List ℕ}
        → file_at entries i ≡ none
        → Lists 1 entries i path []
    skips :
        {n : ℕ} {entries : List DirEntry} {i : ℕ} {path : List ℕ} {rest : List Line} (fi : DirEntry)
        → file_at entries i ≡ some fi
        → is_dot (dirent_of fi).d_name ≡ true
        → Lists n entries ((i + 1) % 2 ^ 32) path rest
        → Lists (suc n) entries i path rest
    goes_down :
        {n m : ℕ} {entries sub : List DirEntry} {i : ℕ} {path : List ℕ} {below rest : List Line}
        (fi : DirEntry)
        → file_at entries i ≡ some fi
        → is_dot (dirent_of fi).d_name ≡ false
        → (dirent_of fi).d_type ≡ dt_dir
        → dir_named entries (dirent_of fi).d_name ≡ done (some sub)
        → Lists n sub 0 (next_dir path (dirent_of fi).d_name) below
        → Lists m entries ((i + 1) % 2 ^ 32) path rest
        → Lists (suc (n + m)) entries i path (dir_line path (dirent_of fi).d_name ∷ (below ++ rest))
    unreadable :
        {n : ℕ} {entries : List DirEntry} {i : ℕ} {path : List ℕ} {rest : List Line} (fi : DirEntry)
        → file_at entries i ≡ some fi
        → is_dot (dirent_of fi).d_name ≡ false
        → (dirent_of fi).d_type ≡ dt_dir
        → dir_named entries (dirent_of fi).d_name ≡ done none
        → Lists n entries ((i + 1) % 2 ^ 32) path rest
        → Lists
            (suc n)
            entries
            i
            path
            (dir_line path (dirent_of fi).d_name ∷ no_dir (dirent_of fi).d_name ∷ rest)
    shows :
        {n : ℕ} {entries : List DirEntry} {i : ℕ} {path : List ℕ} {rest : List Line} (fi : DirEntry)
        (file : Option UdfFile)
        → file_at entries i ≡ some fi
        → is_dot (dirent_of fi).d_name ≡ false
        → (dirent_of fi).d_type ≡ dt_reg
        → file_named entries (dirent_of fi).d_name ≡ done file
        → Lists n entries ((i + 1) % 2 ^ 32) path rest
        → Lists (suc n) entries i path (line_of file path (dirent_of fi).d_name ∷ rest)

  -- a stream at entry `i` of a directory in the cache that has these entries
  pub record IsStreamAt (t : DirTree) (p : UdfDir) (entries : List DirEntry) (i : ℕ) : Type 0 where
    pub inside : p.dir < t.used
    pub cached : (t.cells p.dir).entries ≡ entries
    pub listed : p.files ≡ entries
    pub at : p.current_file ≡ i

  -- An opened directory, beside the entries on the disc.
  abbrev pub IsChild : DirTree → Option UdfDir × DirTree → Option (List DirEntry) → Type 0
  IsChild t (none, u) none = Grows t u × IsTree fs fuel u
  IsChild t (none, u) (some sub) = ⊥
  IsChild t (some child, u) none = ⊥
  IsChild t (some child, u) (some sub) = Grows t u × IsTree fs fuel u × IsStreamAt u child sub 0

  cached-IsChild :
      (t : DirTree) (r : Option ℕ × DirTree) (sub : Option (List DirEntry))
      → IsCached fs fuel t r sub
      → IsChild t (new_udfdir r.1 r.0, r.1) sub
  unfolding new_udfdir
  cached-IsChild t (none, u) none (g, h) = (g, h)
  cached-IsChild t (none, u) (some sub) c = absurd c
  cached-IsChild t (some d, u) none c = absurd c
  cached-IsChild t (some d, u) (some sub) (g, h, lt, e) =
      (g, h, record { inside = lt; cached = e; listed = e; at = refl })

  same_done : {A : Type 0} (m : Mem A) → m >>= (λ a. done a) ≡ m
  same_done fault = refl
  same_done running = refl
  same_done (done a) = refl

  pub opendir_at-IsChild :
      (t : DirTree) (p : UdfDir) (entries : List DirEntry) (i : ℕ) (name : List ℕ)
      → IsTree fs fuel t
      → IsStreamAt t p entries i
      → Agrees (IsChild t) (udfread_opendir_at fs fuel t p name) (dir_named entries name)
  unfolding udfread_opendir_at dir_named
  opendir_at-IsChild t p entries i [] h k = (Grows-refl t, h)
  opendir_at-IsChild t p entries i (ch ∷ name) h k =
      subst
        (λ l.
          Agrees (IsChild t) (udfread_opendir_at fs fuel t p (ch ∷ name)) (dir_named l (ch ∷ name)))
        k.listed
        (elim (Option-cases (scan_dir p.files (ch ∷ name))) [
          | inl missing ↦
              rw (missing, unnamed p.files (ch ∷ name) missing, udfread_opendir_at, dir_named)
                (Grows-refl t, h)
          | inr (j, found) ↦
              let (fi, at, same) = named_at p.files (ch ∷ name) j found in
              rw (found, same, udfread_opendir_at, dir_named)
                (rw (sym (same_done (subdir_entries fs fuel fi))) (
                  Agrees-bind (IsChild t) (cache_subdir fs fuel t p.dir j)
                    (subdir_entries fs fuel fi) (λ r. done (new_udfdir r.1 r.0, r.1)) (λ s. done s)
                    (cache_subdir-IsCached fs fuel t p.dir j fi h k.inside
                      (ap (λ l. file_at l j) (k.cached ∙ sym k.listed) ∙ at))
                    (λ r sub c. cached-IsChild t r sub c)))
        ])
