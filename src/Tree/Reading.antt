-- ===== src/Tree/Reading.antt =====
-- What the directory cache of src/udfread.c holds: directories as they are on the disc.
use libudfread.Common.{
  ℕ, ◌+◌, ◌<◌, ◌≡◌, refl, sym, ap, ◌∙◌, arith, ◌==◌, ◌&&◌, if◌then◌else◌, Bool, true, false, List,
  [], Option, none, some, Bool-cases, Option-cases, inl, inr,
}
use libudfread.Memory.{Mem, done, ◌>>=◌}
use libudfread.Memory.Agree.{Agrees, Agrees-bind, Agrees-self, Agrees-weaken}
use libudfread.Fs.{UdfFs}
use libudfread.Fs.Dir.{DirEntry, udf_read_dir}
use libudfread.Directory.{file_at}
use libudfread.Tree.{
  DirTree, set_cell, pointer_in, set_pointer, with_array, publish, keep_subdir, load_subdir, is_dir,
  cache_subdir,
}
use libudfread.Tree.Forest.{IsForest, IsForest-add, with_array-IsForest}
use libudfread.Tree.Grows.{
  Grows, Grows-refl, Grows-trans, with_array_used, with_array_same, with_array_kept,
  with_array-Grows,
}

module _ (fs : UdfFs) (fuel : ℕ) where
  -- Entry `i` of a directory is a directory, and `sub` is what the disc has in it.
  abbrev pub IsSubdir : List DirEntry → ℕ → List DirEntry → Type 0
  IsSubdir entries i sub =
      (fi : DirEntry) × (file_at entries i ≡ some fi)
      × (is_dir fi ≡ true)
      × (udf_read_dir fs fuel fi.icb [] ≡ done (true, sub))

  abbrev pub found_entries : Bool × List DirEntry → Option (List DirEntry)
  found_entries (false, entries) = none
  found_entries (true, entries) = some entries

  -- the entries of a directory on the disc; `none` if it cannot be read
  unfoldable pub read_entries : DirEntry → Mem (Option (List DirEntry))
  read_entries fi = udf_read_dir fs fuel fi.icb [] >>= λ r. done (found_entries r)

  -- Every pointer that is set leads to a directory as it is on the disc.
  pub record IsTree (t : DirTree) : Type 0 where
    pub has_root : 0 < t.used
    pub forest : IsForest t
    pub linked :
        (d i c : ℕ)
        → d < t.used
        → pointer_in (t.cells d).subdirs i ≡ some c
        → (c < t.used) × IsSubdir (t.cells d).entries i (t.cells c).entries

  publish-Grows :
      (t : DirTree) (d i : ℕ) (entries : List DirEntry)
      → d < t.used
      → pointer_in (t.cells d).subdirs i ≡ none
      → Grows t (publish t d i entries)
  unfolding publish set_cell set_pointer pointer_in
  publish-Grows t d i entries lt empty = record {
    more = omega arith;
    same = λ e h. ground arith;
    kept = λ e j c h k. ground arith;
  }

  pub with_array-IsTree : (t : DirTree) (d : ℕ) → IsTree t → IsTree (with_array t d)
  with_array-IsTree t d h = record {
    has_root = omega (arith, with_array_used t d, h.has_root);
    forest = with_array-IsForest t d h.forest;
    linked = λ e i c l k.
        let (lt, (fi, at, is, read)) =
          h.linked e i c (omega (arith, with_array_used t d)) (sym (with_array_kept t d e i) ∙ k) in
        (
          omega (arith, with_array_used t d),
          (
            fi,
            ap (λ l. file_at l i) (with_array_same t d e) ∙ at,
            is,
            read ∙ ap (λ l. done (true, l)) (sym (with_array_same t d c)),
          ),
        );
  }

  publish_same :
      (t : DirTree) (d i e : ℕ) (entries : List DirEntry)
      → d < t.used
      → ((publish t d i entries).cells e).entries
        ≡ (if e == t.used then entries else (t.cells e).entries)
  unfolding publish set_cell
  publish_same t d i e entries lt = ground arith

  publish_pointer :
      (t : DirTree) (d i e j : ℕ) (entries : List DirEntry)
      → d < t.used
      → pointer_in ((publish t d i entries).cells e).subdirs j ≡ (
          if e == d && j == i
          then some t.used
          else if e == t.used
          then none
          else pointer_in (t.cells e).subdirs j)
  unfolding publish set_cell set_pointer pointer_in
  publish_pointer t d i e j entries lt = ground arith

  publish_used :
      (t : DirTree) (d i : ℕ) (entries : List DirEntry) → (publish t d i entries).used ≡ t.used + 1
  unfolding publish set_cell
  publish_used t d i entries = refl

  pub IsSubdir-eq :
      (a a' : List DirEntry) (i i' : ℕ) (b b' : List DirEntry)
      → a' ≡ a
      → i' ≡ i
      → b' ≡ b
      → IsSubdir a i b
      → IsSubdir a' i' b'
  IsSubdir-eq a a' i i' b b' ea ei eb (fi, at, is, read) = (fi, cc, is, cc)

  publish-IsForest :
      (t : DirTree) (d i : ℕ) (entries : List DirEntry)
      → IsForest t
      → d < t.used
      → IsForest (publish t d i entries)
  publish-IsForest t d i entries h lt =
      IsForest-add t (publish t d i entries) d i t.used h
        (omega (arith, publish_used t d i entries)) lt (omega (arith, publish_used t d i entries))
        (λ e j p. omega (arith, (h.up e j t.used p).1))
        (λ e j b (e_lt, p). elim (Bool-cases (e == d && j == i)) [
          | inl new ↦
              inr (ground arith, ground arith, ground (arith, publish_pointer t d i e j entries lt))
          | inr old ↦ inl (
            ground (arith, publish_pointer t d i e j entries lt, publish_used t d i entries),
            ground (arith, publish_pointer t d i e j entries lt),
          )
        ])

  pub publish-IsTree :
      (t : DirTree) (d i : ℕ) (entries : List DirEntry)
      → IsTree t
      → d < t.used
      → IsSubdir (t.cells d).entries i entries
      → IsTree (publish t d i entries)
  publish-IsTree t d i entries h lt sub = record {
    has_root = omega (arith, publish_used t d i entries);
    forest = publish-IsForest t d i entries h.forest lt;
    linked = λ e j c l k. elim (Bool-cases (e == d && j == i)) [
      | inl new ↦
          let c_new : c ≡ t.used = ground (arith, publish_pointer t d i e j entries lt) in
          (
            omega (arith, publish_used t d i entries),
            IsSubdir-eq (t.cells d).entries _ i j entries _
                (ground (arith, publish_same t d i e entries lt)) (ground arith)
                (ground (arith, publish_same t d i c entries lt)) sub,
          )
      | inr old ↦
          let below : e < t.used =
            ground (arith, publish_pointer t d i e j entries lt, publish_used t d i entries) in
          let was : pointer_in (t.cells e).subdirs j ≡ some c =
            ground (arith, publish_pointer t d i e j entries lt) in
          let (c_lt, is) = h.linked e j c below was in
          (
            omega (arith, publish_used t d i entries),
            IsSubdir-eq (t.cells e).entries _ j j (t.cells c).entries _
                (ground (arith, publish_same t d i e entries lt)) refl
                (ground (arith, publish_same t d i c entries lt)) is,
          )
    ];
  }

  -- What `_cache_subdir` is for: the entries of a subdirectory, read from the disc.
  unfoldable pub subdir_entries : DirEntry → Mem (Option (List DirEntry))
  subdir_entries fi = if is_dir fi then read_entries fi else done none

  -- The result of `_cache_subdir` on a store, beside that of reading the disc.
  abbrev pub IsCached : DirTree → Option ℕ × DirTree → Option (List DirEntry) → Type 0
  IsCached t (none, t') none = Grows t t' × IsTree t'
  IsCached t (none, t') (some entries) = ⊥
  IsCached t (some c, t') none = ⊥
  IsCached t (some c, t') (some entries) =
      Grows t t' × IsTree t' × (c < t'.used) × ((t'.cells c).entries ≡ entries)

  keep-IsCached :
      (t : DirTree) (d index : ℕ) (fi : DirEntry) (r : Bool × List DirEntry)
      → IsTree t
      → d < t.used
      → file_at (t.cells d).entries index ≡ some fi
      → is_dir fi ≡ true
      → pointer_in (t.cells d).subdirs index ≡ none
      → udf_read_dir fs fuel fi.icb [] ≡ done r
      → IsCached t (keep_subdir t d index r) (found_entries r)
  unfolding keep_subdir
  keep-IsCached t d index fi (false, entries) h lt at is empty read = (Grows-refl t, h)
  keep-IsCached t d index fi (true, entries) h lt at is empty read = (
    publish-Grows t d index entries lt empty,
    publish-IsTree t d index entries h lt (fi, at, is, read),
    omega (arith, publish_used t d index entries),
    ground (arith, publish_same t d index t.used entries lt),
  )

  load_subdir-IsCached :
      (t : DirTree) (d index : ℕ) (fi : DirEntry)
      → IsTree t
      → d < t.used
      → file_at (t.cells d).entries index ≡ some fi
      → is_dir fi ≡ true
      → Agrees (IsCached t) (load_subdir fs fuel t d index fi) (read_entries fi)
  unfolding load_subdir read_entries
  load_subdir-IsCached t d index fi h lt at is =
      elim (Option-cases (pointer_in (t.cells d).subdirs index)) [
        | inl empty ↦
            rw (empty, load_subdir)
              (Agrees-bind (IsCached t) (udf_read_dir fs fuel fi.icb [])
                (udf_read_dir fs fuel fi.icb []) _ _ (Agrees-self (udf_read_dir fs fuel fi.icb []))
                (λ r s (same, read).
                  rw (sym same) (keep-IsCached t d index fi r h lt at is empty read)))
        | inr (c, cached) ↦
            let (c_lt, (fi', at', is', read)) = h.linked d index c lt cached in
            let e : udf_read_dir fs fuel fi.icb [] ≡ done (true, (t.cells c).entries) = cc in
            rw (cached, e, load_subdir) (Grows-refl t, h, c_lt, refl)
      ]

  weaken-IsCached :
      (t u : DirTree) (r : Option ℕ × DirTree) (s : Option (List DirEntry))
      → Grows t u
      → IsCached u r s
      → IsCached t r s
  weaken-IsCached t u (none, t') none g (k, tree) = (Grows-trans t u t' g k, tree)
  weaken-IsCached t u (none, t') (some entries) g k = absurd k
  weaken-IsCached t u (some c, t') none g k = absurd k
  weaken-IsCached t u (some c, t') (some entries) g (k, tree, lt, e) =
      (Grows-trans t u t' g k, tree, lt, e)

  -- `_cache_subdir` gives what reading the disc gives, whatever has been cached before: the store
  -- still holds only what is on the disc, and no pointer or entry in it has changed.
  pub cache_subdir-IsCached :
      (t : DirTree) (d index : ℕ) (fi : DirEntry)
      → IsTree t
      → d < t.used
      → file_at (t.cells d).entries index ≡ some fi
      → Agrees (IsCached t) (cache_subdir fs fuel t d index) (subdir_entries fi)
  unfolding cache_subdir subdir_entries
  cache_subdir-IsCached t d index fi h lt at = elim (Bool-cases (is_dir fi)) [
    | inr file ↦ rw (at, file, cache_subdir) (Grows-refl t, h)
    | inl dir ↦
        let u = with_array t d in
        rw (at, dir, cache_subdir)
          (Agrees-weaken (IsCached t) (load_subdir fs fuel u d index fi) (read_entries fi)
            (λ r s k. weaken-IsCached t u r s (with_array-Grows t d) k)
            (load_subdir-IsCached u d index fi (with_array-IsTree t d h)
              (omega (arith, with_array_used t d))
              (ap (λ l. file_at l index) (with_array_same t d d) ∙ at) dir))
  ]
