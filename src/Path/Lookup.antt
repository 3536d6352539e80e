-- ===== src/Path/Lookup.antt =====
-- `_find_file` of src/udfread.c beside a lookup that has no cache.
use libudfread.Common.{
  ℕ, suc, ◌+◌, ◌<◌, ◌≡◌, refl, sym, ap, ◌∙◌, arith, if◌then◌else◌, true, false, List, [], ◌∷◌,
  Option, none, some, Bool-cases, Option-cases, inl, inr, subst,
}
use libudfread.Memory.{Mem, done, ◌>>=◌}
use libudfread.Memory.Agree.{Agrees, Agrees-bind, Agrees-weaken}
use libudfread.Fs.{UdfFs}
use libudfread.Fs.Dir.{DirEntry}
use libudfread.Directory.{same_name, scan_from, scan_dir, file_at}
use libudfread.Tree.{DirTree, is_dir, cache_subdir}
use libudfread.Tree.Grows.{Grows, Grows-refl, Grows-trans}
use libudfread.Tree.Reading.{IsTree, read_entries, subdir_entries, IsCached, cache_subdir-IsCached}
use libudfread.Path.{Target, found_file, find_tokens, find_file, tokens}
use libudfread.Tree.{root_dir}

-- the first entry with the name
unfoldable pub named : List DirEntry → List ℕ → Option DirEntry
named [] name = none
named (e ∷ files) name = if same_name name e.filename then some e else named files name

-- A place in the file system: the entries of a directory, and the entry that leads there.
pub record Place : Type 0 where
  pub entries : Option (List DirEntry)
  pub fid : Option DirEntry

unfoldable pub file_place : DirEntry → List (List ℕ) → Option Place
file_place fi [] = some (record { entries = none; fid = some fi })
file_place fi (token ∷ rest) = none

-- The walk along a path that reads each directory from the disc; `none` if there is no such path.
unfoldable pub walk :
    UdfFs → ℕ → List DirEntry → Option DirEntry → List (List ℕ) → Mem (Option Place)
walk fs fuel entries fid [] = done (some (record { entries = some entries; fid = fid }))
walk fs fuel entries fid (token ∷ rest) = elim (named entries token) [
  | none ↦ done none
  | some fi ↦ elim (is_dir fi) [
    | false ↦ done (file_place fi rest)
    | true ↦ do
      sub ← read_entries fs fuel fi
      elim sub [ none ↦ done none | some below ↦ walk fs fuel below (some fi) rest ]
  ]
]

-- `_scan_dir` finds the entry with the name.
abbrev IsNamed : List DirEntry → Option DirEntry → ℕ → Option ℕ → Type 0
IsNamed files r base none = r ≡ none
IsNamed files r base (some i) =
    (e : DirEntry) × (k : ℕ) × (i ≡ base + k) × (file_at files k ≡ some e) × (r ≡ some e)

skip-IsNamed :
    (x : DirEntry) (files : List DirEntry) (r : Option DirEntry) (base : ℕ) (i : Option ℕ)
    → IsNamed files r (base + 1) i
    → IsNamed (x ∷ files) r base i
unfolding file_at
skip-IsNamed x files r base none h = h
skip-IsNamed x files r base (some i) (e, k, index, at, found) = (e, suc k, omega arith, at, found)

scan_from-IsNamed :
    (files : List DirEntry) (name : List ℕ) (base : ℕ)
    → IsNamed files (named files name) base (scan_from files name base)
unfolding scan_from named file_at
scan_from-IsNamed [] name base = refl
scan_from-IsNamed (x ∷ files) name base = elim (Bool-cases (same_name name x.filename)) [
  | inl same ↦ rw same (x, 0, omega arith, refl, refl)
  | inr other ↦ rw other (
      skip-IsNamed x files (named files name) base (scan_from files name (base + 1))
        (scan_from-IsNamed files name (base + 1)))
]

pub named_at :
    (files : List DirEntry) (name : List ℕ) (i : ℕ)
    → scan_dir files name ≡ some i
    → (e : DirEntry) × (file_at files i ≡ some e) × (named files name ≡ some e)
unfolding scan_dir
named_at files name i h =
    let (e, k, index, at, found) =
      subst (λ r. IsNamed files (named files name) 0 r) h (scan_from-IsNamed files name 0) in
    let here : i ≡ k = omega arith in (e, ap (file_at files) here ∙ at, found)

pub unnamed :
    (files : List DirEntry) (name : List ℕ) → scan_dir files name ≡ none → named files name ≡ none
unfolding scan_dir
unnamed files name h =
    subst (λ r. IsNamed files (named files name) 0 r) h (scan_from-IsNamed files name 0)

-- Where a lookup in the cache has ended, beside the place on the disc.
abbrev pub IsAt : DirTree → Option ℕ → Option (List DirEntry) → Type 0
IsAt t none none = Unit
IsAt t none (some entries) = ⊥
IsAt t (some d) none = ⊥
IsAt t (some d) (some entries) = (d < t.used) × ((t.cells d).entries ≡ entries)

abbrev pub IsPlace : DirTree → Option Target → Option Place → Type 0
IsPlace t none none = Unit
IsPlace t none (some place) = ⊥
IsPlace t (some found) none = ⊥
IsPlace t (some found) (some place) = (found.fid ≡ place.fid) × IsAt t found.dir place.entries

module _ (fs : UdfFs) (fuel : ℕ) where
  -- The lookup has found what is on the disc, and the cache still holds what is on the disc.
  abbrev pub IsLookup : DirTree → Option Target × DirTree → Option Place → Type 0
  IsLookup t r place = Grows t r.1 × IsTree fs fuel r.1 × IsPlace r.1 r.0 place

  file-IsLookup :
      (t : DirTree) (fi : DirEntry) (rest : List (List ℕ))
      → IsTree fs fuel t
      → IsLookup t (found_file fi rest, t) (file_place fi rest)
  unfolding found_file file_place
  file-IsLookup t fi [] h = (Grows-refl t, h, (refl, tt))
  file-IsLookup t fi (token ∷ rest) h = (Grows-refl t, h, tt)

  weaken-IsLookup :
      (t u : DirTree) (r : Option Target × DirTree) (place : Option Place)
      → Grows t u
      → IsLookup u r place
      → IsLookup t r place
  weaken-IsLookup t u r place g (k, h, at) = (Grows-trans t u r.1 g k, h, at)

  -- The rest of the path, behind a subdirectory from the cache.
  below-IsLookup :
      (fi : DirEntry) (rest : List (List ℕ)) (t : DirTree) (r : Option ℕ × DirTree)
      (sub : Option (List DirEntry))
      → ((u : DirTree) (c : ℕ)
          → IsTree fs fuel u
          → c < u.used
          → Agrees
              (IsLookup u)
              (find_tokens fs fuel u c (some fi) rest)
              (walk fs fuel (u.cells c).entries (some fi) rest))
      → IsCached fs fuel t r sub
      → Agrees
          (IsLookup t)
          (elim r.0 [ none ↦ done (none, r.1) | some c ↦ find_tokens fs fuel r.1 c (some fi) rest ])
          (elim sub [ none ↦ done none | some below ↦ walk fs fuel below (some fi) rest ])
  below-IsLookup fi rest t (none, u) none deeper (g, h) = (g, h, tt)
  below-IsLookup fi rest t (none, u) (some entries) deeper k = absurd k
  below-IsLookup fi rest t (some c, u) none deeper k = absurd k
  below-IsLookup fi rest t (some c, u) (some entries) deeper (g, h, lt, e) = rw (sym e) (
      Agrees-weaken (IsLookup t) (find_tokens fs fuel u c (some fi) rest)
        (walk fs fuel (u.cells c).entries (some fi) rest)
        (λ s place k. weaken-IsLookup t u s place g k) (deeper u c h lt))

  -- One token of the path.
  token-IsLookup :
      (token : List ℕ) (rest : List (List ℕ)) (t : DirTree) (d : ℕ) (fid : Option DirEntry)
      (fi : DirEntry) (i : ℕ)
      → IsTree fs fuel t
      → d < t.used
      → scan_dir (t.cells d).entries token ≡ some i
      → file_at (t.cells d).entries i ≡ some fi
      → named (t.cells d).entries token ≡ some fi
      → ((u : DirTree) (c : ℕ)
          → IsTree fs fuel u
          → c < u.used
          → Agrees
              (IsLookup u)
              (find_tokens fs fuel u c (some fi) rest)
              (walk fs fuel (u.cells c).entries (some fi) rest))
      → Agrees
          (IsLookup t)
          (find_tokens fs fuel t d fid (token ∷ rest))
          (walk fs fuel (t.cells d).entries fid (token ∷ rest))
  unfolding find_tokens walk subdir_entries
  token-IsLookup token rest t d fid fi i h lt e at found deeper = elim (Bool-cases (is_dir fi)) [
    | inr file ↦ rw (e, at, found, file, find_tokens, walk) (file-IsLookup t fi rest h)
    | inl dir ↦
        let cached : Agrees (IsCached fs fuel t) (cache_subdir fs fuel t d i)
            (read_entries fs fuel fi) =
          rw (sym (entries_of fi dir)) (cache_subdir-IsCached fs fuel t d i fi h lt at) in
        rw (e, at, found, dir, find_tokens, walk)
          (Agrees-bind (IsLookup t) (cache_subdir fs fuel t d i) (read_entries fs fuel fi) _ _
            cached (λ r sub k. below-IsLookup fi rest t r sub deeper k))
  ]
    where
      entries_of :
          (fi : DirEntry) → is_dir fi ≡ true → subdir_entries fs fuel fi ≡ read_entries fs fuel fi
      entries_of fi dir = rw dir refl

  find_tokens-IsLookup :
      (rest : List (List ℕ)) (t : DirTree) (d : ℕ) (fid : Option DirEntry)
      → IsTree fs fuel t
      → d < t.used
      → Agrees
          (IsLookup t)
          (find_tokens fs fuel t d fid rest)
          (walk fs fuel (t.cells d).entries fid rest)
  unfolding find_tokens walk scan_dir
  find_tokens-IsLookup [] t d fid h lt = (Grows-refl t, h, (refl, (lt, refl)))
  find_tokens-IsLookup (token ∷ rest) t d fid h lt =
      elim (Option-cases (scan_dir (t.cells d).entries token)) [
        | inl missing ↦ rw (missing, unnamed _ _ missing, find_tokens, walk) (Grows-refl t, h, tt)
        | inr (i, e) ↦
            let (fi, at, found) = named_at _ _ i e in
            token-IsLookup token rest t d fid fi i h lt e at found
              (λ u c tree l. find_tokens-IsLookup rest u c (some fi) tree l)
      ]

  -- If the cache is a tree of directories as they are on the disc, however many of them, `_find_file`
  -- finds what a walk over the disc finds, and faults or runs on exactly if that does; the cache
  -- keeps every directory that it has and is again such a tree.
  pub find_file-IsLookup :
      (t : DirTree) (path : List ℕ)
      → IsTree fs fuel t
      → Agrees
          (IsLookup t)
          (find_file fs fuel t path)
          (walk fs fuel (t.cells root_dir).entries none (tokens path))
  unfolding find_file
  find_file-IsLookup t path h = find_tokens-IsLookup (tokens path) t root_dir none h h.has_root
