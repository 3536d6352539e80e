-- ===== src/Path/Safety.antt =====
-- Lookups and opens by path in src/udfread.c, on any disc.
use libudfread.Common.{
  ℕ, zero, suc, ◌<◌, ◌≡◌, refl, sym, ap, ◌∙◌, arith, true, false, List, [], ◌∷◌, All, Option, none,
  some, Bool, Bool-cases, Option-cases, inl, inr, subst,
}
use libudfread.Memory.{Safe, done, ◌>>=◌}
use libudfread.Memory.Words.{Safe-bind}
use libudfread.Memory.Agree.{Agrees-Safe}
use libudfread.Fs.{UdfFs}
use libudfread.Fs.Dir.{DirEntry, udf_read_dir}
use libudfread.Fs.Listing.{IsListed, Appends, udf_read_dir-Safe}
use libudfread.Directory.{UdfDir, same_name, scan_dir, file_at}
use libudfread.Tree.{DirTree, root_dir, is_dir, cache_subdir}
use libudfread.Tree.Grows.{Grows, Grows-refl}
use libudfread.Tree.Reading.{
  IsTree, found_entries, read_entries, subdir_entries, IsCached, cache_subdir-IsCached,
}
use libudfread.Path.{
  Target, find_file, tokens, new_udfdir, stream_of, udfread_opendir, udfread_opendir_at,
}
use libudfread.Path.Lookup.{
  named, Place, file_place, walk, named_at, IsAt, IsPlace, IsLookup, find_file-IsLookup,
}

-- what holds of a value, if there is one
abbrev pub Every : {A : Type 0} → (A → Type 0) → Option A → Type 0
Every P none = Unit
Every P (some a) = P a

pub named-IsListed :
    (files : List DirEntry) (name : List ℕ) → All IsListed files → Every IsListed (named files name)
unfolding named
named-IsListed [] name h = tt
named-IsListed (e ∷ files) name h = elim (Bool-cases (same_name name e.filename)) [
  | inl same ↦ rw same h.0
  | inr other ↦ rw other (named-IsListed files name h.1)
]

-- The places of a walk: their entries are listed ones.
abbrev IsListedPlace : Place → Type 0
IsListedPlace place = Every (All IsListed) place.entries × Every IsListed place.fid

file_place-IsListed :
    (fi : DirEntry) (rest : List (List ℕ)) → IsListed fi → Every IsListedPlace (file_place fi rest)
unfolding file_place
file_place-IsListed fi [] h = (tt, h)
file_place-IsListed fi (token ∷ rest) h = tt

-- A lookup on the cache: its result lies in the store, with listed entries.
abbrev pub IsFound : DirTree → Option Target → Type 0
IsFound u none = Unit
IsFound u (some found) =
    Every (λ d. (d < u.used) × All IsListed (u.cells d).entries) found.dir
    × Every IsListed found.fid

place-IsFound :
    (u : DirTree) (found : Option Target) (place : Option Place)
    → IsPlace u found place
    → Every IsListedPlace place
    → IsFound u found
place-IsFound u none place h k = tt
place-IsFound u (some found) none h k = absurd h
place-IsFound u (some found) (some place) (same, at) (listed, fid) =
    (dir_part found.dir place.entries at listed, subst (λ f. Every IsListed f) (sym same) fid)
  where
    dir_part :
        (d : Option ℕ) (entries : Option (List DirEntry))
        → IsAt u d entries
        → Every (All IsListed) entries
        → Every (λ d. (d < u.used) × All IsListed (u.cells d).entries) d
    dir_part none entries at k = tt
    dir_part (some d) none at k = absurd at
    dir_part (some d) (some entries) (lt, e) k = (lt, subst (λ l. All IsListed l) (sym e) k)

-- What holds for a directory stream between any two calls: it is on a directory in the cache,
-- and has its entries, which are listed ones.
abbrev pub IsDirState : DirTree → UdfDir → Type 0
IsDirState t p = (p.dir < t.used) × ((t.cells p.dir).entries ≡ p.files) × All IsListed p.files

new_udfdir-IsDirState :
    (u : DirTree) (d : Option ℕ)
    → Every (λ d. (d < u.used) × All IsListed (u.cells d).entries) d
    → Every (IsDirState u) (new_udfdir u d)
unfolding new_udfdir
new_udfdir-IsDirState u none k = tt
new_udfdir-IsDirState u (some d) (lt, all) = (lt, refl, all)

pub IsListed-at :
    (files : List DirEntry) (i : ℕ) (fi : DirEntry)
    → All IsListed files
    → file_at files i ≡ some fi
    → IsListed fi
unfolding file_at
IsListed-at [] i fi h at = absurd cc
IsListed-at (e ∷ files) zero fi h at = subst (λ o. Every IsListed o) at h.0
IsListed-at (e ∷ files) (suc i) fi h at = IsListed-at files i fi h.1 at

module _ (fs : UdfFs) (fuel : ℕ) where
  read_entries-Safe :
      (fi : DirEntry) → IsListed fi → Safe (Every (All IsListed)) (read_entries fs fuel fi)
  unfolding read_entries
  read_entries-Safe fi h =
      Safe-bind _ (udf_read_dir fs fuel fi.icb []) _
        (udf_read_dir-Safe fs fuel fi.icb [] (omega (arith, h.2.0)) h.2.3) (λ r k. found r k)
    where
      found :
          (r : Bool × List DirEntry)
          → Appends [] r.1
          → Every (All IsListed) (found_entries fs fuel r)
      found (false, entries) k = tt
      found (true, entries) (more, e, all) = subst (λ l. All IsListed l) (sym e) all

  subdir_entries-Safe :
      (fi : DirEntry) → IsListed fi → Safe (Every (All IsListed)) (subdir_entries fs fuel fi)
  unfolding subdir_entries
  subdir_entries-Safe fi h = elim (Bool-cases (is_dir fi)) [
    | inl dir ↦ rw dir (read_entries-Safe fi h)
    | inr file ↦ rw file tt
  ]

  walk-Safe :
      (entries : List DirEntry) (fid : Option DirEntry) (rest : List (List ℕ))
      → All IsListed entries
      → Every IsListed fid
      → Safe (Every IsListedPlace) (walk fs fuel entries fid rest)
  unfolding walk
  walk-Safe entries fid [] h k = (h, k)
  walk-Safe entries fid (token ∷ rest) h k = elim (Option-cases (named entries token)) [
    | inl missing ↦ rw (missing, walk) tt
    | inr (fi, found) ↦
        let listed : IsListed fi =
          subst (λ o. Every IsListed o) found (named-IsListed entries token h) in
        elim (Bool-cases (is_dir fi)) [
          | inr file ↦ rw (found, file, walk) (file_place-IsListed fi rest listed)
          | inl dir ↦
              rw (found, dir, walk)
                (Safe-bind _ (read_entries fs fuel fi) _ (read_entries-Safe fi listed) (elim [
                  | none ↦ λ u. tt
                  | some below ↦ λ all. walk-Safe below (some fi) rest all listed
                ]))
        ]
  ]

  pub find_file-Safe :
      (t : DirTree) (path : List ℕ)
      → IsTree fs fuel t
      → All IsListed (t.cells root_dir).entries
      → Safe (λ r. Grows t r.1 × IsTree fs fuel r.1 × IsFound r.1 r.0) (find_file fs fuel t path)
  find_file-Safe t path h listed =
      Agrees-Safe (IsLookup fs fuel t) (Every IsListedPlace) _ (find_file fs fuel t path) _
        (find_file-IsLookup fs fuel t path h)
        (walk-Safe (t.cells root_dir).entries none (tokens path) listed tt)
        (λ r place (g, tree, at) k. (g, tree, place-IsFound r.1 r.0 place at k))

  -- What an open leaves: the cache has grown and still is what the disc has, and what holds for
  -- the stream or the file holds.
  abbrev pub IsSafeOpen :
      {A : Type 0} → (DirTree → A → Type 0) → DirTree → Option A × DirTree → Type 0
  IsSafeOpen P t r = Grows t r.1 × IsTree fs fuel r.1 × Every (P r.1) r.0

  stream_of-IsSafeOpen :
      (t : DirTree) (r : Option Target × DirTree)
      → Grows t r.1
      → IsTree fs fuel r.1
      → IsFound r.1 r.0
      → IsSafeOpen IsDirState t (stream_of r)
  unfolding stream_of
  stream_of-IsSafeOpen t (none, u) g h k = (g, h, tt)
  stream_of-IsSafeOpen t (some found, u) g h k = (g, h, new_udfdir-IsDirState u found.dir k.0)

  pub udfread_opendir-Safe :
      (t : DirTree) (path : List ℕ)
      → IsTree fs fuel t
      → All IsListed (t.cells root_dir).entries
      → Safe (IsSafeOpen IsDirState t) (udfread_opendir fs fuel t path)
  unfolding udfread_opendir
  udfread_opendir-Safe t [] h listed = (Grows-refl t, h, tt)
  udfread_opendir-Safe t (ch ∷ path) h listed =
      Safe-bind _ (find_file fs fuel t (ch ∷ path)) _ (find_file-Safe t (ch ∷ path) h listed)
        (λ r k. stream_of-IsSafeOpen t r k.0 k.1 k.2)

  -- A subdirectory from the cache.
  cached-IsSafeOpen :
      (t : DirTree) (r : Option ℕ × DirTree) (sub : Option (List DirEntry))
      → IsCached fs fuel t r sub
      → Every (All IsListed) sub
      → IsSafeOpen IsDirState t (new_udfdir r.1 r.0, r.1)
  unfolding new_udfdir
  cached-IsSafeOpen t (none, u) none (g, h) k = (g, h, tt)
  cached-IsSafeOpen t (none, u) (some entries) c k = absurd c
  cached-IsSafeOpen t (some d, u) none c k = absurd c
  cached-IsSafeOpen t (some d, u) (some entries) (g, h, lt, e) k =
      (g, h, (lt, refl, subst (λ l. All IsListed l) (sym e) k))

  open_subdir-Safe :
      (t : DirTree) (p : UdfDir) (i : ℕ) (fi : DirEntry)
      → IsTree fs fuel t
      → IsDirState t p
      → file_at p.files i ≡ some fi
      → Safe
          (IsSafeOpen IsDirState t)
          (cache_subdir fs fuel t p.dir i >>= λ r. done (new_udfdir r.1 r.0, r.1))
  open_subdir-Safe t p i fi h (lt, e, all) at =
      Safe-bind _ (cache_subdir fs fuel t p.dir i) _
        (Agrees-Safe (IsCached fs fuel t) (Every (All IsListed))
          (λ r. IsSafeOpen IsDirState t (new_udfdir r.1 r.0, r.1)) (cache_subdir fs fuel t p.dir i)
          (subdir_entries fs fuel fi)
          (cache_subdir-IsCached fs fuel t p.dir i fi h lt (ap (λ l. file_at l i) e ∙ at))
          (subdir_entries-Safe fi (IsListed-at p.files i fi all at))
          (λ r sub c k. cached-IsSafeOpen t r sub c k))
        (λ r k. k)

  pub udfread_opendir_at-Safe :
      (t : DirTree) (p : UdfDir) (name : List ℕ)
      → IsTree fs fuel t
      → IsDirState t p
      → Safe (IsSafeOpen IsDirState t) (udfread_opendir_at fs fuel t p name)
  unfolding udfread_opendir_at
  udfread_opendir_at-Safe t p [] h k = (Grows-refl t, h, tt)
  udfread_opendir_at-Safe t p (ch ∷ name) h k = elim (Option-cases (scan_dir p.files (ch ∷ name))) [
    | inl missing ↦ rw (missing, udfread_opendir_at) (Grows-refl t, h, tt)
    | inr (i, found) ↦
        let (fi, at, same) = named_at p.files (ch ∷ name) i found in
        rw (found, udfread_opendir_at) (open_subdir-Safe t p i fi h k at)
  ]
