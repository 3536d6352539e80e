-- ===== src/Directory/Reading.antt =====
-- What a caller of udfread_readdir in src/udfread.c sees, and what _scan_dir finds.
use mathlib.Core.List.{append_assoc, append-nil}
use libudfread.Common.{
  ℕ, zero, suc, ◌+◌, ◌^◌, ◌<◌, ◌≡◌, refl, sym, ap, ◌∙◌, arith, true, false, List, [], ◌∷◌, ◌++◌,
  map, length, length-append, All, Option, none, some, Bool-cases, inl, inr,
}
use libudfread.Fs.Dir.{DirEntry}
use libudfread.Directory.{
  same_name, scan_from, scan_dir, file_at, Dirent, dirent_of, UdfDir, udfread_readdir,
  udfread_rewinddir,
}

-- A caller that reads until NULL, `n` times at most.
unfoldable pub read_all : ℕ → UdfDir → List Dirent
read_all zero p = []
read_all (suc n) p =
    let (r, p') = udfread_readdir p in elim r [ none ↦ [] | some d ↦ d ∷ read_all n p' ]

file_at-length : (front : List DirEntry) → file_at front (length front) ≡ none
unfolding file_at
file_at-length [] = refl
file_at-length (e ∷ front) = file_at-length front

file_at-append :
    (front back : List DirEntry) (e : DirEntry)
    → file_at (front ++ (e ∷ back)) (length front) ≡ some e
unfolding file_at
file_at-append [] back e = refl
file_at-append (x ∷ front) back e = file_at-append front back e

read_all-append :
    (d : ℕ) (back front files : List DirEntry) (i : ℕ)
    → files ≡ front ++ back
    → i ≡ length front
    → length files < 2 ^ 32
    → read_all (length back + 1) (record { dir = d; files = files; current_file = i })
      ≡ map dirent_of back
unfolding read_all udfread_readdir
read_all-append d [] front files i e k h =
    ground (arith, file_at-length front, e, k, append-nil front)
read_all-append d (x ∷ back) front files i e k h = ground (
  arith,
  file_at-append front back x,
  e,
  k,
  length-append front (x ∷ back),
  read_all-append d back (front ++ (x ∷ [])) files (i + 1)
      (e ∙ sym (append_assoc front (x ∷ []) back)) (omega (arith, length-append front (x ∷ []))) h,
)

-- A stream that is rewound gives the entries of the directory, each once and in order, and then
-- NULL. There are fewer than 2 ^ 32 of them.
pub readdir-rewinddir :
    (p : UdfDir)
    → length p.files < 2 ^ 32
    → read_all (length p.files + 1) (udfread_rewinddir p) ≡ map dirent_of p.files
unfolding udfread_rewinddir
readdir-rewinddir p h = read_all-append p.dir p.files [] p.files 0 refl refl h

abbrev Differs : List ℕ → DirEntry → Type 0
Differs filename e = same_name filename e.filename ≡ false

-- What a search from index `base` on returns: -1 if no entry has the name, or the index of the
-- first that has it.
abbrev pub IsScan : List DirEntry → List ℕ → ℕ → Option ℕ → Type 0
IsScan files filename base none = All (Differs filename) files
IsScan files filename base (some i) =
    (front : List DirEntry) × (e : DirEntry) × (back : List DirEntry) × (files
      ≡ front ++ (e ∷ back))
    × (i ≡ base + length front)
    × All (Differs filename) front
    × (same_name filename e.filename ≡ true)

skip-IsScan :
    (x : DirEntry) (files : List DirEntry) (filename : List ℕ) (base : ℕ) (r : Option ℕ)
    → Differs filename x
    → IsScan files filename (base + 1) r
    → IsScan (x ∷ files) filename base r
skip-IsScan x files filename base none d k = (d, k)
skip-IsScan x files filename base (some i) d (front, e, back, split, index, before, same) =
    (x ∷ front, e, back, ap (λ l. x ∷ l) split, omega arith, (d, before), same)

scan_from-IsScan :
    (files : List DirEntry) (filename : List ℕ) (base : ℕ)
    → IsScan files filename base (scan_from files filename base)
unfolding scan_from
scan_from-IsScan [] filename base = tt
scan_from-IsScan (x ∷ files) filename base = elim (Bool-cases (same_name filename x.filename)) [
  | inl same ↦ rw same ([], x, files, refl, omega arith, tt, same)
  | inr other ↦ rw other (
      skip-IsScan x files filename base (scan_from files filename (base + 1)) other
        (scan_from-IsScan files filename (base + 1)))
]

-- `_scan_dir` returns -1 exactly if no entry has the name, and else the first entry that has it.
pub scan_dir_lem :
    (files : List DirEntry) (filename : List ℕ) → IsScan files filename 0 (scan_dir files filename)
unfolding scan_dir
scan_dir_lem files filename = scan_from-IsScan files filename 0
