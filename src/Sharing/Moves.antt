-- ===== src/Sharing/Moves.antt =====
-- What the exchanges of `_cache_subdir` in src/udfread.c do to the store of directories.
use libudfread.Common.{
  ℕ, ◌<◌, ◌≡◌, ◌⊎◌, inl, inr, refl, sym, ap, ◌∙◌, arith, List, Option, none, some, Bool-cases,
  Option-cases, ◌==◌, ◌&&◌, if◌then◌else◌, ==→eq,
}
use libudfread.Fs.Dir.{DirEntry}
use libudfread.Tree.{DirTree, set_cell, set_pointer, with_array, pointer_in}
use libudfread.Tree.Grows.{Grows-refl, with_array_used, with_array_kept, with_array-Grows}
use libudfread.Sharing.{World, exchange_array, add_cell, set_slot, free_cell}
use libudfread.Sharing.Invariant.{HasArray, Later}

pub Later-refl : (own : Option ℕ) (w : World) → Later own w w
Later-refl own w = record {
  grows = Grows-refl w.tree;
  arrays = λ d lt a. a;
  links = λ c h. inl h;
  frees = λ c h. inl h;
}

set_cell_array :
    (t : DirTree) (d e : ℕ) (subdirs : ℕ → Option ℕ)
    → HasArray t e
    → HasArray (set_cell t d (record (t.cells d) { subdirs = some subdirs })) e
unfolding set_cell
set_cell_array t d e subdirs h = elim (Bool-cases (e == d)) [
  | inl here ↦ rw here (subdirs, refl)
  | inr there ↦ rw there h
]

with_array_arrays : (t : DirTree) (d e : ℕ) → HasArray t e → HasArray (with_array t d) e
unfolding with_array
with_array_arrays t d e h = elim (Option-cases (t.cells d).subdirs) [
  | inl empty ↦ rw (empty, with_array) (set_cell_array t d e (λ i. none) h)
  | inr (s, here) ↦ rw (here, with_array) h
]

with_array_has : (t : DirTree) (d : ℕ) → HasArray (with_array t d) d
unfolding with_array set_cell
with_array_has t d = elim (Option-cases (t.cells d).subdirs) [
  | inl empty ↦ rw (empty, with_array) ((λ i. none), ground arith)
  | inr (s, here) ↦ rw (here, with_array) (s, here)
]

pub exchange_array-Later : (w : World) (d : ℕ) → Later none w (exchange_array w d)
unfolding exchange_array
exchange_array-Later w d = record {
  grows = with_array-Grows w.tree d;
  arrays = λ e lt a. with_array_arrays w.tree d e a;
  links = λ c (e, j, lt, p).
      inl (e, j, omega (arith, with_array_used w.tree d), sym (with_array_kept w.tree d e j) ∙ p);
  frees = λ c h. inl h;
}

pub exchange_array-HasArray : (w : World) (d : ℕ) → HasArray (exchange_array w d).tree d
unfolding exchange_array
exchange_array-HasArray w d = with_array_has w.tree d

pub add_cell_pointer :
    (w : World) (entries : List DirEntry) (e j c : ℕ)
    → e < (add_cell w entries).tree.used
    → pointer_in ((add_cell w entries).tree.cells e).subdirs j ≡ some c
    → (e < w.tree.used) × (pointer_in (w.tree.cells e).subdirs j ≡ some c)
unfolding add_cell set_cell pointer_in
add_cell_pointer w entries e j c lt p = elim (Bool-cases (e == w.tree.used)) [
  | inl new ↦ absurd (none_some c (ground arith))
  | inr old ↦ (ground arith, ground arith)
]
  where
    none_some : (c : ℕ) → none ≡ some c → ⊥
    none_some c h = cc

pub add_cell-Later : (w : World) (entries : List DirEntry) → Later none w (add_cell w entries)
unfolding add_cell set_cell
add_cell-Later w entries = record {
  grows = record {
    more = omega arith;
    same = λ d lt. ground arith;
    kept = λ d i c lt p. ground arith;
  };
  arrays = λ d lt (s, e). (s, ground arith);
  links = λ c (e, j, lt, p).
      let (below, old) = add_cell_pointer w entries e j c lt p in inl (e, j, below, old);
  frees = λ c h. inl h;
}

pub set_slot_pointer :
    (w : World) (d i c e j : ℕ)
    → pointer_in ((set_slot w d i c).tree.cells e).subdirs j
      ≡ (if e == d && j == i then some c else pointer_in (w.tree.cells e).subdirs j)
unfolding set_slot set_cell set_pointer pointer_in
set_slot_pointer w d i c e j = ground arith

pub set_slot_same :
    (w : World) (d i c e : ℕ) → ((set_slot w d i c).tree.cells e).entries ≡ (w.tree.cells e).entries
unfolding set_slot set_cell
set_slot_same w d i c e = ground arith

pub set_slot_used : (w : World) (d i c : ℕ) → (set_slot w d i c).tree.used ≡ w.tree.used
unfolding set_slot set_cell
set_slot_used w d i c = refl

pub set_slot_freed : (w : World) (d i c e : ℕ) → (set_slot w d i c).freed e ≡ w.freed e
unfolding set_slot
set_slot_freed w d i c e = refl

-- a pointer of the store with the new one in it
pub set_slot_old :
    (w : World) (d i c e j b : ℕ)
    → pointer_in ((set_slot w d i c).tree.cells e).subdirs j ≡ some b
    → (pointer_in (w.tree.cells e).subdirs j ≡ some b) ⊎ ((e ≡ d) × (j ≡ i) × (c ≡ b))
set_slot_old w d i c e j b p = elim (Bool-cases (e == d && j == i)) [
  | inl new ↦ inr (ground arith, ground arith, ground (arith, set_slot_pointer w d i c e j))
  | inr old ↦ inl (ground (arith, set_slot_pointer w d i c e j))
]

pub set_slot-Later :
    (w : World) (d i c : ℕ)
    → pointer_in (w.tree.cells d).subdirs i ≡ none
    → Later (some c) w (set_slot w d i c)
unfolding set_slot
set_slot-Later w d i c empty = record {
  grows = record {
    more = omega (arith, set_slot_used w d i c);
    same = λ e lt. set_slot_same w d i c e;
    kept = λ e j b lt p. ground (arith, set_slot_pointer w d i c e j);
  };
  arrays = λ e lt h. set_cell_array w.tree d e _ h;
  links = λ b (e, j, lt, p). elim (set_slot_old w d i c e j b p) [
    | inl old ↦ inl (e, j, omega (arith, set_slot_used w d i c), old)
    | inr (ed, ji, same) ↦ inr (ap (λ n. some n) same)
  ];
  frees = λ b h. inl h;
}

pub free_cell-Later : (w : World) (c : ℕ) → Later (some c) w (free_cell w c)
unfolding free_cell
free_cell-Later w c = record {
  grows = Grows-refl w.tree;
  arrays = λ d lt a. a;
  links = λ b h. inl h;
  frees = λ b h. elim (Bool-cases (b == c)) [
    | inl mine ↦ inr (ap (λ n. some n) (sym (==→eq _ _ mine)))
    | inr other ↦ inl (ground arith)
  ];
}
