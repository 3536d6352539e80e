-- ===== src/Tree/Grows.antt =====
-- Later states of the directory cache of src/udfread.c, in which nothing is lost.
use libudfread.Common.{ℕ, ◌≤◌, ◌<◌, ◌≡◌, refl, ◌∙◌, arith, some, Option-cases, inl, inr}
use libudfread.Tree.{DirTree, set_cell, pointer_in, with_array}

-- Later states of a store: directories keep their entries, and pointers that are set stay.
pub record Grows (t t' : DirTree) : Type 0 where
  pub more : t.used ≤ t'.used
  pub same : (d : ℕ) → d < t.used → (t'.cells d).entries ≡ (t.cells d).entries
  pub kept :
      (d i c : ℕ)
      → d < t.used
      → pointer_in (t.cells d).subdirs i ≡ some c
      → pointer_in (t'.cells d).subdirs i ≡ some c

pub Grows-refl : (t : DirTree) → Grows t t
Grows-refl t = record { more = omega arith; same = λ d h. refl; kept = λ d i c h e. e }

pub Grows-trans : (t u v : DirTree) → Grows t u → Grows u v → Grows t v
Grows-trans t u v g h = record {
  more = omega (arith, g.more, h.more);
  same = λ d l. h.same d (omega (arith, g.more)) ∙ g.same d l;
  kept = λ d i c l e. h.kept d i c (omega (arith, g.more)) (g.kept d i c l e);
}

-- Allocating the array of a directory changes no entry and no pointer.
pub with_array_used : (t : DirTree) (d : ℕ) → (with_array t d).used ≡ t.used
unfolding with_array set_cell
with_array_used t d = elim (Option-cases (t.cells d).subdirs) [
  | inl empty ↦ rw (empty, with_array) refl
  | inr (s, here) ↦ rw (here, with_array) refl
]

pub with_array_same :
    (t : DirTree) (d e : ℕ) → ((with_array t d).cells e).entries ≡ (t.cells e).entries
unfolding with_array set_cell
with_array_same t d e = elim (Option-cases (t.cells d).subdirs) [
  | inl empty ↦ rw (empty, with_array) (ground arith)
  | inr (s, here) ↦ rw (here, with_array) refl
]

pub with_array_kept :
    (t : DirTree) (d e i : ℕ)
    → pointer_in ((with_array t d).cells e).subdirs i ≡ pointer_in (t.cells e).subdirs i
unfolding with_array set_cell pointer_in
with_array_kept t d e i = elim (Option-cases (t.cells d).subdirs) [
  | inl empty ↦ rw (empty, with_array) (ground (arith, empty))
  | inr (s, here) ↦ rw (here, with_array) refl
]

pub with_array-Grows : (t : DirTree) (d : ℕ) → Grows t (with_array t d)
with_array-Grows t d = record {
  more = omega (arith, with_array_used t d);
  same = λ e h. with_array_same t d e;
  kept = λ e i c h k. with_array_kept t d e i ∙ k;
}
