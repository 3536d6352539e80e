-- ===== src/Tree/Cleaning/Slots.antt =====
-- Clearing a slot and freeing a directory in `_clean_tree` of src/udfread.c.
use libudfread.Common.{
  ℕ, suc, ◌≡◌, ◌≢◌, ◌⊎◌, inl, inr, refl, sym, ◌∙◌, arith, ◌==◌, ◌&&◌, if◌then◌else◌, List, ◌∷◌,
  none, some, Bool-cases, Option-cases, ==→eq,
}
use mathlib.Core.Path.{subst₂}
use libudfread.Tree.{DirTree, set_cell, pointer_in}
use libudfread.Tree.Forest.{IsPointer}
use libudfread.Tree.Cleaning.{Cleaning, times, without, clear_slot}

pub clear_slot_pointer :
    (s : Cleaning) (d i e j : ℕ)
    → pointer_in ((clear_slot s d i).tree.cells e).subdirs j
      ≡ (if e == d && j == i then none else pointer_in (s.tree.cells e).subdirs j)
unfolding clear_slot set_cell without pointer_in
clear_slot_pointer s d i e j = elim (Bool-cases (e == d)) [
  | inr other ↦ rw other refl
  | inl same ↦
      let there : e ≡ d = ==→eq e d same in
      elim (Option-cases (s.tree.cells d).subdirs) [
        | inl empty ↦ rw (same, there, empty, without, pointer_in) (ground arith)
        | inr (subdirs, e) ↦ rw (same, there, e, without, pointer_in) (ground arith)
      ]
]

pub clear_slot_entries :
    (s : Cleaning) (d i e : ℕ)
    → ((clear_slot s d i).tree.cells e).entries ≡ (s.tree.cells e).entries
unfolding clear_slot set_cell
clear_slot_entries s d i e = ground arith

pub clear_slot_used : (s : Cleaning) (d i : ℕ) → (clear_slot s d i).tree.used ≡ s.tree.used
unfolding clear_slot set_cell
clear_slot_used s d i = refl

pub clear_slot_other :
    (s : Cleaning) (d i e : ℕ) → e ≢ d → (clear_slot s d i).tree.cells e ≡ s.tree.cells e
unfolding clear_slot set_cell
clear_slot_other s d i e ne = ground arith

pub clear_slot_freed : (s : Cleaning) (d i : ℕ) → (clear_slot s d i).freed ≡ s.freed
unfolding clear_slot
clear_slot_freed s d i = refl

-- a pointer that is left when a slot has been cleared
pub clear_slot_left :
    (s : Cleaning) (d i e j c : ℕ)
    → IsPointer (clear_slot s d i).tree e j c
    → IsPointer s.tree e j c × (e ≡ d → j ≡ i → ⊥)
clear_slot_left s d i e j c (lt, p) = elim (Bool-cases (e == d && j == i)) [
  | inl here ↦ let gone : none ≡ some c = ground (arith, clear_slot_pointer s d i e j) in absurd cc
  | inr there ↦ (
    (omega (arith, clear_slot_used s d i), ground (arith, clear_slot_pointer s d i e j)),
    λ a b. ground arith,
  )
]

pub clear_slot_kept :
    (s : Cleaning) (d i e j c : ℕ)
    → IsPointer s.tree e j c
    → ((e ≡ d) × (j ≡ i)) ⊎ IsPointer (clear_slot s d i).tree e j c
clear_slot_kept s d i e j c (lt, p) = elim (Bool-cases (e == d && j == i)) [
  | inl here ↦ inl (ground arith, ground arith)
  | inr there ↦
      inr (omega (arith, clear_slot_used s d i), ground (arith, clear_slot_pointer s d i e j))
]

pub times_same : (c : ℕ) (list : List ℕ) → times c (c ∷ list) ≡ suc (times c list)
unfolding times
times_same c list = ground arith

pub times_other : (b c : ℕ) (list : List ℕ) → c ≢ b → times b (c ∷ list) ≡ times b list
unfolding times
times_other b c list ne = ground arith

pub times_more : (b c : ℕ) (list : List ℕ) → times b list ≢ 0 → times b (c ∷ list) ≢ 0
unfolding times
times_more b c list h e = elim (Bool-cases (c == b)) [
  | inl same ↦ ground arith
  | inr other ↦ h (ground arith)
]

-- Two pointers in one slot are the same.
pub same_target :
    (t : DirTree) (d i c e j b : ℕ) → IsPointer t d i c → IsPointer t e j b → e ≡ d → j ≡ i → c ≡ b
same_target t d i c e j b (lt, p) (lt', q) ed ji =
    let r : pointer_in (t.cells d).subdirs i ≡ some b =
      subst₂ (λ e j. pointer_in (t.cells e).subdirs j ≡ some b) ed ji q in
    let both : some c ≡ some b = sym p ∙ r in cc
