-- ===== src/Tree/Forest.antt =====
-- The shape of the directory cache of src/udfread.c: a tree, in which a directory is newer than the
-- one that it is linked from.
use libudfread.Common.{ℕ, ◌≤◌, ◌<◌, ◌≡◌, ◌⊎◌, inl, inr, sym, ◌∙◌, arith, subst, some}
use libudfread.Tree.{DirTree, pointer_in, with_array}
use libudfread.Tree.Grows.{with_array_kept, with_array_used}

abbrev pub IsPointer : DirTree → ℕ → ℕ → ℕ → Type 0
IsPointer t d i c = (d < t.used) × (pointer_in (t.cells d).subdirs i ≡ some c)

pub record IsForest (t : DirTree) : Type 0 where
  pub up : (d i c : ℕ) → IsPointer t d i c → (d < c) × (c < t.used)
  pub unique : (d i e j c : ℕ) → IsPointer t d i c → IsPointer t e j c → (d ≡ e) × (i ≡ j)

-- A store with no pointers but those of another one.
pub IsForest-same :
    (t t' : DirTree)
    → IsForest t
    → t.used ≤ t'.used
    → ((d i c : ℕ) → IsPointer t' d i c → IsPointer t d i c)
    → IsForest t'
IsForest-same t t' h more old = record {
  up = λ d i c p. let (up, lt) = h.up d i c (old d i c p) in (up, omega arith);
  unique = λ d i e j c p q. h.unique d i e j c (old d i c p) (old e j c q);
}

-- A store with one pointer more, to a directory that no pointer led to.
pub IsForest-add :
    (t t' : DirTree) (d i c : ℕ)
    → IsForest t
    → t.used ≤ t'.used
    → d < c
    → c < t'.used
    → ((e j : ℕ) → ¬ IsPointer t e j c)
    → ((e j b : ℕ) → IsPointer t' e j b → IsPointer t e j b ⊎ ((e ≡ d) × (j ≡ i) × (c ≡ b)))
    → IsForest t'
IsForest-add t t' d i c h more d_c c_lt unlinked old = record { up = up; unique = unique }
  where
    up : (e j b : ℕ) → IsPointer t' e j b → (e < b) × (b < t'.used)
    up e j b p = elim (old e j b p) [
      | inl was ↦ let (lo, hi) = h.up e j b was in (lo, omega arith)
      | inr (ed, ji, cb) ↦ (omega arith, omega arith)
    ]

    no : (e j b : ℕ) → c ≡ b → IsPointer t e j b → ⊥
    no e j b cb p = unlinked e j (subst (λ b. IsPointer t e j b) (sym cb) p)

    unique : (e j e' j' b : ℕ) → IsPointer t' e j b → IsPointer t' e' j' b → (e ≡ e') × (j ≡ j')
    unique e j e' j' b p q = elim (old e j b p) [
      | inl was ↦ elim (old e' j' b q) [
        | inl was' ↦ h.unique e j e' j' b was was'
        | inr (ed, ji, cb) ↦ absurd (no e j b cb was)
      ]
      | inr (ed, ji, cb) ↦ elim (old e' j' b q) [
        | inl was' ↦ absurd (no e' j' b cb was')
        | inr (ed', ji', cb') ↦ (omega arith, omega arith)
      ]
    ]

pub with_array-IsForest : (t : DirTree) (d : ℕ) → IsForest t → IsForest (with_array t d)
with_array-IsForest t d h =
    IsForest-same t (with_array t d) h (omega (arith, with_array_used t d))
      (λ e i c (lt, p). (omega (arith, with_array_used t d), sym (with_array_kept t d e i) ∙ p))
