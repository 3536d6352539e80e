-- ===== src/Tree/Cleaning/Frees.antt =====
-- What `_clean_tree` of src/udfread.c frees: each cached directory once.
use libudfread.Common.{
  ℕ, ◌≤◌, ◌<◌, ◌≡◌, ◌≢◌, ◌⊎◌, inl, inr, refl, sym, ap, ◌∙◌, arith, subst, ◌==◌, ◌∷◌, length,
  Bool-cases, ==→eq, ==_false→ne,
}
use libudfread.Tree.{DirTree, pointer_in}
use libudfread.Tree.Forest.{IsPointer, IsForest, IsForest-same}
use libudfread.Tree.Cleaning.{Cleaning, times, clear_slot}
use libudfread.Tree.Cleaning.Slots.{
  clear_slot_entries, clear_slot_used, clear_slot_other, clear_slot_freed, clear_slot_left,
  clear_slot_kept, times_same, times_other, times_more, same_target,
}

module _ (t : DirTree) where
  -- What holds while the tree `t` is cleaned: it stays a tree with every pointer at an entry, what
  -- has been freed is not linked and links nothing, and what is no longer linked has been freed,
  -- once.
  pub record IsCleaning (s : Cleaning) : Type 0 where
    pub used : s.tree.used ≡ t.used
    pub forest : IsForest s.tree
    pub inside : (d i c : ℕ) → IsPointer s.tree d i c → i < length (s.tree.cells d).entries
    pub gone :
        (c : ℕ)
        → times c s.freed ≢ 0
        → ((d i : ℕ) → ¬ IsPointer s.tree d i c) × ((i e : ℕ) → ¬ IsPointer s.tree c i e)
    pub left : (d i c : ℕ) → IsPointer t d i c → IsPointer s.tree d i c ⊎ (times c s.freed ≢ 0)
    pub once : (c : ℕ) → times c s.freed ≤ 1

  -- From one such state to a later one, in which what is below directory `d` has been cleaned.
  pub record Cleans (d : ℕ) (s s' : Cleaning) : Type 0 where
    pub cleaning : IsCleaning s'
    pub kept : (e : ℕ) → e < d → s'.tree.cells e ≡ s.tree.cells e
    pub unfreed : (c : ℕ) → c ≤ d → times c s.freed ≡ 0 → times c s'.freed ≡ 0
    pub fewer : (e i c : ℕ) → IsPointer s'.tree e i c → IsPointer s.tree e i c

  pub Cleans-refl : (d : ℕ) (s : Cleaning) → IsCleaning s → Cleans d s s
  Cleans-refl d s h = record {
    cleaning = h;
    kept = λ e lt. refl;
    unfreed = λ c le e. e;
    fewer = λ e i c p. p;
  }

  pub Cleans-trans : (d : ℕ) (a b c : Cleaning) → Cleans d a b → Cleans d b c → Cleans d a c
  Cleans-trans d a b c h k = record {
    cleaning = k.cleaning;
    kept = λ e lt. k.kept e lt ∙ h.kept e lt;
    unfreed = λ x le e. k.unfreed x le (h.unfreed x le e);
    fewer = λ e i x p. h.fewer e i x (k.fewer e i x p);
  }

  -- the slot `i` of `d` is empty
  abbrev pub IsEmpty : ℕ → ℕ → Cleaning → Type 0
  IsEmpty d i s = (c : ℕ) → ¬ IsPointer s.tree d i c

  -- `d` is cleaned
  abbrev pub IsClean : ℕ → Cleaning → Type 0
  IsClean d s = (i : ℕ) → IsEmpty d i s

  abbrev pub SameEntries : ℕ → Cleaning → Cleaning → Type 0
  SameEntries d s s' = (s'.tree.cells d).entries ≡ (s.tree.cells d).entries

  -- Directory `c` has been cleaned; it is freed, and the slot that leads there cleared.
  pub unlinked-Cleans :
      (d i c : ℕ) (s s' : Cleaning)
      → IsPointer s.tree d i c
      → IsCleaning s
      → Cleans c s s'
      → IsClean c s'
      → Cleans d s (clear_slot (record s' { freed = c ∷ s'.freed }) d i)
        × IsEmpty d i (clear_slot (record s' { freed = c ∷ s'.freed }) d i)
        × SameEntries d s (clear_slot (record s' { freed = c ∷ s'.freed }) d i)
  unlinked-Cleans d i c s s' p h cl clean = (
    record {
      cleaning = cleaning;
      kept =
          λ e lt. clear_slot_other u d i e (λ eq. omega arith) ∙ cl.kept e (omega (arith, below));
      unfreed = λ b le e.
          ap (times b) (clear_slot_freed u d i)
          ∙ times_other b c s'.freed (λ eq. omega (arith, below))
          ∙ cl.unfreed b (omega (arith, below)) e;
      fewer = λ e j b q. cl.fewer e j b (clear_slot_left u d i e j b q).0;
    },
    λ b q. (clear_slot_left u d i d i b q).1 refl refl,
    clear_slot_entries u d i d ∙ ap (λ cell. cell.entries) (cl.kept d below),
  )
    where
      u : Cleaning
      u = record s' { freed = c ∷ s'.freed }

      below : d < c
      below = (h.forest.up d i c p).0

      there : IsPointer s'.tree d i c
      there = (
        omega (arith, p.0, cl.cleaning.used, h.used),
        ap (λ cell. pointer_in cell.subdirs i) (cl.kept d below) ∙ p.1,
      )

      gone :
          (b : ℕ)
          → times b (c ∷ s'.freed) ≢ 0
          → ((e j : ℕ) → ¬ IsPointer (clear_slot u d i).tree e j b)
            × ((j e : ℕ) → ¬ IsPointer (clear_slot u d i).tree b j e)
      gone b freed = elim (Bool-cases (c == b)) [
        | inl same ↦
            let is : c ≡ b = ==→eq c b same in
            (
              (λ e j q.
                  let (was, not_here) = clear_slot_left u d i e j b q in
                  let (ed, ji) =
                    cl.cleaning.forest.unique e j d i b was
                      (subst (λ b. IsPointer s'.tree d i b) is there) in
                  not_here ed ji),
              (λ j e q. clean j e (
                  subst (λ b. IsPointer s'.tree b j e) (sym is) (clear_slot_left u d i b j e q).0)),
            )
        | inr other ↦
            let before : times b s'.freed ≢ 0 =
              λ e. freed (times_other b c s'.freed (==_false→ne c b other) ∙ e) in
            let (no_in, no_out) = cl.cleaning.gone b before in
            (
              (λ e j q. no_in e j (clear_slot_left u d i e j b q).0),
              (λ j e q. no_out j e (clear_slot_left u d i b j e q).0),
            )
      ]

      times_of : (b : ℕ) → c ≡ b → times b (c ∷ s'.freed) ≢ 0
      times_of b is e =
          let one : times c (c ∷ s'.freed) ≡ 0 =
            subst (λ b. times b (c ∷ s'.freed) ≡ 0) (sym is) e in
          omega (arith, times_same c s'.freed)

      fresh : times c s'.freed ≡ 0
      fresh = elim (Bool-cases (times c s'.freed == 0)) [
        | inl zero' ↦ ==→eq _ _ zero'
        | inr freed ↦ absurd ((cl.cleaning.gone c (==_false→ne _ _ freed)).0 d i there)
      ]

      left :
          (e j b : ℕ)
          → IsPointer t e j b
          → IsPointer (clear_slot u d i).tree e j b ⊎ (times b (c ∷ s'.freed) ≢ 0)
      left e' j b q = elim (cl.cleaning.left e' j b q) [
        | inr freed ↦ inr (times_more b c s'.freed freed)
        | inl still ↦ elim (clear_slot_kept u d i e' j b still) [
          | inr kept ↦ inl kept
          | inl (ed, ji) ↦
              inr (λ e. times_of b (same_target s'.tree d i c e' j b there still ed ji) e)
        ]
      ]

      once : (b : ℕ) → times b (c ∷ s'.freed) ≤ 1
      once b = elim (Bool-cases (c == b)) [
        | inl same ↦
            subst (λ b. times b (c ∷ s'.freed) ≤ 1) (==→eq c b same)
              (omega (arith, times_same c s'.freed, fresh))
        | inr other ↦
            omega (arith, times_other b c s'.freed (==_false→ne c b other), cl.cleaning.once b)
      ]

      cleaning : IsCleaning (clear_slot u d i)
      cleaning = record {
        used = clear_slot_used u d i ∙ cl.cleaning.used;
        forest =
            IsForest-same s'.tree (clear_slot u d i).tree cl.cleaning.forest
              (omega (arith, clear_slot_used u d i)) (λ e j b q. (clear_slot_left u d i e j b q).0);
        inside = λ e j b q.
            subst (λ l. j < length l) (sym (clear_slot_entries u d i e))
              (cl.cleaning.inside e j b (clear_slot_left u d i e j b q).0);
        gone = λ b freed. gone b (λ e. freed (ap (times b) (clear_slot_freed u d i) ∙ e));
        left = λ e j b q. elim (left e j b q) [
          | inl still ↦ inl still
          | inr freed ↦ inr (λ z. freed (ap (times b) (sym (clear_slot_freed u d i)) ∙ z))
        ];
        once = λ b. omega (arith, ap (times b) (clear_slot_freed u d i), once b);
      }
