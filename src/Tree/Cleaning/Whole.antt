-- ===== src/Tree/Cleaning/Whole.antt =====
-- `_clean_tree` of src/udfread.c as a whole: it ends, and frees each cached directory once.
use libudfread.Common.{
  ℕ, zero, suc, ◌+◌, ◌-◌, ◌≤◌, ◌<◌, ◌≡◌, ◌≢◌, ◌⊎◌, inl, inr, refl, sym, ap, ◌∙◌, arith, subst, ◌==◌,
  List, [], ◌∷◌, Option, none, some, length, Bool-cases, Option-cases, ==→eq, ==_false→ne, eq→==,
}
use libudfread.Memory.{Mem, Returns}
use libudfread.Memory.Words.{Returns-bind, Returns-weaken}
use libudfread.Fs.{UdfFs}
use libudfread.Fs.Dir.{DirEntry}
use libudfread.Directory.{file_at}
use libudfread.Tree.{DirTree, root_dir, set_cell, pointer_in}
use libudfread.Tree.Reading.{IsTree}
use libudfread.Tree.Forest.{IsPointer, IsForest-same}
use libudfread.Tree.Cleaning.{
  Cleaning, times, free_dir, clean_slot, clean_slots, clear_cell, clean_tree,
}
use libudfread.Tree.Cleaning.Frees.{
  IsCleaning, Cleans, Cleans-refl, Cleans-trans, IsEmpty, IsClean, SameEntries, unlinked-Cleans,
}

clear_cell_other : (s : Cleaning) (d e : ℕ) → e ≢ d → (clear_cell s d).tree.cells e ≡ s.tree.cells e
unfolding clear_cell set_cell
clear_cell_other s d e ne = ground arith

clear_cell_empty :
    (s : Cleaning) (d j : ℕ) → pointer_in ((clear_cell s d).tree.cells d).subdirs j ≡ none
unfolding clear_cell set_cell pointer_in
clear_cell_empty s d j = ground arith

clear_cell_rest :
    (s : Cleaning) (d : ℕ)
    → ((clear_cell s d).tree.used ≡ s.tree.used) × ((clear_cell s d).freed ≡ s.freed)
unfolding clear_cell set_cell
clear_cell_rest s d = (refl, refl)

clear_cell_left :
    (s : Cleaning) (d e j c : ℕ)
    → IsPointer (clear_cell s d).tree e j c
    → (e ≢ d) × IsPointer s.tree e j c
clear_cell_left s d e j c (lt, p) = (
  other,
  (
    omega (arith, (clear_cell_rest s d).0),
    ap (λ cell. pointer_in cell.subdirs j) (sym (clear_cell_other s d e other)) ∙ p,
  ),
)
  where
    other : e ≢ d
    other ed =
        let none_some : none ≡ some c =
          sym (clear_cell_empty s d j)
          ∙ subst (λ e. pointer_in ((clear_cell s d).tree.cells e).subdirs j ≡ some c) ed p in
        cc

no_array :
    (subdirs : Option (ℕ → Option ℕ)) (j c : ℕ) → subdirs ≡ none → pointer_in subdirs j ≡ some c → ⊥
unfolding pointer_in
no_array none j c e p = cc
no_array (some subdirs) j c e p = cc

file_at-lt :
    (files : List DirEntry) (i : ℕ) (fi : DirEntry) → file_at files i ≡ some fi → i < length files
unfolding file_at
file_at-lt [] i fi e = absurd cc
file_at-lt (x ∷ files) zero fi e = omega arith
file_at-lt (x ∷ files) (suc i) fi e = omega (arith, file_at-lt files i fi e)

-- the directories in the cache: the root, and those that pointers lead to from there
pub data IsKept (t : DirTree) : ℕ → Type 0 where
  at_root : IsKept t root_dir
  below : (d i c : ℕ) → IsKept t d → IsPointer t d i c → IsKept t c

module _ (t : DirTree) where
  -- What is known of `_clean_tree` on the directories below `d`.
  abbrev IsCleaner : ℕ → (Cleaning → ℕ → Mem Cleaning) → Type 0
  IsCleaner d clean =
      (s : Cleaning) (c : ℕ)
      → IsCleaning t s
      → times c s.freed ≡ 0
      → c < s.tree.used
      → d < c
      → Returns (λ s'. Cleans t c s s' × IsClean t c s') (clean s c)

  clean_slot-Cleans :
      (clean : Cleaning → ℕ → Mem Cleaning) (s : Cleaning) (d i : ℕ)
      → IsCleaner d clean
      → IsCleaning t s
      → d < s.tree.used
      → Returns
          (λ s'. Cleans t d s s' × IsEmpty t d i s' × SameEntries t d s s')
          (clean_slot clean s d i)
  unfolding clean_slot free_dir
  clean_slot-Cleans clean s d i cleaner h lt =
      elim (Option-cases (pointer_in (s.tree.cells d).subdirs i)) [
        | inl empty ↦
            rw (empty, Returns)
              (Cleans-refl t d s h, (λ c p. absurd (none_some c (sym empty ∙ p.1))), refl)
        | inr (c, e) ↦
            let (up, c_lt) = h.forest.up d i c (lt, e) in
            let new : times c s.freed ≡ 0 = unfreed c e in
            rw (e, Returns)
              (Returns-bind _ (clean s c) _ (cleaner s c h new c_lt up) (λ s' (cl, clean').
                let still : times c s'.freed ≡ 0 = cl.unfreed c (omega arith) new in
                rw (eq→== _ _ still) (unlinked-Cleans t d i c s s' (lt, e) h cl clean')))
      ]
    where
      none_some : (c : ℕ) → none ≡ some c → ⊥
      none_some c e = cc

      unfreed : (c : ℕ) → pointer_in (s.tree.cells d).subdirs i ≡ some c → times c s.freed ≡ 0
      unfreed c e = elim (Bool-cases (times c s.freed == 0)) [
        | inl zero' ↦ ==→eq _ _ zero'
        | inr freed ↦ absurd ((h.gone c (==_false→ne _ _ freed)).0 d i (lt, e))
      ]

  clean_slots-Cleans :
      (clean : Cleaning → ℕ → Mem Cleaning) (d rounds i : ℕ) (s : Cleaning)
      → IsCleaner d clean
      → IsCleaning t s
      → d < s.tree.used
      → Returns
          (λ s'.
            Cleans t d s s'
            × ((j : ℕ) → i ≤ j → j < i + rounds → IsEmpty t d j s')
            × SameEntries t d s s')
          (clean_slots clean d rounds i s)
  unfolding clean_slots
  clean_slots-Cleans clean d zero i s cleaner h lt =
      (Cleans-refl t d s h, (λ j lo hi. absurd (omega arith)), refl)
  clean_slots-Cleans clean d (suc rounds) i s cleaner h lt =
      Returns-bind _ (clean_slot clean s d i) _ (clean_slot-Cleans clean s d i cleaner h lt)
        (λ s₁ (first, empty, same).
          Returns-weaken _ (clean_slots clean d rounds (i + 1) s₁)
            (clean_slots-Cleans clean d rounds (i + 1) s₁ cleaner first.cleaning
              (omega (arith, first.cleaning.used, h.used)))
            (λ s₂ (rest, empties, same'). (
              Cleans-trans t d s s₁ s₂ first rest,
              (λ j lo hi c p. elim (Bool-cases (j == i)) [
                | inl here ↦
                    empty c
                      (subst (λ j. IsPointer s₁.tree d j c) (==→eq _ _ here) (rest.fewer d j c p))
                | inr there ↦ empties j (omega (arith, ==_false→ne _ _ there)) (omega arith) c p
              ]),
              same' ∙ same,
            )))

  clear_cell-Cleans :
      (d : ℕ) (s s' : Cleaning)
      → Cleans t d s s'
      → IsClean t d s'
      → Cleans t d s (clear_cell s' d) × IsClean t d (clear_cell s' d)
  clear_cell-Cleans d s s' cl clean = (
    record {
      cleaning = record {
        used = used ∙ cl.cleaning.used;
        forest =
            IsForest-same s'.tree (clear_cell s' d).tree cl.cleaning.forest (omega (arith, used))
              (λ e j c q. (clear_cell_left s' d e j c q).1);
        inside = λ e j c q.
            let (other, was) = clear_cell_left s' d e j c q in
            subst (λ cell. j < length cell.entries) (sym (clear_cell_other s' d e other))
              (cl.cleaning.inside e j c was);
        gone = λ c freed'.
            let (no_in, no_out) = cl.cleaning.gone c (λ z. freed' (ap (times c) freed ∙ z)) in
            (
              (λ e j q. no_in e j (clear_cell_left s' d e j c q).1),
              (λ j e q. no_out j e (clear_cell_left s' d c j e q).1),
            );
        left = λ e j c q. elim (cl.cleaning.left e j c q) [
          | inr gone ↦ inr (λ z. gone (ap (times c) (sym freed) ∙ z))
          | inl still ↦
              let other : e ≢ d = λ ed. clean j c (subst (λ e. IsPointer s'.tree e j c) ed still) in
              inl (
                omega (arith, used, still.0),
                ap (λ cell. pointer_in cell.subdirs j) (clear_cell_other s' d e other) ∙ still.1,
              )
        ];
        once = λ c. omega (arith, ap (times c) freed, cl.cleaning.once c);
      };
      kept = λ e lt. clear_cell_other s' d e (λ ed. omega arith) ∙ cl.kept e lt;
      unfreed = λ c le z. ap (times c) freed ∙ cl.unfreed c le z;
      fewer = λ e j c q. cl.fewer e j c (clear_cell_left s' d e j c q).1;
    },
    λ j c q. (clear_cell_left s' d d j c q).0 refl,
  )
    where
      used : (clear_cell s' d).tree.used ≡ s'.tree.used
      used = (clear_cell_rest s' d).0

      freed : (clear_cell s' d).freed ≡ s'.freed
      freed = (clear_cell_rest s' d).1

  -- `_clean_tree` on a directory that has not been freed: what is below it is cleaned.
  clean_tree-Cleans :
      (fuel : ℕ) (s : Cleaning) (d : ℕ)
      → IsCleaning t s
      → times d s.freed ≡ 0
      → d < s.tree.used
      → s.tree.used - d ≤ fuel
      → Returns (λ s'. Cleans t d s s' × IsClean t d s') (clean_tree fuel s d)
  unfolding clean_tree
  clean_tree-Cleans zero s d h new lt enough = absurd (omega arith)
  clean_tree-Cleans (suc fuel) s d h new lt enough = elim (Option-cases (s.tree.cells d).subdirs) [
    | inl bare ↦
        rw (eq→== _ _ new, bare, clean_tree)
          (clear_cell-Cleans d s s (Cleans-refl t d s h)
            (λ j c p. no_array (s.tree.cells d).subdirs j c bare p.1))
    | inr (subdirs, array) ↦
        rw (eq→== _ _ new, array, clean_tree)
          (Returns-bind _ (clean_slots (clean_tree fuel) d (length (s.tree.cells d).entries) 0 s) _
            (clean_slots-Cleans (clean_tree fuel) d (length (s.tree.cells d).entries) 0 s
              (λ u c k fresh c_lt up.
                clean_tree-Cleans fuel u c k fresh c_lt (omega (arith, k.used, h.used)))
              h lt)
            (λ s' (cl, empty, same). clear_cell-Cleans d s s' cl (λ j c p.
              let inside = cl.cleaning.inside d j c p in
              let same_length = ap length same in
              empty j (omega arith) (omega (arith, inside, same_length)) c p)))
  ]

  start-IsCleaning :
      (fs : UdfFs) (fuel : ℕ) → IsTree fs fuel t → IsCleaning t (record { tree = t; freed = [] })
  unfolding times
  start-IsCleaning fs fuel h = record {
    used = refl;
    forest = h.forest;
    inside = λ d i c p.
        let (lt, (fi, at, is, read)) = h.linked d i c p.0 p.1 in
        file_at-lt (t.cells d).entries i fi at;
    gone = λ c freed. absurd (freed refl);
    left = λ d i c p. inl p;
    once = λ c. omega arith;
  }

  -- In the end the root and all that was below it link nothing, and the latter have been freed.
  cleaned-once :
      (s : Cleaning) (c : ℕ)
      → IsCleaning t s
      → IsClean t root_dir s
      → IsKept t c
      → IsClean t c s × ((c ≡ root_dir) ⊎ (times c s.freed ≡ 1))
  cleaned-once s _ h clean at_root = (clean, inl refl)
  cleaned-once s _ h clean (below d i c kept p) =
      let (empty, freed_d) = cleaned-once s d h clean kept in
      elim (h.left d i c p) [
        | inl still ↦ absurd (empty i c still)
        | inr freed ↦ ((h.gone c freed).1, inr (omega (arith, h.once c, freed)))
      ]

  -- `_clean_tree` on the root of a cache ends, and frees every other directory in it exactly once.
  -- It frees nothing twice, does not look into a directory that it has freed, and does not free the
  -- root, which stands in the handle.
  pub clean_tree_lem :
      (fs : UdfFs) (fuel rounds : ℕ)
      → IsTree fs fuel t
      → t.used ≤ rounds
      → Returns
          (λ s.
            ((d i c : ℕ) → IsKept t d → IsPointer t d i c → times c s.freed ≡ 1)
            × ((c : ℕ) → times c s.freed ≤ 1)
            × (times root_dir s.freed ≡ 0))
          (clean_tree rounds (record { tree = t; freed = [] }) root_dir)
  unfolding times
  clean_tree_lem fs fuel rounds h enough =
      Returns-weaken _ (clean_tree rounds (record { tree = t; freed = [] }) root_dir)
        (clean_tree-Cleans rounds (record { tree = t; freed = [] }) root_dir
          (start-IsCleaning fs fuel h) refl h.has_root (omega arith))
        (λ s (cl, clean). (
          (λ d i c kept p. elim (cleaned-once s c cl.cleaning clean (below d i c kept p)).1 [
            | inl root ↦ omega (arith, (h.forest.up d i c p).0)
            | inr freed ↦ freed
          ]),
          cl.cleaning.once,
          cl.unfreed root_dir (omega arith) refl,
        ))
