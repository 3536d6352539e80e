-- ===== src/Sharing/Worlds.antt =====
-- The store of directories stays as on the disc when threads in `_cache_subdir` of src/udfread.c add
-- directories, link them and free them.
use libudfread.Common.{
  ℕ, ◌<◌, ◌≡◌, inl, inr, refl, sym, ap, ◌∙◌, arith, Bool, true, false, List, none, subst,
  Bool-cases, ◌==◌, if◌then◌else◌, ==→eq, All,
}
use libudfread.Fs.{UdfFs}
use libudfread.Fs.Dir.{DirEntry}
use libudfread.Fs.Listing.{IsListed}
use libudfread.Tree.{set_cell}
use libudfread.Tree.Grows.{with_array_used, with_array_same}
use libudfread.Tree.Forest.{IsForest-same, IsForest-add}
use libudfread.Tree.Reading.{IsSubdir, IsSubdir-eq, with_array-IsTree}
use libudfread.Sharing.{World, IsLinked, IsReached, exchange_array, add_cell, set_slot, free_cell}
use libudfread.Sharing.Invariant.{Later, IsOwn, IsWorld}
use libudfread.Sharing.Moves.{
  add_cell_pointer, set_slot_same, set_slot_used, set_slot_freed, set_slot_old,
  exchange_array-Later, add_cell-Later,
}

not_freed : (b : Bool) → (b ≡ true → ⊥) → b ≡ false
not_freed true h = absurd (h refl)
not_freed false h = refl

module _ (fs : UdfFs) (fuel : ℕ) where
  -- A step with no directory of its own frees none that is reached.
  quiet_alive :
      (w w' : World)
      → IsWorld fs fuel w
      → Later none w w'
      → (c : ℕ) → IsReached w'.tree c
      → w'.freed c ≡ false
  quiet_alive w w' h l c reached = not_freed (w'.freed c) (λ freed. elim (l.frees c freed) [
    | inr own ↦ cc
    | inl before ↦ elim reached [
      | inl root ↦ cc_of before (h.alive c (inl root))
      | inr linked ↦ elim (l.links c linked) [
        | inr own ↦ cc
        | inl old ↦ cc_of before (h.alive c (inr old))
      ]
    ]
  ])
    where
      cc_of : {b : Bool} → b ≡ true → b ≡ false → ⊥
      cc_of p q = cc

  pub exchange_array-IsWorld :
      (w : World) (d : ℕ) → IsWorld fs fuel w → IsWorld fs fuel (exchange_array w d)
  unfolding exchange_array
  exchange_array-IsWorld w d h = record {
    tree = with_array-IsTree fs fuel w.tree d h.tree;
    alive = quiet_alive w (exchange_array w d) h (exchange_array-Later w d);
    below = λ c freed. omega (arith, h.below c freed, with_array_used w.tree d);
    listed = λ e lt.
        subst (All IsListed) (sym (with_array_same w.tree d e))
          (h.listed e (omega (arith, with_array_used w.tree d)));
  }

  add_cell_same :
      (w : World) (entries : List DirEntry) (e : ℕ)
      → ((add_cell w entries).tree.cells e).entries
        ≡ (if e == w.tree.used then entries else (w.tree.cells e).entries)
  unfolding add_cell set_cell
  add_cell_same w entries e = ground arith

  pub add_cell-IsWorld :
      (w : World) (entries : List DirEntry)
      → IsWorld fs fuel w
      → All IsListed entries
      → IsWorld fs fuel (add_cell w entries)
  unfolding add_cell
  add_cell-IsWorld w entries h all = record {
    tree = record {
      has_root = omega arith;
      forest =
          IsForest-same w.tree (add_cell w entries).tree h.tree.forest (omega arith)
            (λ e j c (lt, p). add_cell_pointer w entries e j c lt p);
      linked = λ e j c lt p.
          let (below, old) = add_cell_pointer w entries e j c lt p in
          let (c_lt, is) = h.tree.linked e j c below old in
          (
            omega arith,
            IsSubdir-eq fs fuel (w.tree.cells e).entries _ j j (w.tree.cells c).entries _
                (ground (arith, add_cell_same w entries e)) refl
                (ground (arith, add_cell_same w entries c)) is,
          );
    };
    alive = quiet_alive w (add_cell w entries) h (add_cell-Later w entries);
    below = λ c freed. omega (arith, h.below c freed);
    listed = λ e lt. elim (Bool-cases (e == w.tree.used)) [
      | inl new ↦
          let is : ((add_cell w entries).tree.cells e).entries ≡ entries =
            ground (arith, add_cell_same w entries e) in
          subst (All IsListed) (sym is) all
      | inr old ↦
          let is : ((add_cell w entries).tree.cells e).entries ≡ (w.tree.cells e).entries =
            ground (arith, add_cell_same w entries e) in
          subst (All IsListed) (sym is) (h.listed e (ground arith))
    ];
  }

  -- The directory that has been added is its thread's own.
  pub add_cell-IsOwn :
      (w : World) (entries : List DirEntry) (d i : ℕ)
      → IsWorld fs fuel w
      → d < w.tree.used
      → IsSubdir fs fuel (w.tree.cells d).entries i entries
      → IsOwn fs fuel (add_cell w entries) d i w.tree.used
  unfolding add_cell
  add_cell-IsOwn w entries d i h lt is = record {
    below = omega arith;
    above = lt;
    alive = not_freed (w.freed w.tree.used) (λ freed. omega (arith, h.below w.tree.used freed));
    not_root = λ e. omega (arith, h.tree.has_root);
    unlinked = λ (e, j, below, p).
        let (lower, old) = add_cell_pointer w entries e j w.tree.used below p in
        omega (arith, (h.tree.linked e j w.tree.used lower old).0);
    subdir =
        IsSubdir-eq fs fuel (w.tree.cells d).entries _ i i entries _
          (ground (arith, add_cell_same w entries d)) refl
          (ground (arith, add_cell_same w entries w.tree.used)) is;
  }

  pub set_slot-IsWorld :
      (w : World) (d i c : ℕ)
      → IsWorld fs fuel w
      → d < w.tree.used
      → IsOwn fs fuel w d i c
      → IsWorld fs fuel (set_slot w d i c)
  set_slot-IsWorld w d i c h lt own = record {
    tree = record {
      has_root = omega (arith, h.tree.has_root, set_slot_used w d i c);
      forest =
          IsForest-add w.tree (set_slot w d i c).tree d i c h.tree.forest
            (omega (arith, set_slot_used w d i c)) own.above
            (omega (arith, own.below, set_slot_used w d i c))
            (λ e j p. own.unlinked (e, j, p.0, p.1))
            (λ e j b (e_lt, p). elim (set_slot_old w d i c e j b p) [
              | inl old ↦ inl (omega (arith, set_slot_used w d i c), old)
              | inr new ↦ inr new
            ]);
      linked = λ e j b e_lt p. elim (set_slot_old w d i c e j b p) [
        | inl old ↦
            let (b_lt, is) = h.tree.linked e j b (omega (arith, set_slot_used w d i c)) old in
            (omega (arith, set_slot_used w d i c), moved e j b is)
        | inr (ed, ji, same) ↦ (
          omega (arith, own.below, set_slot_used w d i c),
          subst
              (λ e.
                IsSubdir fs fuel ((set_slot w d i c).tree.cells e).entries j
                  ((set_slot w d i c).tree.cells b).entries)
              (sym ed)
              (subst
                (λ j.
                  IsSubdir fs fuel ((set_slot w d i c).tree.cells d).entries j
                    ((set_slot w d i c).tree.cells b).entries)
                (sym ji)
                (subst
                  (λ b.
                    IsSubdir fs fuel ((set_slot w d i c).tree.cells d).entries i
                      ((set_slot w d i c).tree.cells b).entries)
                  same (moved d i c own.subdir))),
        )
      ];
    };
    alive = λ b reached. elim reached [
      | inl root ↦ set_slot_freed w d i c b ∙ h.alive b (inl root)
      | inr (e, j, e_lt, p) ↦ elim (set_slot_old w d i c e j b p) [
        | inl old ↦
            set_slot_freed w d i c b
            ∙ h.alive b (inr (e, j, omega (arith, set_slot_used w d i c), old))
        | inr (ed, ji, same) ↦ set_slot_freed w d i c b ∙ ap w.freed (sym same) ∙ own.alive
      ]
    ];
    below = λ b freed.
        omega (arith, h.below b (sym (set_slot_freed w d i c b) ∙ freed), set_slot_used w d i c);
    listed = λ e e_lt.
        subst (All IsListed) (sym (set_slot_same w d i c e))
          (h.listed e (omega (arith, set_slot_used w d i c)));
  }
    where
      moved :
          (e j b : ℕ)
          → IsSubdir fs fuel (w.tree.cells e).entries j (w.tree.cells b).entries
          → IsSubdir fs fuel
              ((set_slot w d i c).tree.cells e).entries
              j
              ((set_slot w d i c).tree.cells b).entries
      moved e j b is =
          IsSubdir-eq fs fuel (w.tree.cells e).entries _ j j (w.tree.cells b).entries _
            (set_slot_same w d i c e) refl (set_slot_same w d i c b) is

  pub free_cell-IsWorld :
      (w : World) (d i c : ℕ)
      → IsWorld fs fuel w
      → IsOwn fs fuel w d i c
      → IsWorld fs fuel (free_cell w c)
  unfolding free_cell
  free_cell-IsWorld w d i c h own = record {
    tree = h.tree;
    alive = λ b reached. elim (Bool-cases (b == c)) [
      | inl mine ↦ absurd (own_reached b (==→eq _ _ mine) reached)
      | inr other ↦ rw other (h.alive b reached)
    ];
    below = λ b freed. elim (Bool-cases (b == c)) [
      | inl mine ↦ omega (arith, ==→eq _ _ mine, own.below)
      | inr other ↦ h.below b (ground arith)
    ];
    listed = h.listed;
  }
    where
      own_reached : (b : ℕ) → b ≡ c → IsReached w.tree b → ⊥
      own_reached b e (inl root) = own.not_root (sym e ∙ root)
      own_reached b e (inr linked) = own.unlinked (subst (λ b. IsLinked w.tree b) e linked)
