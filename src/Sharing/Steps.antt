-- ===== src/Sharing/Steps.antt =====
-- One step of a thread in `_cache_subdir` of src/udfread.c: it does not fault, and keeps the
-- invariant.
use libudfread.Common.{
  ℕ, zero, suc, ◌≤◌, ◌<◌, ◌≡◌, inl, inr, refl, sym, arith, Bool, true, false, List, [], ◌∷◌, Option,
  none, some, subst, Bool-cases, Option-cases, All,
}
use libudfread.Memory.{Safe, done}
use libudfread.Memory.Words.{Safe-bind, Safe-itself}
use libudfread.Fs.{UdfFs}
use libudfread.Fs.Dir.{DirEntry, udf_read_dir}
use libudfread.Fs.Listing.{IsListed, udf_read_dir-Safe}
use libudfread.Directory.{file_at}
use libudfread.Tree.{DirCell, is_dir, pointer_in}
use libudfread.Sharing.{
  World, Thread, at_flag, at_array, new_array, at_slot, at_read, new_subdir, at_return, returned,
  deref, slot_of, file_of, exchange_array, add_cell, after_read, set_slot, free_cell, exchange_slot,
  act,
}
use libudfread.Sharing.Invariant.{
  HasArray, Later, owned, IsCall, IsOwn, IsAt, IsWorld, later-IsCall, later-IsFolder,
}
use libudfread.Sharing.Moves.{
  Later-refl, exchange_array-Later, exchange_array-HasArray, add_cell-Later, set_slot-Later,
  free_cell-Later,
}
use libudfread.Sharing.Worlds.{
  exchange_array-IsWorld, add_cell-IsWorld, add_cell-IsOwn, set_slot-IsWorld, free_cell-IsWorld,
}

slot_of_lem :
    (cell : DirCell) (i : ℕ)
    → (subdirs : ℕ → Option ℕ) × (cell.subdirs ≡ some subdirs)
    → slot_of cell i ≡ done (pointer_in cell.subdirs i)
unfolding slot_of pointer_in
slot_of_lem cell i (s, e) = rw e refl

file_of_lem :
    (cell : DirCell) (i : ℕ) (fi : DirEntry)
    → file_at cell.entries i ≡ some fi
    → file_of cell i ≡ done fi
unfolding file_of
file_of_lem cell i fi e = rw (e, file_of) refl

IsListed-at :
    (files : List DirEntry) (i : ℕ) (fi : DirEntry)
    → All IsListed files
    → file_at files i ≡ some fi
    → IsListed fi
unfolding file_at
IsListed-at [] i fi all e = absurd cc
IsListed-at (x ∷ files) zero fi all e = let same : x ≡ fi = cc in subst IsListed same all.0
IsListed-at (x ∷ files) (suc i) fi all e = IsListed-at files i fi all.1 e

module _ (fs : UdfFs) (fuel : ℕ) where
  deref_lem :
      (w : World) (d : ℕ) → IsWorld fs fuel w → IsCall w.tree d → deref w d ≡ done (w.tree.cells d)
  unfolding deref
  deref_lem w d h (lt, reached) = rw (h.alive d reached) refl

  -- The step of a thread: what is in the world, what others rely on, and what the thread knows.
  pub record IsMoved (w : World) (th : Thread) (r : World × Thread) : Type 0 where
    pub world : IsWorld fs fuel r.0
    pub later : Later (owned th) w r.0
    pub at : IsAt fs fuel r.0 r.1
    pub fresh : (c : ℕ) → owned r.1 ≡ some c → w.tree.used ≤ c

  still :
      (w : World) (th th' : Thread)
      → IsWorld fs fuel w
      → IsAt fs fuel w th'
      → owned th' ≡ none
      → IsMoved w th (w, th')
  still w th th' h at e = record {
    world = h;
    later = Later-refl (owned th) w;
    at = at;
    fresh = λ c own. absurd cc;
  }

  after_read-IsMoved :
      (w : World) (d i : ℕ) (fi : DirEntry) (r : Bool × List DirEntry)
      → IsWorld fs fuel w
      → IsCall w.tree d
      → HasArray w.tree d
      → file_at (w.tree.cells d).entries i ≡ some fi
      → is_dir fi ≡ true
      → All IsListed r.1
      → udf_read_dir fs fuel fi.icb [] ≡ done r
      → IsMoved w (at_read d i) (after_read w d i r)
  unfolding after_read owned
  after_read-IsMoved w d i fi (false, entries) h call array at is all read =
      still w (at_read d i) (returned d i none) h tt refl
  after_read-IsMoved w d i fi (true, entries) h call array at is all read =
      let l = add_cell-Later w entries in
      record {
        world = add_cell-IsWorld fs fuel w entries h all;
        later = l;
        at = (
          later-IsCall fs fuel none w (add_cell w entries) l d call,
          later-IsFolder fs fuel none w (add_cell w entries) l d i call.0 (fi, at, is),
          l.arrays d call.0 array,
          add_cell-IsOwn fs fuel w entries d i h call.0 (fi, at, is, read),
        );
        fresh = λ c e. let new : w.tree.used ≡ c = cc in omega arith;
      }

  exchange_slot-IsMoved :
      (w : World) (d i c : ℕ) (slot : Option ℕ)
      → IsWorld fs fuel w
      → IsCall w.tree d
      → HasArray w.tree d
      → IsOwn fs fuel w d i c
      → pointer_in (w.tree.cells d).subdirs i ≡ slot
      → IsMoved w (new_subdir d i c) (exchange_slot w d i c slot, at_return d i)
  unfolding exchange_slot owned
  exchange_slot-IsMoved w d i c none h call array own e =
      let l = set_slot-Later w d i c e in
      record {
        world = set_slot-IsWorld fs fuel w d i c h call.0 own;
        later = l;
        at = (later-IsCall fs fuel (some c) w (set_slot w d i c) l d call, l.arrays d call.0 array);
        fresh = λ c own. absurd cc;
      }
  exchange_slot-IsMoved w d i c (some other) h call array own e =
      let l = free_cell-Later w c in
      record {
        world = free_cell-IsWorld fs fuel w d i c h own;
        later = l;
        at = (later-IsCall fs fuel (some c) w (free_cell w c) l d call, l.arrays d call.0 array);
        fresh = λ c own. absurd cc;
      }

  -- what `return dir->subdirs[index]` gives
  result_lem :
      (w : World) (d i : ℕ) (slot : Option ℕ)
      → d < w.tree.used
      → pointer_in (w.tree.cells d).subdirs i ≡ slot
      → IsAt fs fuel w (returned d i slot)
  result_lem w d i none lt e = tt
  result_lem w d i (some c) lt e = (lt, e)

  pub act-IsMoved :
      (w : World) (th : Thread)
      → IsWorld fs fuel w
      → IsAt fs fuel w th
      → Safe (IsMoved w th) (act fs fuel w th)
  unfolding act owned
  act-IsMoved w (at_flag d i) h (call, (fi, at)) =
      rw (deref_lem w d h call, file_of_lem (w.tree.cells d) i fi at, Safe)
        (elim (Bool-cases (is_dir fi)) [
          | inl dir ↦ rw dir (still w (at_flag d i) (at_array d i) h (call, (fi, at, dir)) refl)
          | inr file ↦ rw file (still w (at_flag d i) (returned d i none) h tt refl)
        ])
  act-IsMoved w (at_array d i) h (call, folder) =
      rw (deref_lem w d h call, Safe)
        (elim (Option-cases (w.tree.cells d).subdirs) [
          | inl empty ↦ rw empty (still w (at_array d i) (new_array d i) h (call, folder) refl)
          | inr (s, e) ↦ rw e (still w (at_array d i) (at_slot d i) h (call, folder, (s, e)) refl)
        ])
  act-IsMoved w (new_array d i) h (call, folder) =
      let w' = exchange_array w d in
      let l = exchange_array-Later w d in
      rw (deref_lem w d h call, Safe)
        (record {
          world = exchange_array-IsWorld fs fuel w d h;
          later = l;
          at = (
            later-IsCall fs fuel none w w' l d call,
            later-IsFolder fs fuel none w w' l d i call.0 folder,
            exchange_array-HasArray w d,
          );
          fresh = λ c own. absurd cc;
        })
  act-IsMoved w (at_slot d i) h (call, folder, array) =
      rw (deref_lem w d h call, slot_of_lem (w.tree.cells d) i array, Safe)
        (elim (Option-cases (pointer_in (w.tree.cells d).subdirs i)) [
          | inl empty ↦ rw empty (still w (at_slot d i) (at_read d i) h (call, folder, array) refl)
          | inr (c, e) ↦ rw e (still w (at_slot d i) (at_return d i) h (call, array) refl)
        ])
  act-IsMoved w (at_read d i) h (call, (fi, at, is), array) =
      let (name, parent, ad) = IsListed-at (w.tree.cells d).entries i fi (h.listed d call.0) at in
      rw (deref_lem w d h call, file_of_lem (w.tree.cells d) i fi at, Safe)
        (Safe-bind _ (udf_read_dir fs fuel fi.icb []) _
          (Safe-itself _ (udf_read_dir fs fuel fi.icb [])
            (udf_read_dir-Safe fs fuel fi.icb [] (omega (arith, ad.0)) ad.3))
          (λ r ((more, same, all), read).
            after_read-IsMoved w d i fi r h call array at is (subst (All IsListed) (sym same) all)
              read))
  act-IsMoved w (new_subdir d i c) h (call, folder, array, own) =
      rw (deref_lem w d h call, slot_of_lem (w.tree.cells d) i array, Safe)
        (exchange_slot-IsMoved w d i c _ h call array own refl)
  act-IsMoved w (at_return d i) h (call, array) =
      rw (deref_lem w d h call, slot_of_lem (w.tree.cells d) i array, Safe)
        (record {
          world = h;
          later = Later-refl none w;
          at = result_lem w d i _ call.0 refl;
          fresh = λ c own. absurd cc;
        })
  act-IsMoved w (returned d i r) h at = still w (returned d i r) (returned d i r) h at refl
