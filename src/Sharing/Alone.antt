-- ===== src/Sharing/Alone.antt =====
-- A thread in `_cache_subdir` of src/udfread.c that runs with no other thread beside it.
use libudfread.Common.{
  ℕ, zero, suc, ◌<◌, ◌≡◌, refl, ap, ap₂, ◌∙◌, arith, Bool, true, false, List, Option, none, some,
  ◌==◌, ne→==_false,
}
use libudfread.Memory.{Mem, fault, running, done, ◌>>=◌}
use libudfread.Fs.{UdfFs}
use libudfread.Fs.Dir.{DirEntry}
use libudfread.Tree.{DirTree, DirCell, set_cell, set_pointer, publish, keep_subdir}
use libudfread.Sharing.{
  World, Thread, new_subdir, at_return, returned, deref, slot_of, add_cell, after_read, set_slot,
  exchange_slot, act,
}

-- the result of `_cache_subdir`, with the world that it leaves
abbrev pub as_thread : World → ℕ → ℕ → Option ℕ × DirTree → World × Thread
as_thread w d i r = (record w { tree = r.1 }, returned d i r.0)

added_cell :
    (w : World) (d : ℕ) (entries : List DirEntry)
    → d < w.tree.used
    → (add_cell w entries).tree.cells d ≡ w.tree.cells d
unfolding add_cell set_cell
added_cell w d entries lt =
    let old : (d == w.tree.used) ≡ false = ne→==_false _ _ (λ e. omega arith) in rw old refl

-- Adding a directory and then its pointer is what one thread does at once.
published :
    (w : World) (d i : ℕ) (entries : List DirEntry)
    → d < w.tree.used
    → set_slot (add_cell w entries) d i w.tree.used ≡ record w { tree = publish w.tree d i entries }
unfolding set_slot publish add_cell
published w d i entries lt =
    ap
      (λ (cell : DirCell). record w {
        tree =
            set_cell (add_cell w entries).tree d
              (record cell { subdirs = some (set_pointer cell.subdirs i w.tree.used) });
      })
      (added_cell w d entries lt)

own_pointer :
    (t : DirTree) (d i c : ℕ) (cell : DirCell)
    → ((set_cell t d (record cell { subdirs = some (set_pointer cell.subdirs i c) })).cells
        d).subdirs
      ≡ some (set_pointer cell.subdirs i c)
unfolding set_cell
own_pointer t d i c cell = ground arith

set_pointer_same : (subdirs : Option (ℕ → Option ℕ)) (i c : ℕ) → set_pointer subdirs i c i ≡ some c
unfolding set_pointer
set_pointer_same subdirs i c = ground arith

added_slot :
    (w : World) (d i : ℕ) (subdirs : ℕ → Option ℕ) (entries : List DirEntry)
    → (w.tree.cells d).subdirs ≡ some subdirs
    → subdirs i ≡ none
    → d < w.tree.used
    → slot_of ((add_cell w entries).tree.cells d) i ≡ done none
unfolding slot_of
added_slot w d i subdirs entries array empty lt =
    rw (added_cell w d entries lt, array, slot_of, empty) refl

added_freed :
    (w : World) (d : ℕ) (entries : List DirEntry) → (add_cell w entries).freed d ≡ w.freed d
unfolding add_cell
added_freed w d entries = refl

pub bind_assoc :
    {A B C : Type 0} (m : Mem A) (f : A → B) (g : B → Mem C)
    → (m >>= (λ a. done (f a)) >>= g) ≡ (m >>= λ a. g (f a))
bind_assoc fault f g = refl
bind_assoc running f g = refl
bind_assoc (done a) f g = refl

pub bind_done :
    {A B C : Type 0} (m : Mem A) (f : A → B) (g : B → C)
    → (m >>= (λ a. done (f a)) >>= λ b. done (g b)) ≡ (m >>= λ a. done (g (f a)))
bind_done fault f g = refl
bind_done running f g = refl
bind_done (done a) f g = refl

module _ (fs : UdfFs) (fuel : ℕ) where
  -- so many steps of the thread
  unfoldable pub alone : ℕ → World → Thread → Mem (World × Thread)
  alone zero w th = done (w, th)
  alone (suc steps) w th = act fs fuel w th >>= λ r. alone steps r.0 r.1

  pub alone-returned :
      (steps : ℕ) (w : World) (d i : ℕ) (r : Option ℕ)
      → alone steps w (returned d i r) ≡ done (w, returned d i r)
  unfolding alone act
  alone-returned zero w d i r = refl
  alone-returned (suc steps) w d i r = alone-returned steps w d i r

  pub alone-return :
      (steps : ℕ) (w : World) (d i : ℕ) (subdirs : ℕ → Option ℕ)
      → w.freed d ≡ false
      → (w.tree.cells d).subdirs ≡ some subdirs
      → alone (suc steps) w (at_return d i) ≡ done (w, returned d i (subdirs i))
  unfolding alone act deref slot_of
  alone-return steps w d i subdirs live array =
      rw (live, array, slot_of) (alone-returned steps w d i (subdirs i))

  exchanged :
      (steps : ℕ) (w : World) (d i : ℕ) (subdirs : ℕ → Option ℕ) (entries : List DirEntry)
      → w.freed d ≡ false
      → (w.tree.cells d).subdirs ≡ some subdirs
      → subdirs i ≡ none
      → d < w.tree.used
      → alone (suc steps) (add_cell w entries) (new_subdir d i w.tree.used)
        ≡ alone steps (set_slot (add_cell w entries) d i w.tree.used) (at_return d i)
  unfolding alone act deref exchange_slot
  exchanged steps w d i subdirs entries live array empty lt =
      rw (added_freed w d entries, live, added_slot w d i subdirs entries array empty lt) refl

  -- the exchange and the return, with a directory that has just been read
  alone-new_subdir :
      (steps : ℕ) (w : World) (d i : ℕ) (subdirs : ℕ → Option ℕ) (entries : List DirEntry)
      → w.freed d ≡ false
      → (w.tree.cells d).subdirs ≡ some subdirs
      → subdirs i ≡ none
      → d < w.tree.used
      → alone (suc (suc steps)) (add_cell w entries) (new_subdir d i w.tree.used)
        ≡ done (as_thread w d i (some w.tree.used, publish w.tree d i entries))
  unfolding add_cell set_slot
  alone-new_subdir steps w d i subdirs entries live array empty lt =
      exchanged (suc steps) w d i subdirs entries live array empty lt
      ∙ alone-return steps (set_slot (add_cell w entries) d i w.tree.used) d i _ live (
          own_pointer (add_cell w entries).tree d i w.tree.used ((add_cell w entries).tree.cells d))
      ∙ ap₂ (λ u c. done (u, returned d i c)) (published w d i entries lt)
          (set_pointer_same ((add_cell w entries).tree.cells d).subdirs i w.tree.used)

  pub alone-read :
      (steps : ℕ) (w : World) (d i : ℕ) (subdirs : ℕ → Option ℕ) (m : Mem (Bool × List DirEntry))
      → w.freed d ≡ false
      → (w.tree.cells d).subdirs ≡ some subdirs
      → subdirs i ≡ none
      → d < w.tree.used
      → (m >>= λ r. alone (suc (suc steps)) (after_read w d i r).0 (after_read w d i r).1)
        ≡ (m >>= λ r. done (as_thread w d i (keep_subdir w.tree d i r)))
  unfolding after_read keep_subdir
  alone-read steps w d i subdirs fault live array empty lt = refl
  alone-read steps w d i subdirs running live array empty lt = refl
  alone-read steps w d i subdirs (done (false, entries)) live array empty lt =
      alone-returned (suc (suc steps)) w d i none
  alone-read steps w d i subdirs (done (true, entries)) live array empty lt =
      alone-new_subdir steps w d i subdirs entries live array empty lt

  pub alone-act :
      (steps : ℕ) (w w' : World) (th th' : Thread)
      → act fs fuel w th ≡ done (w', th')
      → alone (suc steps) w th ≡ alone steps w' th'
  unfolding alone
  alone-act steps w w' th th' e = rw e refl
