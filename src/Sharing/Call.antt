-- ===== src/Sharing/Call.antt =====
-- A call of `_cache_subdir` of src/udfread.c by a thread that runs alone, and the function as a
-- whole.
use libudfread.Common.{
  ℕ, suc, ◌<◌, ◌≡◌, refl, sym, ap, ◌∙◌, arith, false, [], Option, none, some, Bool-cases,
  Option-cases, inl, inr, if◌then◌else◌,
}
use libudfread.Memory.{fault, done, ◌>>=◌}
use libudfread.Fs.{UdfFs}
use libudfread.Fs.Dir.{DirEntry, udf_read_dir}
use libudfread.Directory.{file_at}
use libudfread.Tree.{
  DirTree, pointer_in, with_array, keep_subdir, load_subdir, is_dir, cache_subdir,
}
use libudfread.Sharing.{
  World, at_flag, at_array, new_array, at_slot, at_read, at_return, returned, deref, slot_of,
  file_of, exchange_array, after_read, act,
}
use libudfread.Sharing.Moves.{exchange_array-HasArray}
use libudfread.Tree.Grows.{with_array_same, with_array_used}
use libudfread.Sharing.Alone.{
  alone, as_thread, alone-returned, alone-return, alone-read, alone-act, bind_assoc, bind_done,
}

module _ (fs : UdfFs) (fuel : ℕ) where
  act-slot :
      (w : World) (d i : ℕ) (subdirs : ℕ → Option ℕ)
      → w.freed d ≡ false
      → (w.tree.cells d).subdirs ≡ some subdirs
      → act fs fuel w (at_slot d i)
        ≡ done (w, elim (subdirs i) [ none ↦ at_read d i | some c ↦ at_return d i ])
  unfolding act deref slot_of
  act-slot w d i subdirs live array = rw (live, array, slot_of) refl

  act-read :
      (w : World) (d i : ℕ) (fi : DirEntry)
      → w.freed d ≡ false
      → file_at (w.tree.cells d).entries i ≡ some fi
      → act fs fuel w (at_read d i)
        ≡ (udf_read_dir fs fuel fi.icb [] >>= λ r. done (after_read w d i r))
  unfolding act deref file_of
  act-read w d i fi live at = rw (live, at, file_of) refl

  load_subdir_at :
      (t : DirTree) (d i : ℕ) (fi : DirEntry) (subdirs : ℕ → Option ℕ)
      → (t.cells d).subdirs ≡ some subdirs
      → load_subdir fs fuel t d i fi ≡ elim (subdirs i) [
        | some c ↦ done (some c, t)
        | none ↦ udf_read_dir fs fuel fi.icb [] >>= λ r. done (keep_subdir t d i r)
      ]
  unfolding load_subdir pointer_in
  load_subdir_at t d i fi subdirs array = rw (array, load_subdir) refl

  alone-missing :
      (steps : ℕ) (w : World) (d i : ℕ) (fi : DirEntry) (subdirs : ℕ → Option ℕ)
      → w.freed d ≡ false
      → file_at (w.tree.cells d).entries i ≡ some fi
      → (w.tree.cells d).subdirs ≡ some subdirs
      → subdirs i ≡ none
      → d < w.tree.used
      → alone fs fuel (suc (suc (suc steps))) w (at_read d i) ≡ (
          udf_read_dir fs fuel fi.icb [] >>= λ r. done (as_thread w d i (keep_subdir w.tree d i r)))
  unfolding alone
  alone-missing steps w d i fi subdirs live at array empty lt =
      ap (λ m. m >>= λ r. alone fs fuel (suc (suc steps)) r.0 r.1) (act-read w d i fi live at)
      ∙ bind_assoc (udf_read_dir fs fuel fi.icb []) (after_read w d i)
          (λ r. alone fs fuel (suc (suc steps)) r.0 r.1)
      ∙ alone-read fs fuel steps w d i subdirs (udf_read_dir fs fuel fi.icb []) live array empty lt

  -- From the test of the slot on, four steps are enough.
  alone-slot :
      (steps : ℕ) (w : World) (d i : ℕ) (fi : DirEntry) (subdirs : ℕ → Option ℕ)
      → w.freed d ≡ false
      → file_at (w.tree.cells d).entries i ≡ some fi
      → (w.tree.cells d).subdirs ≡ some subdirs
      → d < w.tree.used
      → alone fs fuel (suc (suc (suc (suc steps)))) w (at_slot d i)
        ≡ (load_subdir fs fuel w.tree d i fi >>= λ r. done (as_thread w d i r))
  alone-slot steps w d i fi subdirs live at array lt =
      alone-act fs fuel (suc (suc (suc steps))) w w _ _ (act-slot w d i subdirs live array)
      ∙ found (subdirs i) refl
      ∙ ap (λ m. m >>= λ r. done (as_thread w d i r))
          (sym (load_subdir_at w.tree d i fi subdirs array))
    where
      found :
          (slot : Option ℕ)
          → subdirs i ≡ slot
          → alone fs fuel
              (suc (suc (suc steps)))
              w
              (elim slot [ none ↦ at_read d i | some c ↦ at_return d i ])
            ≡ (elim slot [
              | some c ↦ done (some c, w.tree)
              | none ↦ udf_read_dir fs fuel fi.icb [] >>= λ r. done (keep_subdir w.tree d i r)
            ]
                >>= λ r. done (as_thread w d i r))
      found (some c) e =
          alone-return fs fuel (suc (suc steps)) w d i subdirs live array
          ∙ ap (λ r. done (w, returned d i r)) e
      found none e =
          alone-missing steps w d i fi subdirs live at array e lt
          ∙ sym (
              bind_done (udf_read_dir fs fuel fi.icb []) (keep_subdir w.tree d i) (as_thread w d i))

  act-flag :
      (w : World) (d i : ℕ) (fi : DirEntry)
      → w.freed d ≡ false
      → file_at (w.tree.cells d).entries i ≡ some fi
      → act fs fuel w (at_flag d i)
        ≡ done (w, if is_dir fi then at_array d i else returned d i none)
  unfolding act deref file_of
  act-flag w d i fi live at = rw (live, at, file_of) refl

  act-no_entry :
      (w : World) (d i : ℕ)
      → w.freed d ≡ false
      → file_at (w.tree.cells d).entries i ≡ none
      → act fs fuel w (at_flag d i) ≡ fault
  unfolding act deref file_of
  act-no_entry w d i live missing = rw (live, missing, file_of) refl

  act-array :
      (w : World) (d i : ℕ)
      → w.freed d ≡ false
      → act fs fuel w (at_array d i)
        ≡ done
            (w, elim (w.tree.cells d).subdirs [ none ↦ new_array d i | some subdirs ↦ at_slot d i ])
  unfolding act deref
  act-array w d i live = rw live refl

  act-new_array :
      (w : World) (d i : ℕ)
      → w.freed d ≡ false
      → act fs fuel w (new_array d i) ≡ done (exchange_array w d, at_slot d i)
  unfolding act deref
  act-new_array w d i live = rw live refl

  with_array_there :
      (t : DirTree) (d : ℕ) (subdirs : ℕ → Option ℕ)
      → (t.cells d).subdirs ≡ some subdirs
      → with_array t d ≡ t
  unfolding with_array
  with_array_there t d subdirs array = rw (array, with_array) refl

  exchanged-slot :
      (w : World) (d i : ℕ) (fi : DirEntry)
      → w.freed d ≡ false
      → file_at (w.tree.cells d).entries i ≡ some fi
      → d < w.tree.used
      → alone fs fuel 4 (exchange_array w d) (at_slot d i)
        ≡ (load_subdir fs fuel (with_array w.tree d) d i fi >>= λ r. done (as_thread w d i r))
  unfolding exchange_array
  exchanged-slot w d i fi live at lt =
      let (subdirs, array) = exchange_array-HasArray w d in
      alone-slot 0 (exchange_array w d) d i fi subdirs live
        (ap (λ l. file_at l i) (with_array_same w.tree d d) ∙ at) array
        (omega (arith, with_array_used w.tree d))

  -- from the test of the array on
  alone-array :
      (w : World) (d i : ℕ) (fi : DirEntry)
      → w.freed d ≡ false
      → file_at (w.tree.cells d).entries i ≡ some fi
      → d < w.tree.used
      → alone fs fuel 6 w (at_array d i)
        ≡ (load_subdir fs fuel (with_array w.tree d) d i fi >>= λ r. done (as_thread w d i r))
  alone-array w d i fi live at lt = elim (Option-cases (w.tree.cells d).subdirs) [
    | inl empty ↦
        alone-act fs fuel 5 w w (at_array d i) (new_array d i)
          (act-array w d i live ∙ rw empty refl)
        ∙ alone-act fs fuel 4 w (exchange_array w d) (new_array d i) (at_slot d i)
            (act-new_array w d i live)
        ∙ exchanged-slot w d i fi live at lt
    | inr (subdirs, array) ↦
        alone-act fs fuel 5 w w (at_array d i) (at_slot d i) (act-array w d i live ∙ rw array refl)
        ∙ alone-slot 1 w d i fi subdirs live at array lt
        ∙ ap (λ t. load_subdir fs fuel t d i fi >>= λ r. done (as_thread w d i r))
            (sym (with_array_there w.tree d subdirs array))
  ]

  -- A call of `_cache_subdir` that no other thread disturbs, on a directory that is in the store and
  -- not freed, takes seven steps at most. It does to the store, and returns, what the function does
  -- as a whole, in `Tree`.
  alone-cache_subdir :
      (w : World) (d i : ℕ)
      → w.freed d ≡ false
      → d < w.tree.used
      → alone fs fuel 7 w (at_flag d i)
        ≡ (cache_subdir fs fuel w.tree d i >>= λ r. done (as_thread w d i r))
  unfolding cache_subdir alone
  alone-cache_subdir w d i live lt = elim (Option-cases (file_at (w.tree.cells d).entries i)) [
    | inl missing ↦ rw (missing, act-no_entry w d i live missing, cache_subdir) refl
    | inr (fi, at) ↦ elim (Bool-cases (is_dir fi)) [
      | inr file ↦
          alone-act fs fuel 6 w w (at_flag d i) (returned d i none)
            (act-flag w d i fi live at ∙ rw file refl)
          ∙ alone-returned fs fuel 6 w d i none
          ∙ rw (at, file, cache_subdir) refl
      | inl dir ↦
          alone-act fs fuel 6 w w (at_flag d i) (at_array d i)
            (act-flag w d i fi live at ∙ rw dir refl)
          ∙ alone-array w d i fi live at lt
          ∙ rw (at, dir, cache_subdir) refl
    ]
  ]
