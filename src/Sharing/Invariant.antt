-- ===== src/Sharing/Invariant.antt =====
-- What holds between the steps of the threads in `_cache_subdir` of src/udfread.c, and what the
-- step of one thread leaves to the others.
use libudfread.Common.{
  ℕ, ◌<◌, ◌≡◌, ◌≢◌, ◌⊎◌, inl, inr, refl, ap, ◌∙◌, arith, true, false, Option, none, some, subst,
  Bool-cases,
}
use libudfread.Common.{All}
use libudfread.Fs.{UdfFs}
use libudfread.Fs.Dir.{DirEntry}
use libudfread.Fs.Listing.{IsListed}
use libudfread.Directory.{file_at}
use libudfread.Tree.{DirTree, root_dir, is_dir, pointer_in}
use libudfread.Tree.Grows.{Grows}
use libudfread.Tree.Reading.{IsTree, IsSubdir, IsSubdir-eq}
use libudfread.Sharing.{
  World, Thread, at_flag, at_array, new_array, at_slot, at_read, new_subdir, at_return, returned,
  System, IsLinked, IsReached,
}

abbrev pub HasArray : DirTree → ℕ → Type 0
HasArray t d = (subdirs : ℕ → Option ℕ) × ((t.cells d).subdirs ≡ some subdirs)

-- the directory that a thread has read and not yet given away
unfoldable pub owned : Thread → Option ℕ
owned (at_flag d i) = none
owned (at_array d i) = none
owned (new_array d i) = none
owned (at_slot d i) = none
owned (at_read d i) = none
owned (new_subdir d i c) = some c
owned (at_return d i) = none
owned (returned d i r) = none

-- What a step does to the world that others rely on. Only `own` may be linked or freed by it.
pub record Later (own : Option ℕ) (w w' : World) : Type 0 where
  pub grows : Grows w.tree w'.tree
  pub arrays : (d : ℕ) → d < w.tree.used → HasArray w.tree d → HasArray w'.tree d
  pub links : (c : ℕ) → IsLinked w'.tree c → IsLinked w.tree c ⊎ (own ≡ some c)
  pub frees : (c : ℕ) → w'.freed c ≡ true → (w.freed c ≡ true) ⊎ (own ≡ some c)

abbrev pub IsCall : DirTree → ℕ → Type 0
IsCall t d = (d < t.used) × IsReached t d

-- an entry that is a directory
abbrev pub IsFolder : DirTree → ℕ → ℕ → Type 0
IsFolder t d i = (fi : DirEntry) × (file_at (t.cells d).entries i ≡ some fi) × (is_dir fi ≡ true)

module _ (fs : UdfFs) (fuel : ℕ) where
  -- A directory that has been read for entry `i` of `d`, and to which no pointer leads.
  pub record IsOwn (w : World) (d i c : ℕ) : Type 0 where
    pub below : c < w.tree.used
    pub above : d < c
    pub alive : w.freed c ≡ false
    pub not_root : c ≢ root_dir
    pub unlinked : ¬ IsLinked w.tree c
    pub subdir : IsSubdir fs fuel (w.tree.cells d).entries i (w.tree.cells c).entries

  abbrev pub IsResult : DirTree → ℕ → ℕ → Option ℕ → Type 0
  IsResult t d i none = Unit
  IsResult t d i (some c) = (d < t.used) × (pointer_in (t.cells d).subdirs i ≡ some c)

  -- what a thread knows at each place
  abbrev pub IsAt : World → Thread → Type 0
  IsAt w (at_flag d i) =
      IsCall w.tree d × ((fi : DirEntry) × (file_at (w.tree.cells d).entries i ≡ some fi))
  IsAt w (at_array d i) = IsCall w.tree d × IsFolder w.tree d i
  IsAt w (new_array d i) = IsCall w.tree d × IsFolder w.tree d i
  IsAt w (at_slot d i) = IsCall w.tree d × IsFolder w.tree d i × HasArray w.tree d
  IsAt w (at_read d i) = IsCall w.tree d × IsFolder w.tree d i × HasArray w.tree d
  IsAt w (new_subdir d i c) =
      IsCall w.tree d × IsFolder w.tree d i × HasArray w.tree d × IsOwn w d i c
  IsAt w (at_return d i) = IsCall w.tree d × HasArray w.tree d
  IsAt w (returned d i r) = IsResult w.tree d i r

  -- the store: what is linked is alive and as on the disc, and entries have locations in range
  pub record IsWorld (w : World) : Type 0 where
    pub tree : IsTree fs fuel w.tree
    pub alive : (c : ℕ) → IsReached w.tree c → w.freed c ≡ false
    pub below : (c : ℕ) → w.freed c ≡ true → c < w.tree.used
    pub listed : (d : ℕ) → d < w.tree.used → All IsListed (w.tree.cells d).entries

  pub record IsGood (s : System) : Type 0 where
    pub world : IsWorld s.world
    pub at : (k : ℕ) → IsAt s.world (s.threads k)
    pub apart : (j k c : ℕ) → owned (s.threads j) ≡ some c → owned (s.threads k) ≡ some c → j ≡ k

  pub owned_below :
      (w : World) (th : Thread) (c : ℕ) → IsAt w th → owned th ≡ some c → c < w.tree.used
  unfolding owned
  owned_below w (at_flag d i) c h e = absurd cc
  owned_below w (at_array d i) c h e = absurd cc
  owned_below w (new_array d i) c h e = absurd cc
  owned_below w (at_slot d i) c h e = absurd cc
  owned_below w (at_read d i) c h e = absurd cc
  owned_below w (new_subdir d i o) c (call, folder, array, own) e =
      let same : o ≡ c = cc in subst (λ c. c < w.tree.used) same own.below
  owned_below w (at_return d i) c h e = absurd cc
  owned_below w (returned d i r) c h e = absurd cc

  module _ (own : Option ℕ) (w w' : World) (l : Later own w w') where
    later-IsLinked : (c : ℕ) → IsLinked w.tree c → IsLinked w'.tree c
    later-IsLinked c (e, j, lt, p) = (e, j, omega (arith, l.grows.more), l.grows.kept e j c lt p)

    pub later-IsCall : (d : ℕ) → IsCall w.tree d → IsCall w'.tree d
    later-IsCall d (lt, inl root) = (omega (arith, l.grows.more), inl root)
    later-IsCall d (lt, inr linked) = (omega (arith, l.grows.more), inr (later-IsLinked d linked))

    later_file :
        (d i : ℕ) (fi : DirEntry)
        → d < w.tree.used
        → file_at (w.tree.cells d).entries i ≡ some fi
        → file_at (w'.tree.cells d).entries i ≡ some fi
    later_file d i fi lt e = ap (λ es. file_at es i) (l.grows.same d lt) ∙ e

    pub later-IsFolder : (d i : ℕ) → d < w.tree.used → IsFolder w.tree d i → IsFolder w'.tree d i
    later-IsFolder d i lt (fi, e, is) = (fi, later_file d i fi lt e, is)

    later_IsOwn : (d i c : ℕ) → d < w.tree.used → own ≢ some c → IsOwn w d i c → IsOwn w' d i c
    later_IsOwn d i c lt other o = record {
      below = omega (arith, l.grows.more, o.below);
      above = o.above;
      alive = elim (Bool-cases (w'.freed c)) [
        | inr kept ↦ kept
        | inl freed ↦ elim (l.frees c freed) [
          | inl before ↦ absurd cc
          | inr mine ↦ absurd (other mine)
        ]
      ];
      not_root = o.not_root;
      unlinked = λ linked. elim (l.links c linked) [
        | inl before ↦ o.unlinked before
        | inr mine ↦ other mine
      ];
      subdir =
          IsSubdir-eq fs fuel (w.tree.cells d).entries _ i i (w.tree.cells c).entries _
            (l.grows.same d lt) refl (l.grows.same c o.below) o.subdir;
    }

    -- The step of one thread keeps what the others know, if it does not own what they own.
    pub later_IsAt :
        (th : Thread) → ((c : ℕ) → owned th ≡ some c → own ≢ some c) → IsAt w th → IsAt w' th
    unfolding owned
    later_IsAt (at_flag d i) other (call, (fi, e)) =
        (later-IsCall d call, (fi, later_file d i fi call.0 e))
    later_IsAt (at_array d i) other (call, folder) =
        (later-IsCall d call, later-IsFolder d i call.0 folder)
    later_IsAt (new_array d i) other (call, folder) =
        (later-IsCall d call, later-IsFolder d i call.0 folder)
    later_IsAt (at_slot d i) other (call, folder, array) =
        (later-IsCall d call, later-IsFolder d i call.0 folder, l.arrays d call.0 array)
    later_IsAt (at_read d i) other (call, folder, array) =
        (later-IsCall d call, later-IsFolder d i call.0 folder, l.arrays d call.0 array)
    later_IsAt (new_subdir d i c) other (call, folder, array, o) = (
      later-IsCall d call,
      later-IsFolder d i call.0 folder,
      l.arrays d call.0 array,
      later_IsOwn d i c call.0 (other c refl) o,
    )
    later_IsAt (at_return d i) other (call, array) = (later-IsCall d call, l.arrays d call.0 array)
    later_IsAt (returned d i none) other h = tt
    later_IsAt (returned d i (some c)) other (lt, p) =
        (omega (arith, l.grows.more), l.grows.kept d i c lt p)
