-- ===== src/Sharing/Results.antt =====
-- Threads in `_cache_subdir` of src/udfread.c, in every state that their steps lead to.
use libudfread.Common.{
  ℕ, ◌<◌, ◌≡◌, ◌≢◌, inl, inr, refl, sym, ◌∙◌, arith, false, List, Option, some, subst, Bool-cases,
  ◌==◌, ==→eq, ==_false→ne, All,
}
use libudfread.Memory.{Safe, done, fault}
use libudfread.Fs.{UdfFs}
use libudfread.Fs.Dir.{DirEntry}
use libudfread.Fs.Listing.{IsListed}
use libudfread.Directory.{file_at}
use libudfread.Tree.{pointer_in}
use libudfread.Tree.Grows.{Grows, Grows-refl, Grows-trans}
use libudfread.Tree.Forest.{IsPointer}
use libudfread.Tree.{root_only}
use libudfread.Tree.Reading.{IsSubdir}
use libudfread.Sharing.{
  World, Thread, at_flag, returned, act, System, set_thread, IsReached, Step, acts, calls, start,
  Run, here, later,
}
use libudfread.Sharing.Invariant.{owned, IsAt, IsGood, owned_below, later_IsAt}
use libudfread.Sharing.Moves.{Later-refl}
use libudfread.Sharing.Steps.{IsMoved, act-IsMoved}

module _ (fs : UdfFs) (fuel : ℕ) where
  -- Whatever thread `k` comes to, the invariant holds again if the others keep what they know.
  moved-IsGood :
      (s : System) (k : ℕ) (w : World) (th : Thread)
      → IsGood fs fuel s
      → IsMoved fs fuel s.world (s.threads k) (w, th)
      → IsGood fs fuel (record { world = w; threads = set_thread s.threads k th })
  moved-IsGood s k w th g m = record { world = m.world; at = at; apart = apart }
    where
      at : (j : ℕ) → IsAt fs fuel w (set_thread s.threads k th j)
      at j = elim (Bool-cases (j == k)) [
        | inl same ↦ rw same m.at
        | inr other ↦ rw other (
            later_IsAt fs fuel (owned (s.threads k)) s.world w m.later (s.threads j)
              (λ c mine its. ==_false→ne j k other (g.apart j k c mine its)) (g.at j))
      ]

      -- what thread `k` owns now, no other thread does
      alone : (j c : ℕ) → owned th ≡ some c → owned (s.threads j) ≡ some c → ⊥
      alone j c new mine =
          omega (arith, m.fresh c new, owned_below fs fuel s.world (s.threads j) c (g.at j) mine)

      apart :
          (i j c : ℕ)
          → owned (set_thread s.threads k th i) ≡ some c
          → owned (set_thread s.threads k th j) ≡ some c
          → i ≡ j
      apart i j c a b = elim (Bool-cases (i == k)) [
        | inl ik ↦ elim (Bool-cases (j == k)) [
          | inl jk ↦ omega (arith, ==→eq _ _ ik, ==→eq _ _ jk)
          | inr other ↦ absurd (alone j c (ground (arith, a)) (ground (arith, b)))
        ]
        | inr other ↦ elim (Bool-cases (j == k)) [
          | inl jk ↦ absurd (alone i c (ground (arith, b)) (ground (arith, a)))
          | inr others ↦ g.apart i j c (ground (arith, a)) (ground (arith, b))
        ]
      ]

  call-IsMoved :
      (s : System) (k d i d' i' : ℕ) (r : Option ℕ) (fi : DirEntry)
      → IsGood fs fuel s
      → s.threads k ≡ returned d' i' r
      → d < s.world.tree.used
      → IsReached s.world.tree d
      → file_at (s.world.tree.cells d).entries i ≡ some fi
      → IsMoved fs fuel s.world (s.threads k) (s.world, at_flag d i)
  unfolding owned
  call-IsMoved s k d i d' i' r fi g idle lt reached at = record {
    world = g.world;
    later = Later-refl _ s.world;
    at = ((lt, reached), (fi, at));
    fresh = λ c e. absurd cc;
  }

  acted-IsMoved :
      (s : System) (k : ℕ) (w : World) (th : Thread)
      → IsGood fs fuel s
      → act fs fuel s.world (s.threads k) ≡ done (w, th)
      → IsMoved fs fuel s.world (s.threads k) (w, th)
  acted-IsMoved s k w th g e =
      subst (Safe (IsMoved fs fuel s.world (s.threads k))) e
        (act-IsMoved fs fuel s.world (s.threads k) g.world (g.at k))

  Step-IsGood : (s t : System) → Step fs fuel s t → IsGood fs fuel s → IsGood fs fuel t
  Step-IsGood s _ (acts k w th e) g = moved-IsGood s k w th g (acted-IsMoved s k w th g e)
  Step-IsGood s _ (calls k d i d' i' r fi idle lt reached at) g =
      moved-IsGood s k s.world (at_flag d i) g
        (call-IsMoved s k d i d' i' r fi g idle lt reached at)

  Step-Grows :
      (s t : System) → Step fs fuel s t → IsGood fs fuel s → Grows s.world.tree t.world.tree
  Step-Grows s _ (acts k w th e) g = (acted-IsMoved s k w th g e).later.grows
  Step-Grows s _ (calls k d i d' i' r fi idle lt reached at) g = Grows-refl s.world.tree

  Run-IsGood : (s t : System) → Run fs fuel s t → IsGood fs fuel s → IsGood fs fuel t
  Run-IsGood s _ here g = g
  Run-IsGood s u (later {t} r st) g = Step-IsGood t u st (Run-IsGood s t r g)

  Run-Grows : (s t : System) → Run fs fuel s t → IsGood fs fuel s → Grows s.world.tree t.world.tree
  Run-Grows s _ here g = Grows-refl s.world.tree
  Run-Grows s u (later {t} r st) g =
      Grows-trans s.world.tree t.world.tree u.world.tree (Run-Grows s t r g)
        (Step-Grows t u st (Run-IsGood s t r g))

  start-IsGood : (entries : List DirEntry) → All IsListed entries → IsGood fs fuel (start entries)
  unfolding owned pointer_in
  start-IsGood entries all = record {
    world = record {
      tree = record {
        has_root = omega arith;
        forest = record {
          up = λ d i c p. absurd (empty d i c p);
          unique = λ d i e j c p q. absurd (empty d i c p);
        };
        linked = λ d i c lt e. absurd cc;
      };
      alive = λ c h. refl;
      below = λ c e. absurd cc;
      listed = λ d lt. rw (root_of d lt) all;
    };
    at = λ k. tt;
    apart = λ j k c e f. absurd cc;
  }
    where
      empty : (d i c : ℕ) → IsPointer (root_only entries) d i c → ⊥
      empty d i c p = cc

      root_of : (d : ℕ) → d < 1 → d ≡ 0
      root_of d lt = omega arith

  -- Threads that use one handle at the same time do not step outside of memory in `_cache_subdir`:
  -- in no order of their steps does a thread follow a pointer that is NULL or to a directory that
  -- has been freed, or take an entry that is not there. realloc gives no array of 46 GiB or more.
  pub act_safe :
      (entries : List DirEntry) (s : System) (k : ℕ)
      → All IsListed entries
      → Run fs fuel (start entries) s
      → act fs fuel s.world (s.threads k) ≢ fault
  act_safe entries s k all r e =
      let g = Run-IsGood (start entries) s r (start-IsGood entries all) in
      subst (Safe (IsMoved fs fuel s.world (s.threads k))) e
        (act-IsMoved fs fuel s.world (s.threads k) g.world (g.at k))

  -- All threads to which `_cache_subdir` returns a directory for an entry get the same one, also
  -- when one of them returns much later. It is not freed, and its entries are, at any later time,
  -- those that the disc has for that entry. realloc gives no array of 46 GiB or more.
  pub returned_agree :
      (entries : List DirEntry) (s t : System) (j k d i c c' : ℕ)
      → All IsListed entries
      → Run fs fuel (start entries) s
      → Run fs fuel s t
      → s.threads j ≡ returned d i (some c)
      → t.threads k ≡ returned d i (some c')
      → (c' ≡ c)
        × (t.world.freed c ≡ false)
        × IsSubdir fs fuel (t.world.tree.cells d).entries i (t.world.tree.cells c).entries
        × ((t.world.tree.cells c).entries ≡ (s.world.tree.cells c).entries)
  returned_agree entries s t j k d i c c' all before after first second =
      let g = Run-IsGood (start entries) s before (start-IsGood entries all) in
      let g' = Run-IsGood s t after g in
      let grows = Run-Grows s t after g in
      let (lt, here_s) = subst (IsAt fs fuel s.world) first (g.at j) in
      let (lt', here_t) = subst (IsAt fs fuel t.world) second (g'.at k) in
      let kept = grows.kept d i c lt here_s in
      let (c_lt, is) = g'.world.tree.linked d i c lt' kept in
      let both : some c' ≡ some c = sym here_t ∙ kept in
      (
        (let same : c' ≡ c = cc in same),
        g'.world.alive c (inr (d, i, lt', kept)),
        is,
        grows.same c (g.world.tree.linked d i c lt here_s).0,
      )
