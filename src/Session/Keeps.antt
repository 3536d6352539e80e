-- ===== src/Session/Keeps.antt =====
-- The changes that calls make to a session keep its invariants.
use libudfread.Common.{
  ℕ, ◌≡◌, ◌⊎◌, refl, sym, ◌∙◌, arith, ◌==◌, ltb, Bool, true, false, List, All, Option, none, some,
  Bool-cases, Option-cases, inl, inr, subst,
}
use libudfread.Common.Int.{ℤ, pos, negsuc}
use libudfread.Input.{BlockInput}
use libudfread.Fs.Listing.{IsListed, Appends, All-append}
use libudfread.Fs.Dir.{DirEntry}
use libudfread.Directory.{UdfDir}
use libudfread.Stream.{UdfFile}
use libudfread.File.Safety.{IsModest}
use libudfread.Stream.Safety.{IsFileState}
use libudfread.Tree.{DirTree, root_dir}
use libudfread.Tree.Grows.{Grows}
use libudfread.Tree.Reading.{IsTree}
use libudfread.Path.Safety.{Every, IsDirState}
use libudfread.Handle.{
  Udfread, Handler, handler_of, log_trace, fs_of, is_open, root_entries, is_below_last,
  udfread_set_log, udfread_set_log_level, udfread_select_partition,
}
use libudfread.Handle.Opening.{IsOpening}
use libudfread.Session.{Session, assign, set_udf, set_dir, set_file, with_root}
use libudfread.Session.State.{IsSession}

assign_cases :
    {A : Type 0} (vars : ℕ → Option A) (v : ℕ) (value : Option A) (w : ℕ) (p : A)
    → assign vars v value w ≡ some p
    → (value ≡ some p) ⊎ (vars w ≡ some p)
assign_cases vars v value w p e = elim (Bool-cases (w == v)) [
  | inl same ↦ inl (sym (rw same refl) ∙ e)
  | inr other ↦ inr (sym (rw other refl) ∙ e)
]

module _ (fuel : ℕ) where
  pub set_dir-IsSession :
      (s : Session) (v : ℕ) (dir : Option UdfDir)
      → IsSession fuel s
      → Every (λ p. IsDirState s.udf.root p × ¬ (s.udf.input ≡ none)) dir
      → IsSession fuel (set_dir s v dir)
  set_dir-IsSession s v dir h k = record {
    handle = h.handle;
    listed = h.listed;
    modest = h.modest;
    cached = h.cached;
    streams = λ w p e. elim (assign_cases s.dirs v dir w p e) [
      | inl new ↦ subst (λ o. Every (λ p. IsDirState s.udf.root p × ¬ (s.udf.input ≡ none)) o) new k
      | inr old ↦ h.streams w p old
    ];
    opened = h.opened;
  }

  pub set_file-IsSession :
      (s : Session) (v : ℕ) (file : Option UdfFile)
      → IsSession fuel s
      → Every (λ p. IsFileState p × ¬ (s.udf.input ≡ none)) file
      → IsSession fuel (set_file s v file)
  set_file-IsSession s v file h k = record {
    handle = h.handle;
    listed = h.listed;
    modest = h.modest;
    cached = h.cached;
    streams = h.streams;
    opened = λ w p e. elim (assign_cases s.files v file w p e) [
      | inl new ↦ subst (λ o. Every (λ p. IsFileState p × ¬ (s.udf.input ≡ none)) o) new k
      | inr old ↦ h.opened w p old
    ];
  }

  -- The cache has grown.
  pub with_root-IsSession :
      (s : Session) (t : DirTree) (input : BlockInput)
      → IsSession fuel s
      → s.udf.input ≡ some input
      → Grows s.udf.root t
      → IsTree (fs_of s.udf input) fuel t
      → IsSession fuel (with_root s t)
  with_root-IsSession s t input h e g tree = record {
    handle = record { room = h.handle.room; parts = h.handle.parts; bare = λ closed. absurd cc };
    listed =
        subst (λ l. All IsListed l) (sym (g.same root_dir (h.cached input e).has_root)) h.listed;
    modest = h.modest;
    cached = λ other e'.
        let same : input ≡ other = cc in subst (λ i. IsTree (fs_of s.udf i) fuel t) same tree;
    streams = λ v p e'.
        let ((lt, here, all), is_open) = h.streams v p e' in
        ((omega (arith, g.more), g.same p.dir lt ∙ here, all), is_open);
    opened = h.opened;
  }

  -- A setting has changed.
  setting-IsSession :
      (s : Session) (level : ℕ) (handler : Handler) (logging : Bool) (partition : ℤ)
      → IsSession fuel s
      → IsSession fuel (
          set_udf s (record s.udf {
            level = level;
            handler = handler;
            logging = logging;
            partition_to_open = partition;
          }))
  setting-IsSession s level handler logging partition h = record {
    handle = record { room = h.handle.room; parts = h.handle.parts; bare = h.handle.bare };
    listed = h.listed;
    modest = h.modest;
    cached = h.cached;
    streams = h.streams;
    opened = h.opened;
  }

  pub set_log-IsSession :
      (s : Session) (ctx : ℕ) (logger : Option ℕ)
      → IsSession fuel s
      → IsSession fuel (set_udf s (udfread_set_log s.udf ctx logger).1)
  unfolding udfread_set_log
  set_log-IsSession s ctx logger h = elim (Bool-cases (is_open s.udf)) [
    | inl open' ↦ rw open' h
    | inr closed ↦ rw closed (
        setting-IsSession s s.udf.level (handler_of ctx logger) s.udf.logging
          s.udf.partition_to_open h)
  ]

  pub set_log_level-IsSession :
      (s : Session) (level : ℤ)
      → IsSession fuel s
      → IsSession fuel (set_udf s (udfread_set_log_level s.udf level).1)
  unfolding udfread_set_log_level
  set_log_level-IsSession s (negsuc n) h = h
  set_log_level-IsSession s (pos level) h = elim (Bool-cases (ltb log_trace level)) [
    | inl above ↦ rw above h
    | inr below ↦ rw below (elim (Bool-cases (level == 0)) [
      | inl off ↦
          rw off (setting-IsSession s s.udf.level s.udf.handler false s.udf.partition_to_open h)
      | inr on ↦ rw on (setting-IsSession s level s.udf.handler true s.udf.partition_to_open h)
    ])
  ]

  pub select_partition-IsSession :
      (s : Session) (partition : ℤ)
      → IsSession fuel s
      → IsSession fuel (set_udf s (udfread_select_partition s.udf partition).1)
  unfolding udfread_select_partition
  select_partition-IsSession s partition h = elim (Bool-cases (is_open s.udf)) [
    | inl open' ↦ rw open' h
    | inr closed ↦ rw closed (elim (Bool-cases (is_below_last partition)) [
      | inl bad ↦ rw bad h
      | inr good ↦ rw good (setting-IsSession s s.udf.level s.udf.handler s.udf.logging partition h)
    ])
  ]

  appended : (dir dir' : List DirEntry) → All IsListed dir → Appends dir dir' → All IsListed dir'
  appended dir dir' h (more, e, all) =
      subst (λ l. All IsListed l) (sym e) (All-append dir more h all)

  -- A handle on which an open has been tried.
  pub opening-IsSession :
      (s : Session) (input : BlockInput) (r : Bool × Udfread)
      → IsSession fuel s
      → IsModest input
      → IsOpening fuel input s.udf r
      → IsSession fuel (set_udf s r.1)
  opening-IsSession s input r h modest k = elim (Option-cases s.udf.input) [
    | inr (already, e) ↦ subst (λ u. IsSession fuel (set_udf s u)) (sym (k.refused already e)) h
    | inl closed ↦ record {
      handle = k.handle;
      listed = appended (root_entries s.udf) (root_entries r.1) h.listed k.grown;
      modest = λ other e. (now r.0 refl closed other e).0;
      cached = λ other e. (now r.0 refl closed other e).1;
      streams = λ v p e. absurd ((h.streams v p e).1 closed);
      opened = λ v p e. absurd ((h.opened v p e).1 closed);
    }
  ]
    where
      now :
          (ok : Bool)
          → r.0 ≡ ok
          → s.udf.input ≡ none
          → (other : BlockInput) → r.1.input ≡ some other
          → IsModest other × IsTree (fs_of r.1 other) fuel r.1.root
      now false e closed other e' = let is_none : r.1.input ≡ none = k.kept e ∙ closed in absurd cc
      now true e closed other e' =
          let (was, holds, parts, app, tree) = k.opened e in
          let same : input ≡ other = cc in
          (
            subst (λ i. IsModest i) same modest,
            subst (λ i. IsTree (fs_of r.1 i) fuel r.1.root) same tree,
          )
