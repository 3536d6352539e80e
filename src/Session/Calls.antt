-- ===== src/Session/Calls.antt =====
-- What the calls of a program do to the invariants of its session, one kind of call at a time.
use libudfread.Common.{
  ℕ, ◌-◌, ◌^◌, ◌<◌, ◌≡◌, refl, arith, ◌==◌, Bool, true, false, List, [], ◌∷◌, Option, none, some,
  Bool-cases, Option-cases, inl, inr, ==→eq,
}
use libudfread.Common.Int.{ℤ, pos, negsuc, ◌+ℤ◌}
use libudfread.Memory.{Mem, Safe, Returns, done, ◌>>=◌}
use libudfread.Memory.Words.{Safe-bind, Returns-bind}
use libudfread.Input.{BlockInput}
use libudfread.Directory.{UdfDir, udfread_readdir, udfread_rewinddir, file_at}
use libudfread.FileEntry.{FileEntry}
use libudfread.File.{Disc}
use libudfread.Stream.{
  UdfFile, Reply, udfread_file_seek, udfread_file_tell, udfread_file_size, add_signed, seek_cur,
  seek_end, seek_set, seek_target, seek_to,
}
use libudfread.File.Safety.{IsModest}
use libudfread.Stream.Safety.{IsFileState, IsSafeRead}
use libudfread.Tree.{DirTree}
use libudfread.Path.{udfread_opendir, udfread_file_open}
use libudfread.Path.Safety.{Every, IsDirState, IsSafeOpen, udfread_opendir-Safe}
use libudfread.Path.Files.{udfread_file_open-Safe}
use libudfread.Handle.{Udfread, Opened, closed_unless, fs_of, udfread_open_input, udfread_open}
use libudfread.Handle.Opening.{udfread_open_input-Safe}
use libudfread.Session.{
  Session, set_udf, with_root, opened_dir, opened_file, call_opendir, call_file_open, on_dir,
  on_file,
}
use libudfread.Session.State.{IsInt64, IsSeekable, IsSession}
use libudfread.Session.Keeps.{
  set_dir-IsSession, set_file-IsSession, with_root-IsSession, opening-IsSession,
}

-- A seek whose sum does not overflow.
module _ (p : UdfFile) (h : IsFileState p) where
  seek_to-IsFileState :
      (target : Option ℤ) → Every IsInt64 target → IsFileState (seek_to p target).1
  unfolding seek_to
  seek_to-IsFileState none k = h
  seek_to-IsFileState (some (pos n)) k = record { room = h.room; in_range = ground arith }
  seek_to-IsFileState (some (negsuc n)) k = h

  add_signed_lem : (a b : ℤ) → IsInt64 (a +ℤ b) → add_signed a b ≡ done (a +ℤ b)
  unfolding add_signed
  add_signed_lem a b k = rw k refl

  seek_target-IsInt64 :
      (offset : ℤ) (whence : ℕ)
      → IsSeekable offset whence p
      → Returns (Every IsInt64) (seek_target p offset whence)
  unfolding seek_target
  seek_target-IsInt64 offset whence (fits, cur, end) = elim (Bool-cases (whence == seek_cur)) [
    | inl at_cur ↦
        rw (at_cur, add_signed_lem (udfread_file_tell p) offset (cur (==→eq _ _ at_cur)))
          (cur (==→eq _ _ at_cur))
    | inr not_cur ↦ rw not_cur (elim (Bool-cases (whence == seek_end)) [
      | inl at_end ↦
          rw (at_end, add_signed_lem (udfread_file_size p) offset (end (==→eq _ _ at_end)))
            (end (==→eq _ _ at_end))
      | inr not_end ↦ rw not_end (elim (Bool-cases (whence == seek_set)) [
        | inl at_set ↦ rw at_set fits
        | inr other ↦ rw other tt
      ])
    ])
  ]

  pub seek-IsFileState :
      (offset : ℤ) (whence : ℕ)
      → IsSeekable offset whence p
      → Returns (λ r. IsFileState r.1) (udfread_file_seek p offset whence)
  unfolding udfread_file_seek
  seek-IsFileState offset whence k =
      Returns-bind _ (seek_target p offset whence) _ (seek_target-IsInt64 offset whence k)
        (λ target l. seek_to-IsFileState target l)

pub readdir-IsDirState :
    (t : DirTree) (p : UdfDir) → IsDirState t p → IsDirState t (udfread_readdir p).1
unfolding udfread_readdir
readdir-IsDirState t p k = elim (Option-cases (file_at p.files p.current_file)) [
  | inl end ↦ rw (end, udfread_readdir) k
  | inr (fi, at) ↦ rw (at, udfread_readdir) k
]

pub rewinddir-IsDirState :
    (t : DirTree) (p : UdfDir) → IsDirState t p → IsDirState t (udfread_rewinddir p)
unfolding udfread_rewinddir
rewinddir-IsDirState t p k = k

pub read-IsFileState :
    (disc : Disc) (fe : FileEntry) (small : fe.length < 2 ^ 63 - 2048)
    (modest : IsModest disc.input) (len total : ℕ) (r : Reply)
    → IsSafeRead disc fe small modest len total r
    → IsFileState r.1
read-IsFileState disc fe small modest len total (none, p, buf) k = k.0
read-IsFileState disc fe small modest len total (some n, p, buf) k = k.1

module _ (fuel : ℕ) where
  pub on_dir-Safe :
      (s : Session) (w : ℕ) (null : Mem Session) (call : BlockInput → UdfDir → Mem Session)
      → IsSession fuel s
      → Safe (IsSession fuel) null
      → ((input : BlockInput) (p : UdfDir)
          → s.udf.input ≡ some input
          → IsDirState s.udf.root p
          → Safe (IsSession fuel) (call input p))
      → Safe (IsSession fuel) (on_dir s w null call)
  unfolding on_dir
  on_dir-Safe s w null call h k l = elim (Option-cases (s.dirs w)) [
    | inl is_null ↦ rw (is_null, on_dir) k
    | inr (p, e) ↦ elim (Option-cases s.udf.input) [
      | inl closed ↦ absurd ((h.streams w p e).1 closed)
      | inr (input, is_open) ↦ rw (e, is_open, on_dir) (l input p is_open (h.streams w p e).0)
    ]
  ]

  pub on_file-Safe :
      (s : Session) (w : ℕ) (call : BlockInput → UdfFile → Mem Session)
      → IsSession fuel s
      → ((input : BlockInput) (p : UdfFile)
          → s.udf.input ≡ some input
          → s.files w ≡ some p
          → IsFileState p
          → Safe (IsSession fuel) (call input p))
      → Safe (IsSession fuel) (on_file s w call)
  unfolding on_file
  on_file-Safe s w call h l = elim (Option-cases (s.files w)) [
    | inl is_null ↦ rw (is_null, on_file) h
    | inr (p, e) ↦ elim (Option-cases s.udf.input) [
      | inl closed ↦ absurd ((h.opened w p e).1 closed)
      | inr (input, is_open) ↦ rw (e, is_open, on_file) (l input p is_open e (h.opened w p e).0)
    ]
  ]

  pub opened_dir-IsSession :
      (s : Session) (v : ℕ) (input : BlockInput) (r : Option UdfDir × DirTree)
      → IsSession fuel s
      → s.udf.input ≡ some input
      → IsSafeOpen (fs_of s.udf input) fuel IsDirState s.udf.root r
      → IsSession fuel (opened_dir s v r)
  opened_dir-IsSession s v input (dir, t) h e (g, tree, k) =
      set_dir-IsSession fuel (with_root s t) v dir (with_root-IsSession fuel s t input h e g tree)
        (every_open dir k)
    where
      every_open :
          (dir : Option UdfDir)
          → Every (IsDirState t) dir
          → Every (λ p. IsDirState t p × ¬ (s.udf.input ≡ none)) dir
      every_open none k = tt
      every_open (some p) k = (k, λ closed. cc)

  opened_file-IsSession :
      (s : Session) (v : ℕ) (input : BlockInput) (r : Option UdfFile × DirTree)
      → IsSession fuel s
      → s.udf.input ≡ some input
      → IsSafeOpen (fs_of s.udf input) fuel (λ u p. IsFileState p) s.udf.root r
      → IsSession fuel (opened_file s v r)
  opened_file-IsSession s v input (file, t) h e (g, tree, k) =
      set_file-IsSession fuel (with_root s t) v file (with_root-IsSession fuel s t input h e g tree)
        (every_open file k)
    where
      every_open :
          (file : Option UdfFile)
          → Every IsFileState file
          → Every (λ p. IsFileState p × ¬ (s.udf.input ≡ none)) file
      every_open none k = tt
      every_open (some p) k = (k, λ closed. cc)

  module _ (block_input_new : List ℕ → Option BlockInput)
      (all_modest : (path : List ℕ) → Every IsModest (block_input_new path)) where
    pub call_opendir-Safe :
        (s : Session) (v : ℕ) (path : List ℕ)
        → IsSession fuel s
        → Safe (IsSession fuel) (call_opendir block_input_new fuel s v path)
    unfolding call_opendir
    call_opendir-Safe s v path h = elim (Option-cases s.udf.input) [
      | inl closed ↦ rw (closed, call_opendir) (set_dir-IsSession fuel s v none h tt)
      | inr (input, e) ↦
          rw (e, call_opendir)
            (Safe-bind _ (udfread_opendir (fs_of s.udf input) fuel s.udf.root path) _
              (udfread_opendir-Safe (fs_of s.udf input) fuel s.udf.root path (h.cached input e)
                h.listed)
              (λ r k. opened_dir-IsSession s v input r h e k))
    ]

    pub call_file_open-Safe :
        (s : Session) (v : ℕ) (path : List ℕ)
        → IsSession fuel s
        → Safe (IsSession fuel) (call_file_open block_input_new fuel s v path)
    unfolding call_file_open
    call_file_open-Safe s v path h = elim (Option-cases s.udf.input) [
      | inl closed ↦ rw (closed, call_file_open) (set_file-IsSession fuel s v none h tt)
      | inr (input, e) ↦
          rw (e, call_file_open)
            (Safe-bind _ (udfread_file_open (fs_of s.udf input) fuel s.udf.root path) _
              (udfread_file_open-Safe (fs_of s.udf input) fuel s.udf.root path (h.cached input e)
                h.listed)
              (λ r k. opened_file-IsSession s v input r h e k))
    ]

    made_lem :
        (s : Session) (made : Option BlockInput)
        → IsSession fuel s
        → Every IsModest made
        → Safe
            (λ (o : Opened). IsSession fuel (set_udf s o.udf))
            (elim made [
              | none ↦ done (record { ok = false; udf = s.udf; closed = [] })
              | some input ↦ do
                r ← udfread_open_input fuel s.udf input
                done (closed_unless input r)
            ])
    made_lem s none h k = h
    made_lem s (some input) h k =
        Safe-bind _ (udfread_open_input fuel s.udf input) _
          (udfread_open_input-Safe fuel input s.udf h.handle)
          (λ r l. either input r (opening-IsSession fuel s input r h k l))
      where
        either :
            (input : BlockInput) (r : Bool × Udfread)
            → IsSession fuel (set_udf s r.1)
            → IsSession fuel (set_udf s (closed_unless input r).udf)
        either input (true, udf') k = k
        either input (false, udf') k = k

    pub udfread_open-Safe :
        (s : Session) (path : List ℕ)
        → IsSession fuel s
        → Safe
            (λ (o : Opened). IsSession fuel (set_udf s o.udf))
            (udfread_open block_input_new fuel s.udf path)
    unfolding udfread_open
    udfread_open-Safe s [] h = h
    udfread_open-Safe s (ch ∷ path) h =
        made_lem s (block_input_new (ch ∷ path)) h (all_modest (ch ∷ path))
