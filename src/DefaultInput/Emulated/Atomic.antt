-- ===== src/DefaultInput/Emulated/Atomic.antt =====
-- The lock in `pread_impl` of src/default_blockinput.c makes each call read at its own offset.
use libudfread.Common.{
  ℕ, ◌==◌, ◌≡◌, ◌≢◌, refl, sym, ap, ◌∙◌, arith, true, Option, none, some, Bool-cases, inl, inr,
  subst, ==→eq, ==_false→ne,
}
use libudfread.DefaultInput.{Pread}
use libudfread.DefaultInput.Emulated.{
  Request, Descriptor, Caller, idle, waiting, locked, placed, unlocking, returned, Shared, Threads,
  after_lseek, pread_step, pread_impl, set_caller, Run, here, steps, calls,
}

module _ (fd : Descriptor) where
  -- What holds for thread `k`: between lock and unlock it has the lock; behind its lseek the
  -- position is its own; and its result is that of the call as a whole.
  abbrev IsCaller : Shared → ℕ → Caller → Type 0
  IsCaller s k idle = Unit
  IsCaller s k (waiting r) = Unit
  IsCaller s k (locked r) = s.owner ≡ some k
  IsCaller s k (placed r) =
      (s.owner ≡ some k) × (s.position ≡ r.offset) × (fd.lseek r.offset ≡ some r.offset)
  IsCaller s k (unlocking r result) = (s.owner ≡ some k) × (result ≡ pread_impl fd r)
  IsCaller s k (returned r result) = result ≡ pread_impl fd r

  abbrev IsGood : Threads → Type 0
  IsGood t = (k : ℕ) → IsCaller t.shared k (t.callers k)

  -- No other thread has the lock.
  abbrev IsAlone : Shared → ℕ → Type 0
  IsAlone s k = (j : ℕ) → j ≢ k → s.owner ≢ some j

  owner-IsAlone : (s : Shared) (k : ℕ) → s.owner ≡ some k → IsAlone s k
  owner-IsAlone s k e j ne f = let same : k ≡ j = cc in ne (sym same)

  free-IsAlone : (s : Shared) (k : ℕ) → s.owner ≡ none → IsAlone s k
  free-IsAlone s k e j ne f = cc

  -- A step of another thread, which no thread with the lock lets through.
  other-IsCaller :
      (s s' : Shared) (k j : ℕ) (c : Caller)
      → IsAlone s k
      → j ≢ k
      → IsCaller s j c
      → IsCaller s' j c
  other-IsCaller s s' k j idle alone ne h = tt
  other-IsCaller s s' k j (waiting r) alone ne h = tt
  other-IsCaller s s' k j (locked r) alone ne h = absurd (alone j ne h)
  other-IsCaller s s' k j (placed r) alone ne h = absurd (alone j ne h.0)
  other-IsCaller s s' k j (unlocking r result) alone ne h = absurd (alone j ne h.0)
  other-IsCaller s s' k j (returned r result) alone ne h = h

  after_lseek-IsCaller :
      (s : Shared) (k : ℕ) (r : Request)
      → s.owner ≡ some k
      → (p : Option ℕ) → fd.lseek r.offset ≡ p
      → IsCaller (after_lseek fd s r p).0 k (after_lseek fd s r p).1
  unfolding after_lseek pread_impl
  after_lseek-IsCaller s k r mine none e = (mine, rw (e, pread_impl) refl)
  after_lseek-IsCaller s k r mine (some p) e = elim (Bool-cases (p == r.offset)) [
    | inl at ↦ let same : p ≡ r.offset = ==→eq p r.offset at in rw at (mine, same, e ∙ ap some same)
    | inr off ↦ rw off (mine, rw (e, off, pread_impl) refl)
  ]

  -- A step of the thread itself, and that no other one had the lock.
  abbrev IsOwn : Shared → ℕ → Option (Shared × Caller) → Type 0
  IsOwn s k none = Unit
  IsOwn s k (some (s', c')) = IsAlone s k × IsCaller s' k c'

  lock-IsOwn :
      (s : Shared) (k : ℕ) (r : Request) (owner : Option ℕ)
      → s.owner ≡ owner
      → IsOwn s k
          (elim owner [ none ↦ some (record s { owner = some k }, locked r) | some other ↦ none ])
  lock-IsOwn s k r none e = (free-IsAlone s k e, refl)
  lock-IsOwn s k r (some other) e = tt

  step-IsOwn : (s : Shared) (k : ℕ) (c : Caller) → IsCaller s k c → IsOwn s k (pread_step fd s k c)
  unfolding pread_step pread_impl
  step-IsOwn s k idle h = tt
  step-IsOwn s k (waiting r) h = lock-IsOwn s k r s.owner refl
  step-IsOwn s k (locked r) h =
      (owner-IsAlone s k h, after_lseek-IsCaller s k r h (fd.lseek r.offset) refl)
  step-IsOwn s k (placed r) (mine, at, e) =
      (owner-IsAlone s k mine, (mine, rw (at, e, same, pread_impl) refl))
    where
      same : (r.offset == r.offset) ≡ true
      same = ground arith
  step-IsOwn s k (unlocking r result) (mine, e) = (owner-IsAlone s k mine, e)
  step-IsOwn s k (returned r result) h = tt

  set-IsGood :
      (t : Threads) (s : Shared) (k : ℕ) (c : Caller)
      → IsCaller s k c
      → ((j : ℕ) → j ≢ k → IsCaller s j (t.callers j))
      → IsGood (record { shared = s; callers = set_caller fd t.callers k c })
  set-IsGood t s k c own others j = elim (Bool-cases (j == k)) [
    | inl same ↦ rw same (subst (λ i. IsCaller s i c) (sym (==→eq j k same)) own)
    | inr other ↦ rw other (others j (==_false→ne j k other))
  ]

  Run-IsGood : (t u : Threads) → Run fd t u → IsGood t → IsGood u
  Run-IsGood t _ here g = g
  Run-IsGood t _ (steps {u} k s c run e) g =
      let before = Run-IsGood t u run g in
      let own =
        subst (λ o. IsOwn u.shared k o) e (step-IsOwn u.shared k (u.callers k) (before k)) in
      set-IsGood u s k c own.1
        (λ j ne. other-IsCaller u.shared s k j (u.callers j) own.0 ne (before j))
  Run-IsGood t _ (calls {u} k r run free) g =
      let before = Run-IsGood t u run g in set-IsGood u u.shared k (waiting r) tt (λ j ne. before j)

  -- no thread is in a call, and none has the lock
  abbrev pub nobody : ℕ → Threads
  nobody position = record {
    shared = record { position = position; owner = none };
    callers = λ k. idle;
  }

  -- In every order of the steps of threads that call pread_impl on one file, a call that has
  -- returned gives what lseek to its offset and then read there give with nothing in between: no
  -- other thread moves the position away, and the position at the start does not matter.
  pub pread_impl-atomic :
      (position : ℕ) (t : Threads) (k : ℕ) (r : Request) (result : Pread)
      → Run fd (nobody position) t
      → t.callers k ≡ returned r result
      → result ≡ pread_impl fd r
  pread_impl-atomic position t k r result run e =
      subst (λ c. IsCaller t.shared k c) e (Run-IsGood (nobody position) t run (λ j. tt) k)
