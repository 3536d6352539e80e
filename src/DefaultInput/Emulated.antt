-- ===== src/DefaultInput/Emulated.antt =====
-- `pread_impl` of src/default_blockinput.c, by several threads on one file: a step for each call of
-- the system in it. What lseek and read answer is a parameter. (`_def_size` moves the position
-- without the lock; it is not among the steps.)
pub mod Atomic
pub mod File
use libudfread.Common.{
  ℕ, ◌+◌, ◌==◌, ◌≡◌, refl, sym, ap, ◌∙◌, arith, if◌then◌else◌, true, false, Option, none, some,
  Bool-cases, Option-cases, inl, inr, subst, ==→eq,
}
use libudfread.DefaultInput.{Pread, stored, interrupted, broken}

-- A call of pread_impl: its number (the answers of the system may differ by call), the offset and
-- the number of bytes.
pub record Request : Type 0 where
  pub call : ℕ
  pub offset : ℕ
  pub wanted : ℕ

-- The calls of the system: the position that lseek returns for an offset, or an error, and what
-- read gives at a position.
pub record Descriptor : Type 0 where
  pub lseek : ℕ → Option ℕ
  pub read : ℕ → ℕ → ℕ → Pread

-- where a thread stands: before the lock, the lseek, the read or the unlock, or it has returned
pub data Caller : Type 0 where
  idle : Caller
  waiting : Request → Caller
  locked : Request → Caller
  placed : Request → Caller
  unlocking : Request → Pread → Caller
  returned : Request → Pread → Caller

-- a thread that is not in a call
abbrev pub IsFree : Caller → Type 0
IsFree idle = Unit
IsFree (waiting r) = ⊥
IsFree (locked r) = ⊥
IsFree (placed r) = ⊥
IsFree (unlocking r result) = ⊥
IsFree (returned r result) = Unit

-- What the threads of pread_impl share: the position of the file, and the thread that has the lock.
pub record Shared : Type 0 where
  pub position : ℕ
  pub owner : Option ℕ

-- The position behind a read.
unfoldable pub behind : ℕ → Pread → ℕ
behind position (stored n content) = position + n
behind position interrupted = position
behind position broken = position

pub record Threads : Type 0 where
  pub shared : Shared
  pub callers : ℕ → Caller

module _ (fd : Descriptor) where
  -- lseek sets the position, also where it is not the one that was asked for.
  unfoldable pub after_lseek : Shared → Request → Option ℕ → Shared × Caller
  after_lseek s r none = (s, unlocking r broken)
  after_lseek s r (some p) =
      if p == r.offset
      then (record s { position = p }, placed r)
      else (record s { position = p }, unlocking r broken)

  -- One step of thread `k`; `none` where it has to wait, or has nothing to do.
  unfoldable pub pread_step : Shared → ℕ → Caller → Option (Shared × Caller)
  pread_step s k idle = none
  pread_step s k (waiting r) = elim s.owner [
    | none ↦ some (record s { owner = some k }, locked r)
    | some other ↦ none
  ]
  pread_step s k (locked r) = some (after_lseek s r (fd.lseek r.offset))
  pread_step s k (placed r) =
      let result = fd.read r.call s.position r.wanted in
      some (record s { position = behind s.position result }, unlocking r result)
  pread_step s k (unlocking r result) = some (record s { owner = none }, returned r result)
  pread_step s k (returned r result) = none

  -- pread_impl as a whole
  unfoldable pub pread_impl : Request → Pread
  pread_impl r = elim (fd.lseek r.offset) [
    | none ↦ broken
    | some p ↦ if p == r.offset then fd.read r.call r.offset r.wanted else broken
  ]

  abbrev pub set_caller : (ℕ → Caller) → ℕ → Caller → ℕ → Caller
  set_caller callers k c j = if j == k then c else callers j

  -- Runs: a thread takes a step, or makes a new call.
  pub data Run (t : Threads) : Threads → Type 0 where
    here : Run t t
    steps :
        {u : Threads} (k : ℕ) (s : Shared) (c : Caller)
        → Run t u
        → pread_step u.shared k (u.callers k) ≡ some (s, c)
        → Run t (record { shared = s; callers = set_caller u.callers k c })
    calls :
        {u : Threads} (k : ℕ) (r : Request)
        → Run t u
        → IsFree (u.callers k)
        → Run t (record u { callers = set_caller u.callers k (waiting r) })
