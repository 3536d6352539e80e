-- ===== src/Session/Runs.antt =====
-- Whole runs of a program on the interface of src/udfread.h, from udfread_init to udfread_close.
use libudfread.Common.{
  ℕ, ◌≤◌, ◌≡◌, refl, arith, subst, Bool, List, [], Option, none, Option-cases, inl, inr,
}
use libudfread.Memory.{Heap, Mem, Safe, Returns, done}
use libudfread.Memory.Words.{Returns-bind}
use libudfread.Input.{BlockInput, failed}
use libudfread.Fs.{UdfFs}
use libudfread.File.Safety.{IsModest}
use libudfread.Tree.{pointer_in, root_dir}
use libudfread.Tree.Forest.{IsPointer}
use libudfread.Tree.Reading.{IsTree}
use libudfread.Tree.Cleaning.{times, clean_tree}
use libudfread.Tree.Cleaning.Whole.{IsKept, clean_tree_lem}
use libudfread.Path.Safety.{Every}
use libudfread.Handle.{Udfread, Closed, held, fs_of, udfread_init, udfread_close}
use libudfread.Handle.Opening.{bare-IsTree}
use libudfread.Session.{Session, Call, new_session, step}
use libudfread.Session.State.{IsAllowed, IsSession}
use libudfread.Session.Steps.{step-Safe}

-- The sessions that allowed calls lead to from `s`.
pub data Run (block_input_new : List ℕ → Option BlockInput) (fuel : ℕ) (s : Session)
    : Session → Type 0 where
  ready : Run block_input_new fuel s s
  called :
      {t u : Session} (call : Call)
      → Run block_input_new fuel s t
      → IsAllowed t call
      → step block_input_new fuel t call ≡ done u
      → Run block_input_new fuel s u

Safe-result : {A : Type 0} (P : A → Type 0) (m : Mem A) (a : A) → Safe P m → m ≡ done a → P a
Safe-result P m a h e = subst (λ n. Safe P n) e h

pub new_session-IsSession :
    (fuel : ℕ) (heap : Heap) (trace log : Bool) → IsSession fuel (new_session heap trace log)
unfolding new_session udfread_init pointer_in
new_session-IsSession fuel heap trace log = record {
  handle = record {
    room = refl;
    parts = omega arith;
    bare = λ e. record { alone = refl; empty = λ i. refl };
  };
  listed = tt;
  modest = λ input e. absurd cc;
  cached = λ input e. absurd cc;
  streams = λ v p e. absurd cc;
  opened = λ v p e. absurd cc;
}

-- What udfread_close does to a handle: it closes the input that the handle has, and frees every
-- directory in the cache but the root once.
abbrev pub IsClosing : Udfread → Closed → Type 0
IsClosing udf c =
    (c.closed ≡ held udf)
    × ((d i e : ℕ) → IsKept udf.root d → IsPointer udf.root d i e → times e c.freed ≡ 1)
    × ((e : ℕ) → times e c.freed ≤ 1)
    × (times root_dir c.freed ≡ 0)

module _ (block_input_new : List ℕ → Option BlockInput) (fuel : ℕ)
    (all_modest : (path : List ℕ) → Every IsModest (block_input_new path)) where
  Run-IsSession :
      (s t : Session) → IsSession fuel s → Run block_input_new fuel s t → IsSession fuel t
  Run-IsSession s _ h ready = h
  Run-IsSession s u h (called {t} call r ok e) =
      Safe-result (IsSession fuel) (step block_input_new fuel t call) u
        (step-Safe block_input_new fuel all_modest t call (Run-IsSession s t h r) ok) e

  pub session-IsTree : (s : Session) → IsSession fuel s → (fs : UdfFs) × IsTree fs fuel s.udf.root
  session-IsTree s h = elim (Option-cases s.udf.input) [
    | inr (input, e) ↦ (fs_of s.udf input, h.cached input e)
    | inl closed ↦ (
      record { input = nothing; heap = s.udf.heap; part = s.udf.part },
      bare-IsTree fuel nothing _ s.udf.root (h.handle.bare closed),
    )
  ]
    where
      nothing : BlockInput
      nothing = record { read = λ lba n flags. (failed, λ i. 0); size = none }

  -- After any allowed calls, udfread_close ends without a fault: it closes the input of the handle,
  -- if it has one, and nothing else, and frees each directory that the calls have put into the
  -- cache exactly once, but not the root, which is part of the handle. The inputs and realloc are as
  -- above.
  pub calls_then_close :
      (heap : Heap) (trace log : Bool) (s : Session)
      → Run block_input_new fuel (new_session heap trace log) s
      → Returns (IsClosing s.udf) (udfread_close s.udf)
  unfolding udfread_close
  calls_then_close heap trace log s r =
      let h =
        Run-IsSession (new_session heap trace log) s (new_session-IsSession fuel heap trace log)
          r in
      let (fs, tree) = session-IsTree s h in
      Returns-bind _
        (clean_tree s.udf.root.used (record { tree = s.udf.root; freed = [] }) root_dir) _
        (clean_tree_lem s.udf.root fs fuel s.udf.root.used tree (omega arith))
        (λ c k. (refl, k.0, k.1, k.2))
