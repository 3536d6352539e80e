-- ===== src/Tests/Inputs.antt =====
-- A file that is read in pieces of at most 1000 bytes, after an interrupted call.
use libudfread.Common.{
  ℕ, zero, suc, ◌+◌, ◌*◌, ◌%◌, ◌≡◌, ◌≤◌, ◌<◌, arith, min, none, some, true, ap, sym, refl,
}
use libudfread.Memory.{Returns, zeros}
use libudfread.Input.{Reads}
use libudfread.DefaultInput.{Pread, stored, interrupted, OpenFile, def_read, def_input}
use libudfread.DefaultInput.Emulated.{
  Request, Descriptor, idle, waiting, locked, placed, unlocking, returned, Threads, behind,
  after_lseek, pread_step, pread_impl, set_caller, Run, here, steps, calls,
}
use libudfread.DefaultInput.Emulated.Atomic.{nobody, pread_impl-atomic}
use libudfread.DefaultInput.Windows.{WindowsFile}
use libudfread.DefaultInput.Reading.{IsPread, IsRead, def_read-IsRead, def_input-Reads}

abbrev disc : ℕ → ℕ
disc x = x % 251

abbrev pread : ℕ → ℕ → ℕ → Pread
pread zero offset n = interrupted
pread (suc call) offset n = stored (min n 1000) (λ i. disc (offset + i))

abbrev file : OpenFile
file = record { pread = pread; end = some 2048000 }

pread_at_most :
    (call offset n k : ℕ) (content : ℕ → ℕ) → pread call offset n ≡ stored k content → k ≤ n
pread_at_most zero offset n k content e = absurd cc
pread_at_most (suc call) offset n k content e = let same : min n 1000 ≡ k = cc in omega arith

pread_bytes :
    (call offset n k : ℕ) (content : ℕ → ℕ)
    → pread call offset n ≡ stored k content
    → (i : ℕ) → i < k
    → content i ≡ disc (offset + i)
pread_bytes zero offset n k content e i lt = absurd cc
pread_bytes (suc call) offset n k content e i lt =
    let same : (λ i. disc (offset + i)) ≡ content = cc in ap (λ f. f i) (sym same)

pread_patient : (call offset n : ℕ) → 1 ≤ call → pread call offset n ≡ interrupted → ⊥
pread_patient zero offset n h e = omega arith
pread_patient (suc call) offset n h e = cc

file-IsPread : IsPread file disc 1
file-IsPread = record { at_most = pread_at_most; bytes = pread_bytes; patient = pread_patient }

def_read-IsRead_example :
    Returns
      (IsRead file disc 1 file-IsPread (5 * 2048) 3 6144)
      (def_read file 6146 5 3 (zeros 6144))
def_read-IsRead_example =
    def_read-IsRead file disc 1 file-IsPread 6146 5 3 (zeros 6144) (omega arith) (omega arith)

def_input-Reads_example : Reads (def_input 2 file) disc
def_input-Reads_example = def_input-Reads file disc 1 file-IsPread 2 (omega arith)

-- Two threads that read at 2048 and at 0: the second has to wait for the lock.
abbrev fd : Descriptor
fd = record {
  lseek = λ offset. some offset;
  read = λ call position n. stored n (λ i. disc (position + i));
}

abbrev early : Request
early = record { call = 0; offset = 2048; wanted = 10 }

abbrev late : Request
late = record { call = 1; offset = 0; wanted = 20 }

abbrev early_result : Pread
early_result = stored 10 (λ i. disc (2048 + i))

abbrev finished_threads : Threads
finished_threads = record {
  shared = record { position = 2058; owner = none };
  callers =
      set_caller fd
        (set_caller fd
          (set_caller fd
            (set_caller fd
              (set_caller fd (set_caller fd (λ k. idle) 1 (waiting early)) 2 (waiting late)) 1
              (locked early))
            1 (placed early))
          1 (unlocking early early_result))
        1 (returned early early_result);
}

threads-Run : Run fd (nobody fd 7) finished_threads
unfolding pread_step after_lseek behind
threads-Run =
    steps 1 _ _
      (steps 1 _ _ (steps 1 _ _ (steps 1 _ _ (calls 2 late (calls 1 early here tt) tt) refl) refl)
        refl)
      refl

pread_impl-atomic_example : early_result ≡ pread_impl fd early
pread_impl-atomic_example =
    pread_impl-atomic fd 7 finished_threads 1 early early_result threads-Run refl

-- a descriptor that Windows has no handle for, with EINTR in errno
abbrev windows : WindowsFile
windows = record { handle = none; read_file = λ call handle n low high. none; stale = λ call. true }
