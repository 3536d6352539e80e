-- ===== src/DefaultInput.antt =====
-- The default block input: src/default_blockinput.c where the system has `pread`, with an `off_t`
-- and a `size_t` of 64 bits. What the system calls answer is a parameter. For systems that have no
-- `pread` see the children.
pub mod Emulated
pub mod Reading
pub mod Windows
use libudfread.Common.{
  ℕ, zero, suc, ◌+◌, ◌-◌, ◌*◌, ◌/◌, ◌%◌, ◌^◌, ltb, ◌==◌, if◌then◌else◌, List, Option, none, some,
  true, false,
}
use libudfread.Common.Int.{ℤ}
use libudfread.Memory.{Buf, Mem, fault, running, done, ◌>>=◌, store, zeros}
use libudfread.Ecma.{block_size}
use libudfread.Input.{BlockInput, Status, blocks, failed}

-- What `pread` returns: a number of bytes, which it has stored, or -1 with `errno` EINTR or another.
pub data Pread : Type 0 where
  stored : ℕ → (ℕ → ℕ) → Pread
  interrupted : Pread
  broken : Pread

-- An open file: `pread call offset count` is the answer to the call with that number in a
-- `_def_read`, and `end` that of lseek to the end, where `none` is an error.
pub record OpenFile : Type 0 where
  pub pread : ℕ → ℕ → ℕ → Pread
  pub end : Option ℕ

-- the conversion of a size_t to int; a negative number is `failed`
unfoldable pub to_int : ℕ → Status
to_int n = if ltb (n % 2 ^ 32) (2 ^ 31) then blocks (n % 2 ^ 32) else failed

-- `break` and the final return
abbrev pub finished : ℕ → Buf → Mem (Status × Buf)
finished got buf = done (to_int (got / block_size), buf)

-- the loop of `_def_read`, from call number `call` on
unfoldable pub read_pieces : OpenFile → ℕ → ℕ → ℕ → ℕ → ℕ → Buf → Mem (Status × Buf)
read_pieces file zero call pos bytes got buf = running
read_pieces file (suc fuel) call pos bytes got buf = elim (ltb got bytes) [
  | false ↦ finished got buf
  | true ↦ elim (file.pread call (pos + got) (bytes - got)) [
    | interrupted ↦ read_pieces file fuel (call + 1) pos bytes got buf
    | broken ↦ if ltb got block_size then done (failed, buf) else finished got buf
    | stored n content ↦ elim (n == 0) [
      | true ↦ if ltb got block_size then done (blocks 0, buf) else finished got buf
      | false ↦ do
        buf' ← store buf got n content
        read_pieces file fuel (call + 1) pos bytes (got + n) buf'
    ]
  ]
]

unfoldable pub def_read : OpenFile → ℕ → ℕ → ℕ → Buf → Mem (Status × Buf)
def_read file fuel lba nblocks buf =
    read_pieces file fuel 0 (lba * block_size) (nblocks * block_size) 0 buf

unfoldable pub def_size : OpenFile → ℕ
def_size file = elim file.end [ none ↦ 0 | some pos ↦ pos / block_size % 2 ^ 32 ]

-- `_def_close`, where `close` is the result of the call of the system for a descriptor
unfoldable pub def_close : (ℕ → ℤ) → ℤ → ℤ
def_close close (ℤ.pos fd) = close fd
def_close close (ℤ.negsuc n) = ℤ.negsuc 0

-- What the callback `read` gives a caller, who has room for the blocks.
unfoldable pub answer : Mem (Status × Buf) → Status × (ℕ → ℕ)
answer fault = (failed, λ _. 0)
answer running = (failed, λ _. 0)
answer (done (status, buf)) = (status, buf.at)

unfoldable pub def_input : ℕ → OpenFile → BlockInput
def_input fuel file = record {
  read = λ lba nblocks flags.
      answer
        (def_read file (fuel + nblocks * block_size) lba nblocks (zeros (nblocks * block_size)));
  size = some (def_size file);
}

-- `open` is what the system gives for a path; `none` is a failure, and NULL.
unfoldable pub block_input_new : ℕ → (List ℕ → Option OpenFile) → List ℕ → Option BlockInput
block_input_new fuel open_file path = elim (open_file path) [
  | none ↦ none
  | some file ↦ some (def_input fuel file)
]
