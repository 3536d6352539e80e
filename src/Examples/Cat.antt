-- ===== src/Examples/Cat.antt =====
-- examples/udfcat.c: `_cat`, which writes a file to the standard output, and `main`.
pub mod Program
pub mod Writes
use libudfread.Common.{
  ℕ, zero, suc, ◌+◌, ◌^◌, ◌==◌, leb, if◌then◌else◌, Bool, true, false, List, [], ◌∷◌, ◌++◌, Option,
  none, some,
}
use libudfread.Common.Int.{ℤ, pos, negsuc}
use libudfread.Input.{BlockInput}
use libudfread.Memory.{Heap, Buf, Mem, fault, running, done, ◌>>=◌, get_u8}
use libudfread.File.{Disc}
use libudfread.Path.{udfread_file_open}
use libudfread.Handle.{Udfread, fs_of, disc_of, udfread_init, udfread_open, udfread_close}
use libudfread.Examples.{Exit}
use libudfread.Stream.{UdfFile, udfread_file_read, udfread_file_tell, udfread_file_size}

-- the messages of `_cat`
pub data Message : Type 0 where
  read_failed : ℤ → Message
  wrote : ℕ → ℤ → Message

-- What `_cat` has written to the standard output and to the error output, and `got`.
pub record Output : Type 0 where
  pub out : List ℕ
  pub got : ℕ
  pub messages : List Message

-- fwrite(buf + i, 1, n, stdout), which is taken to write all of it
unfoldable pub fwrite : Buf → ℕ → ℕ → Mem (List ℕ)
fwrite buf i zero = done []
fwrite buf i (suc n) = do c ← get_u8 buf i; rest ← fwrite buf (i + 1) n; done (c ∷ rest)

-- `got += result`, for an int64_t; an overflow is undefined.
unfoldable pub add_got : ℕ → ℕ → Mem ℕ
add_got got n = if leb (2 ^ 63) (got + n) then fault else done (got + n)

-- the messages behind the loop, where `failed` is `result < 0`
abbrev pub finish_cat : List Message → UdfFile → ℕ → List ℕ → Output
finish_cat failed p got out = record {
  out = out;
  got = got;
  messages = failed ++ (wrote got (udfread_file_size p) ∷ []);
}

-- The loop, with `fuel` rounds, where each read has `rounds` rounds.
unfoldable pub cat_loop : Disc → ℕ → ℕ → UdfFile → Buf → ℕ → List ℕ → Mem Output
cat_loop disc rounds zero p buf got out = running
cat_loop disc rounds (suc fuel) p buf got out = do
  (result, p', buf') ← udfread_file_read disc rounds p buf 2048
  elim result [
    | none ↦ done (finish_cat (read_failed (udfread_file_tell p') ∷ []) p' got out)
    | some n ↦ elim (n == 0) [
      | true ↦ done (finish_cat [] p' got out)
      | false ↦ do
        bytes ← fwrite buf' 0 n
        got' ← add_got got n
        cat_loop disc rounds fuel p' buf' got' (out ++ bytes)
    ]
  ]

-- `_cat`, with the array that it has on its stack
unfoldable pub cat : Disc → ℕ → ℕ → Buf → UdfFile → Mem Output
cat disc rounds fuel buf p = cat_loop disc rounds fuel p buf 0 []

-- `main` behind udfread_open: the file is opened by its path, written, and all is closed; -1 where
-- it cannot be opened. It has no return statement for a file that was written, which is 0.
unfoldable pub exit_cat : ℤ → Option Output → List BlockInput → Udfread → Mem (Exit (Option Output))
exit_cat code output closed udf = do
  c ← udfread_close udf
  done (record { code = code; printed = output; closed = closed ++ c.closed })

unfoldable pub cat_found :
    ℕ
    → ℕ
    → Buf
    → Udfread
    → BlockInput
    → List BlockInput
    → Option UdfFile
    → Mem (Exit (Option Output))
cat_found rounds fuel buf udf input closed none = exit_cat (negsuc 0) none closed udf
cat_found rounds fuel buf udf input closed (some file) = do
  output ← cat (disc_of udf input) rounds fuel buf file
  exit_cat (pos 0) (some output) closed udf

unfoldable pub cat_path :
    ℕ → ℕ → ℕ → Buf → Udfread → List BlockInput → List ℕ → Mem (Exit (Option Output))
cat_path lookup rounds fuel buf udf closed path = elim udf.input [
  | none ↦ exit_cat (negsuc 0) none closed udf
  | some input ↦ do
    r ← udfread_file_open (fs_of udf input) lookup udf.root path
    cat_found rounds fuel buf (record udf { root = r.1 }) input closed r.0
]

-- `lookup` is the fuel for searches on the disc; the flags are the environment's. `none` of what is
-- printed is an error message alone.
unfoldable pub main_cat :
    (List ℕ → Option BlockInput)
    → ℕ
    → ℕ
    → ℕ
    → Buf
    → Heap
    → Bool
    → Bool
    → List (List ℕ)
    → Mem (Exit (Option Output))
main_cat block_input_new lookup rounds fuel buf heap trace log (program ∷ image ∷ path ∷ more) = do
  o ← udfread_open block_input_new lookup (udfread_init heap trace log) image
  if o.ok
      then cat_path lookup rounds fuel buf o.udf o.closed path
      else exit_cat (negsuc 0) none o.closed o.udf
main_cat block_input_new lookup rounds fuel buf heap trace log argv =
    done (record { code = negsuc 0; printed = none; closed = [] })
