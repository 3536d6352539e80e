-- ===== src/Stream.antt =====
-- The byte stream of src/udfread.c: reads through a one-block buffer, reads of inline files, seeks.
pub mod Chunk
pub mod Inline
pub mod Pieces
pub mod Read
pub mod Safety
pub mod Wrap
pub mod Seek
pub mod Step
use libudfread.Common.{
  ℕ, zero, suc, ◌+◌, ◌-◌, ◌*◌, ◌/◌, ◌%◌, ◌^◌, ◌&&◌, ltb, leb, ◌==◌, if◌then◌else◌, not, Bool, true,
  false, Option, none, some,
}
use libudfread.Common.Int.{ℤ, pos, negsuc, ◌+ℤ◌, leb_ℤ}
use libudfread.Memory.{Buf, Mem, fault, running, done, ◌>>=◌, copy_to, store}
use libudfread.Ecma.{block_size}
use libudfread.FileEntry.{FileEntry, ads, inline}
use libudfread.File.{Disc, udfread_read_blocks}

-- struct udfread_file. `block` is allocated with the first read; `block_valid` is 0 until then.
pub record UdfFile : Type 0 where
  pub fe : FileEntry
  pub pos : ℕ
  pub block : Buf
  pub block_valid : Bool

-- `_read` at `buf + q`, for 1 to `bytes` bytes. The result is the number of bytes (`none` is -1),
-- the file and the buffer. `num_blocks` and its product with the block size are 32-bit numbers.
abbrev pub Reply : Type 0
Reply = Option ℕ × UdfFile × Buf

-- from the middle of a block, through the block buffer
unfoldable pub copy_chunk : UdfFile → Buf → ℕ → ℕ → Mem Reply
copy_chunk p buf q bytes =
    let pos_off = p.pos % block_size in
    let left = block_size - pos_off in
    let chunk_size = if ltb bytes left then bytes else left in
    do
      buf' ← copy_to buf q p.block pos_off chunk_size
      done (some chunk_size, record p { pos = (p.pos + chunk_size) % 2 ^ 64 }, buf')

unfoldable pub read_middle : Disc → UdfFile → Buf → ℕ → ℕ → Mem Reply
read_middle disc p buf q bytes = if p.block_valid then copy_chunk p buf q bytes else do
  (got, block) ← udfread_read_blocks disc p.fe p.block 0 (p.pos / block_size % 2 ^ 32) 1 0
  if got == 1
      then copy_chunk (record p { block = block; block_valid = true }) buf q bytes
      else done (none, record p { block = block }, buf)

unfoldable pub read_full : Disc → UdfFile → Buf → ℕ → ℕ → Mem Reply
read_full disc p buf q bytes = do
  (num_blocks, buf') ←
      udfread_read_blocks disc p.fe buf q (p.pos / block_size % 2 ^ 32)
        (bytes / block_size % 2 ^ 32) 0
  let advance = num_blocks * block_size % 2 ^ 32
  if ltb num_blocks 1
      then done (none, p, buf')
      else done (some advance, record p { pos = (p.pos + advance) % 2 ^ 64 }, buf')

-- the beginning of a block
unfoldable pub read_start : Disc → UdfFile → Buf → ℕ → ℕ → Mem Reply
read_start disc p buf q bytes = do
  (got, block) ← udfread_read_blocks disc p.fe p.block 0 (p.pos / block_size % 2 ^ 32) 1 0
  if got == 1
      then (do
        buf' ← copy_to buf q block 0 bytes
        done (
          some bytes,
          record p { pos = (p.pos + bytes) % 2 ^ 64; block = block; block_valid = true },
          buf',
        ))
      else done (none, record p { block = block }, buf)

unfoldable pub read_chunk : Disc → UdfFile → Buf → ℕ → ℕ → Mem Reply
read_chunk disc p buf q bytes =
    if not (p.pos % block_size == 0)
    then read_middle disc p buf q bytes
    else if leb block_size bytes
    then read_full disc p buf q bytes
    else read_start disc p buf q bytes

-- `_read_inline`: bytes behind the recorded data are zeros.
unfoldable pub pad_of : ℕ → ℕ → ℕ → ℕ
pad_of at bytes information_length =
    if ltb information_length ((at + bytes) % 2 ^ 64)
    then if ltb information_length at then bytes else at + bytes - information_length
    else 0

unfoldable pub read_inline : UdfFile → Buf → Buf → ℕ → Mem Reply
read_inline p content buf bytes =
    let pad_size = pad_of p.pos bytes content.len in
    do
      padded ← if pad_size == 0 then done buf else store buf (bytes - pad_size) pad_size (λ _. 0)
      filled ←
          if ltb pad_size bytes
          then copy_to padded 0 content p.pos (bytes - pad_size)
          else done padded
      done (some bytes, record p { pos = (p.pos + bytes) % 2 ^ 64 }, filled)

-- `while (bytes > 0)` with `fuel` rounds; `q` is `bufpt - buf`.
unfoldable pub read_chunks : Disc → ℕ → UdfFile → Buf → ℕ → ℕ → Mem Reply
read_chunks disc zero p buf q bytes = running
read_chunks disc (suc fuel) p buf q bytes = elim (ltb 0 bytes) [
  | false ↦ done (some q, p, buf)
  | true ↦ do
    (r, p', buf') ← read_chunk disc p buf q bytes
    elim r [
      | none ↦ done (if q == 0 then none else some q, p', buf')
      | some n ↦ read_chunks disc fuel p' buf' (q + n) (bytes - n)
    ]
]

-- `bytes` cut to what is left of the file, in 64-bit arithmetic
unfoldable pub clip : ℕ → ℕ → ℕ → ℕ
clip at bytes length = if ltb length ((at + bytes) % 2 ^ 64) then length - at else bytes

-- `udfread_file_read` on a file and a buffer that are not NULL, with `fuel` rounds for its loop.
unfoldable pub udfread_file_read : Disc → ℕ → UdfFile → Buf → ℕ → Mem Reply
udfread_file_read disc fuel p buf bytes =
    if leb (2 ^ 63) bytes
    then done (none, p, buf)
    else if leb p.fe.length p.pos
    then done (some 0, p, buf)
    else let n = clip p.pos bytes p.fe.length in
      elim p.fe.u [
        | inline content ↦ read_inline p content buf n
        | ads list ↦ read_chunks disc fuel p buf 0 n
      ]

-- the number that a 64-bit pattern stands for as an int64_t
unfoldable pub signed64 : ℕ → ℤ
signed64 w = if ltb w (2 ^ 63) then pos w else negsuc (2 ^ 64 - w - 1)

unfoldable pub udfread_file_tell : UdfFile → ℤ
udfread_file_tell p = signed64 p.pos

unfoldable pub udfread_file_size : UdfFile → ℤ
udfread_file_size p = signed64 p.fe.length

-- int64_t addition; an overflow is undefined.
unfoldable pub add_signed : ℤ → ℤ → Mem ℤ
add_signed a b =
    if leb_ℤ (negsuc (2 ^ 63 - 1)) (a +ℤ b) && leb_ℤ (a +ℤ b) (pos (2 ^ 63 - 1))
    then done (a +ℤ b)
    else fault

-- UDF_SEEK_SET, UDF_SEEK_CUR and UDF_SEEK_END
abbrev pub seek_set : ℕ
seek_set = 0

abbrev pub seek_cur : ℕ
seek_cur = 1

abbrev pub seek_end : ℕ
seek_end = 2

-- the target of a seek, or `none` for an unknown `whence`
unfoldable pub seek_target : UdfFile → ℤ → ℕ → Mem (Option ℤ)
seek_target p offset whence =
    if whence == seek_cur
    then (do target ← add_signed (udfread_file_tell p) offset; done (some target))
    else if whence == seek_end
    then (do target ← add_signed (udfread_file_size p) offset; done (some target))
    else if whence == seek_set
    then done (some offset)
    else done none

unfoldable pub seek_to : UdfFile → Option ℤ → ℤ × UdfFile
seek_to p (some (pos n)) =
    let p' = record p { pos = n; block_valid = false } in (udfread_file_tell p', p')
seek_to p (some (negsuc n)) = (negsuc 0, p)
seek_to p none = (negsuc 0, p)

-- The result is the new position, or -1.
unfoldable pub udfread_file_seek : UdfFile → ℤ → ℕ → Mem (ℤ × UdfFile)
udfread_file_seek p offset whence = do target ← seek_target p offset whence; done (seek_to p target)
