-- ===== src/File.antt =====
-- Open files in src/udfread.c: the mapping of file blocks to the disc, and block reads.
pub mod Blocks
pub mod Bytes
pub mod Map
pub mod Read
pub mod Safety
use libudfread.Common.{
  ℕ, zero, suc, ◌+◌, ◌-◌, ◌*◌, ◌/◌, ◌%◌, ◌^◌, ltb, leb, ◌==◌, if◌then◌else◌, not, true, false, List,
  [], ◌∷◌,
}
use libudfread.Memory.{Buf, Mem, fault, running, done, ◌>>=◌, store}
use libudfread.Ecma.{LongAd, block_size}
use libudfread.FileEntry.{FileEntry, ads, inline}
use libudfread.Input.{BlockInput, read_blocks}

-- What an open file takes from its `udfread`: the input, and the start of partition 0.
pub record Disc : Type 0 where
  pub input : BlockInput
  pub part_lba : ℕ

-- blocks in an extent, in 32-bit arithmetic
unfoldable pub ad_blocks : LongAd → ℕ
ad_blocks ad = (ad.length + block_size - 1) % 2 ^ 32 / block_size

-- The extent that holds the block: the address, and what goes to `*extent_length` (untouched, it
-- stays 0).
unfoldable pub extent_lba : ℕ → LongAd → ℕ → ℕ × ℕ
extent_lba part_lba ad file_block =
    if not (ad.extent_type == 0)
    then (0, 0)
    else if ad.lba == 0
    then (0, 0)
    else ((part_lba + ad.lba + file_block) % 2 ^ 32, ad_blocks ad - file_block)

-- `_file_lba`
unfoldable pub file_lba : ℕ → List LongAd → ℕ → ℕ × ℕ
file_lba part_lba [] file_block = (0, 0)
file_lba part_lba (ad ∷ list) file_block =
    if ltb file_block (ad_blocks ad)
    then extent_lba part_lba ad file_block
    else file_lba part_lba list (file_block - ad_blocks ad)

-- `(uint32_t)((udfread_file_size(p) + 2048 - 1) / 2048)`: the size is an int64_t, so a length from
-- 2 ^ 63 on is negative, and the first sum may overflow.
unfoldable pub file_blocks : ℕ → Mem ℕ
file_blocks length =
    if ltb length (2 ^ 63 - 2048)
    then done ((length + 2047) / block_size % 2 ^ 32)
    else if ltb length (2 ^ 63)
    then fault
    else let magnitude = 2 ^ 64 - length in
      if leb magnitude 2047
      then done 0
      else done ((2 ^ 32 - (magnitude - 2047) / block_size % 2 ^ 32) % 2 ^ 32)

-- What one round of a loop over blocks does: leave the loop, or go on from block `i`.
pub data Round : Type 0 where
  stop : Buf → Round
  next : ℕ → Buf → Round

module _ (disc : Disc) (length : ℕ) (list : List LongAd) where
  -- An unmapped block at `here` is filled with zeros inside the file, and ends the loop behind it.
  unfoldable pub zero_fill : Buf → ℕ → ℕ → ℕ → Mem Round
  zero_fill buf block here i = do
    limit ← file_blocks length
    if ltb here limit
        then (do filled ← store buf block block_size (λ _. 0); done (next (i + 1) filled))
        else done (stop buf)

  -- As much of a mapped extent as is still wanted is read in one call.
  unfoldable pub read_extent : Buf → ℕ → ℕ → ℕ → ℕ → ℕ → Mem Round
  read_extent buf block lba n flags i =
      let (got, bytes) = read_blocks disc.input lba n flags in
      do
        filled ← store buf block (n * block_size) bytes
        done (if ltb got 1 then stop filled else next (i + got) filled)

  -- The body of the loop in `udfread_read_blocks`: file block `file_block + i` goes to
  -- `buf + q + 2048 * i`, where the product is a 32-bit one.
  unfoldable pub read_round : Buf → ℕ → ℕ → ℕ → ℕ → ℕ → Mem Round
  read_round buf q file_block num_blocks flags i =
      let here = (file_block + i) % 2 ^ 32 in
      let block = q + block_size * i % 2 ^ 32 in
      let (lba, extent_length) = file_lba disc.part_lba list here in
      let n = if ltb (num_blocks - i) extent_length then num_blocks - i else extent_length in
      if lba == 0 then zero_fill buf block here i else read_extent buf block lba n flags i

  -- `for (i = 0; i < num_blocks; )` with `fuel` rounds; the result is `i` and the buffer.
  unfoldable pub read_loop : ℕ → Buf → ℕ → ℕ → ℕ → ℕ → ℕ → Mem (ℕ × Buf)
  read_loop zero buf q file_block num_blocks flags i = running
  read_loop (suc fuel) buf q file_block num_blocks flags i = elim (ltb i num_blocks) [
    | false ↦ done (i, buf)
    | true ↦ do
      round ← read_round buf q file_block num_blocks flags i
      elim round [
        | stop buf' ↦ done (i, buf')
        | next j buf' ↦ read_loop fuel buf' q file_block num_blocks flags j
      ]
  ]

-- `udfread_read_blocks` on a file that is open, for the buffer at `buf + q`. Each round reads a
-- block at least, so `num_blocks + 1` rounds are enough.
unfoldable pub udfread_read_blocks : Disc → FileEntry → Buf → ℕ → ℕ → ℕ → ℕ → Mem (ℕ × Buf)
udfread_read_blocks disc fe buf q file_block num_blocks flags =
    if num_blocks == 0 then done (0, buf) else elim fe.u [
      | inline content ↦ done (0, buf)
      | ads list ↦
          read_loop disc fe.length list (num_blocks + 1) buf q file_block num_blocks flags 0
    ]

-- `udfread_file_lba`: no block of an inline file has an address.
unfoldable pub udfread_file_lba : Disc → FileEntry → ℕ → ℕ
udfread_file_lba disc fe file_block = elim fe.u [
  | inline content ↦ 0
  | ads list ↦ (file_lba disc.part_lba list file_block).0
]
