-- ===== src/File/Read.antt =====
-- `udfread_read_blocks` of src/udfread.c on a whole file.
use libudfread.Common.{
  ℕ, ◌+◌, ◌*◌, ◌^◌, ◌/◌, ◌%◌, ◌≤◌, ◌≡◌, sym, arith, List, ◌==◌, Bool-cases, inl, inr, ==→eq,
}
use libudfread.Memory.{Buf, Returns}
use libudfread.Ecma.{LongAd}
use libudfread.FileEntry.{FileEntry, ads}
use libudfread.File.{Disc, udfread_read_blocks}
use libudfread.File.Bytes.{Holds, Holds-start}
use libudfread.File.Blocks.{IsReadable, Delivers, read_loop-HasServed}

-- The outcome of a request for `num_blocks` blocks from block `file_block` on, for `buf + q`.
abbrev pub IsServed : Disc → (ℕ → ℕ) → FileEntry → List LongAd → Buf → ℕ → ℕ → ℕ → ℕ × Buf → Type 0
IsServed disc image fe list buf q file_block num_blocks r =
    (r.0 ≤ num_blocks)
    × Holds image disc.part_lba list buf r.1 q (file_block * 2048) (r.0 * 2048) (num_blocks * 2048)
    × (Delivers disc.input × (file_block + num_blocks ≤ (fe.length + 2047) / 2048 % 2 ^ 32)
        → r.0 ≡ num_blocks)

-- `udfread_read_blocks` ends and stays inside the buffer, of which it changes only the space of the
-- blocks that were asked for. It returns the number of blocks read: the first bytes there are
-- those of the file. If the input never fails, and the blocks lie in the file, it reads them all.
-- The request is for less than 2 ^ 21 blocks, 4 GiB, and counts blocks below 2 ^ 32.
pub udfread_read_blocks_lem :
    (disc : Disc) (image : ℕ → ℕ) (fe : FileEntry) (list : List LongAd)
    → fe.u ≡ ads list
    → IsReadable disc image fe.length list
    → (buf : Buf) (q file_block num_blocks flags : ℕ) → q + num_blocks * 2048 ≤ buf.len
    → num_blocks ≤ 2 ^ 21
    → file_block + num_blocks ≤ 2 ^ 32
    → Returns
        (IsServed disc image fe list buf q file_block num_blocks)
        (udfread_read_blocks disc fe buf q file_block num_blocks flags)
unfolding udfread_read_blocks
udfread_read_blocks_lem disc image fe list e good buf q file_block num_blocks flags inside no_wrap
      in_range =
    elim (Bool-cases (num_blocks == 0)) [
      | inl zero ↦ rw zero (
        omega arith,
        Holds-start image disc.part_lba list buf q _ _,
        λ _. sym (==→eq num_blocks 0 zero),
      )
      | inr more ↦ rw more (
          rw (e, Returns)
            (read_loop-HasServed disc image fe.length list good buf q file_block num_blocks inside
              no_wrap in_range (num_blocks + 1) buf 0 flags (omega arith) (omega arith)
              (Holds-start image disc.part_lba list buf q _ _)))
    ]
