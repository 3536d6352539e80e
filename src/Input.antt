-- ===== src/Input.antt =====
-- The block input of src/blockinput.h, whose callbacks the caller supplies, and `_read_blocks` of
-- src/udfread.c. The callbacks are taken to be functions: the same read gives the same answer.
use libudfread.Common.{ℕ, ◌+◌, ◌*◌, ◌≤◌, ◌<◌, ◌^◌, ◌≡◌, ltb, leb, ◌||◌, if◌then◌else◌, Option}

-- The `int` that a read returns: a number of blocks, or a negative error.
pub data Status : Type 0 where
  blocks : ℕ → Status
  failed : Status

-- `read lba nblocks flags` is what it returns, with the bytes that it stores at `buf`, where it
-- may touch `nblocks` blocks. `size` is the image's size in blocks, if the callback is there.
pub record BlockInput : Type 0 where
  pub read : ℕ → ℕ → ℕ → Status × (ℕ → ℕ)
  pub size : Option ℕ

-- `result < 0 ? 0 : (uint32_t)result`
unfoldable pub count : Status → ℕ
count (blocks n) = n
count failed = 0

-- The number of blocks read, and the bytes stored. `(int)nblocks < 1` is nblocks = 0 or the sign
-- bit; the handle has an input whenever a file is open.
unfoldable pub read_blocks : BlockInput → ℕ → ℕ → ℕ → ℕ × (ℕ → ℕ)
read_blocks input lba nblocks flags =
    if ltb nblocks 1 || leb (2 ^ 31) nblocks
    then (0, λ _. 0)
    else let (result, bytes) = input.read lba nblocks flags in (count result, bytes)

-- What the code relies on of `read`: the blocks that it counts are at most those asked for, and the
-- buffer then holds them. `disc` gives the bytes of the image. The header documents 0 for an error; a
-- negative number counts as 0 too.
pub record Reads (input : BlockInput) (disc : ℕ → ℕ) : Type 0 where
  pub at_most : (lba n flags : ℕ) → count (input.read lba n flags).0 ≤ n
  pub bytes :
      (lba n flags k : ℕ)
      → k < count (input.read lba n flags).0 * 2048
      → (input.read lba n flags).1 k ≡ disc (lba * 2048 + k)
