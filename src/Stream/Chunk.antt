-- ===== src/Stream/Chunk.antt =====
-- `_read` of src/udfread.c: one chunk of the byte stream of a file with extents.
use libudfread.Common.{
  ℕ, ◌+◌, ◌-◌, ◌*◌, ◌/◌, ◌%◌, ◌^◌, ◌≤◌, ◌<◌, ◌≡◌, ◌≢◌, refl, arith, ltb, ◌==◌, if◌then◌else◌, List,
  true, none, some, Bool-cases, inl, inr, ==→eq, ==_false→ne,
}
use libudfread.Memory.{Buf, Returns, copy_to}
use libudfread.Memory.Words.{Returns-bind, Returns-weaken}
use libudfread.Ecma.{LongAd}
use libudfread.FileEntry.{ads}
use libudfread.File.{Disc, udfread_read_blocks}
use libudfread.File.Bytes.{file_byte, Holds, Holds-start, copy_to-Holds}
use libudfread.File.Blocks.{IsReadable, Delivers}
use libudfread.File.Read.{udfread_read_blocks_lem}
use libudfread.Stream.{UdfFile, Reply, copy_chunk, read_middle}

module _ (disc : Disc) (image : ℕ → ℕ) (list : List LongAd) (size : ℕ) where
  abbrev pub byte_at : ℕ → ℕ
  byte_at = file_byte image disc.part_lba list

  -- An open file with the extents `list` and `size` bytes. In the middle of a block a valid block
  -- buffer holds that block.
  pub record IsOpen (p : UdfFile) : Type 0 where
    pub content : p.fe.u ≡ ads list
    pub length : p.fe.length ≡ size
    pub room : p.block.len ≡ 2048
    pub cached :
        p.pos % 2048 ≢ 0
        → p.block_valid ≡ true
        → (k : ℕ) → k < 2048
        → p.block.at k ≡ byte_at (p.pos / 2048 * 2048 + k)

  -- What `_read` makes of `bytes` bytes for `buf + q`: -1, with nothing read and only where the
  -- input fails, or 1 to `bytes` bytes of the file from the position on, which moves behind them.
  abbrev pub IsReply : ℕ → Buf → ℕ → ℕ → Reply → Type 0
  IsReply start buf q bytes (none, p', buf') =
      (¬ Delivers disc.input)
      × IsOpen p'
      × (p'.pos ≡ start)
      × Holds image disc.part_lba list buf buf' q start 0 bytes
  IsReply start buf q bytes (some n, p', buf') =
      (0 < n)
      × (n ≤ bytes)
      × IsOpen p'
      × (p'.pos ≡ start + n)
      × Holds image disc.part_lba list buf buf' q start n bytes

  module _ (good : IsReadable disc image size list) (small : size ≤ 2 ^ 43 - 2048) where
    copy_chunk-IsReply :
        (p : UdfFile) (buf : Buf) (q bytes : ℕ)
        → IsOpen p
        → p.pos % 2048 ≢ 0
        → p.block_valid ≡ true
        → 0 < bytes
        → p.pos + bytes ≤ size
        → q + bytes ≤ buf.len
        → Returns (IsReply p.pos buf q bytes) (copy_chunk p buf q bytes)
    unfolding copy_chunk
    copy_chunk-IsReply p buf q bytes open' mid valid pos limit inside =
        Returns-bind _ (copy_to buf q p.block (p.pos % 2048) n) _
          (copy_to-Holds image disc.part_lba list buf q p.block (p.pos % 2048) n p.pos bytes
            (ground arith) (ground arith) inside
            (λ k h. ground (arith, open'.cached mid valid (p.pos % 2048 + k))))
          (λ buf' held. (
            n_facts.0,
            n_facts.1,
            record {
              content = open'.content;
              length = open'.length;
              room = open'.room;
              cached = λ ne v k h. ground (arith, open'.cached mid valid k h, n_facts);
            },
            omega (arith, n_facts.1),
            held,
          ))
      where
        n : ℕ
        n = if ltb bytes (2048 - p.pos % 2048) then bytes else 2048 - p.pos % 2048

        n_facts : (0 < n) × (n ≤ bytes) × (n ≤ 2048 - p.pos % 2048)
        n_facts = ground arith

    -- a read of one block that gives the block at the position, unless the input fails
    abbrev pub IsBlock : UdfFile → ℕ × Buf → Type 0
    IsBlock p r =
        (r.1.len ≡ 2048)
        × (Delivers disc.input → r.0 ≡ 1)
        × (r.0 ≡ 1 → (k : ℕ) → k < 2048 → r.1.at k ≡ byte_at (p.pos / 2048 * 2048 + k))

    -- Reading the block of the position into the block buffer.
    pub block_fill :
        (p : UdfFile)
        → IsOpen p
        → p.pos < size
        → Returns (IsBlock p) (udfread_read_blocks disc p.fe p.block 0 (p.pos / 2048 % 2 ^ 32) 1 0)
    block_fill p open' limit =
        Returns-weaken (IsBlock p) _
          (udfread_read_blocks_lem disc image p.fe list open'.content readable p.block 0
            (p.pos / 2048 % 2 ^ 32) 1 0 (omega (arith, open'.room)) (omega arith) (omega arith))
          (λ r h. (
            omega (arith, h.1.size, open'.room),
            λ d. h.2 (d, omega (arith, open'.length)),
            λ one k hk. ground (arith, h.1.bytes k),
          ))
      where
        readable : IsReadable disc image p.fe.length list
        readable = record {
          countable = omega (arith, open'.length, good.countable);
          fits = good.fits;
          reads = good.reads;
        }

    pub read_middle-IsReply :
        (p : UdfFile) (buf : Buf) (q bytes : ℕ)
        → IsOpen p
        → p.pos % 2048 ≢ 0
        → 0 < bytes
        → p.pos + bytes ≤ size
        → q + bytes ≤ buf.len
        → Returns (IsReply p.pos buf q bytes) (read_middle disc p buf q bytes)
    unfolding read_middle
    read_middle-IsReply p buf q bytes open' mid pos limit inside = elim (Bool-cases p.block_valid) [
      | inl valid ↦ simp valid (copy_chunk-IsReply p buf q bytes open' mid valid pos limit inside)
      | inr stale ↦ simp stale (
          Returns-bind _ (udfread_read_blocks disc p.fe p.block 0 (p.pos / 2048 % 2 ^ 32) 1 0) _
            (block_fill p open' (omega arith))
            (λ r h. elim (Bool-cases (r.0 == 1)) [
              | inl one ↦ rw one (
                  copy_chunk-IsReply (record p { block = r.1; block_valid = true }) buf q bytes
                    (record {
                      content = open'.content;
                      length = open'.length;
                      room = h.0;
                      cached = λ ne v. h.2 (==→eq _ _ one);
                    })
                    mid refl pos limit inside)
              | inr failed ↦ rw failed (
                λ d. ==_false→ne _ _ failed (h.1 d),
                record {
                  content = open'.content;
                  length = open'.length;
                  room = h.0;
                  cached = λ ne v. cc;
                },
                refl,
                Holds-start image disc.part_lba list buf q _ _,
              )
            ]))
    ]
