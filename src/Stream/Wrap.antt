-- ===== src/Stream/Wrap.antt =====
-- Requests of 4 GiB to `udfread_file_read` of src/udfread.c, where the product of the block count
-- and the block size does not fit 32 bits.
use libudfread.Common.{
  ℕ, zero, suc, ◌+◌, ◌-◌, ◌/◌, ◌%◌, ◌^◌, ◌≤◌, ◌<◌, ◌≡◌, refl, arith, ltb, List, false, some, ap,
  ◌∙◌, lt→leb_false, le→ltb_false,
}
use libudfread.Memory.{Buf, done, running, Returns}
use libudfread.Memory.Words.{Returns-bind, Returns-result}
use libudfread.Ecma.{LongAd}
use libudfread.File.{Disc, udfread_read_blocks}
use libudfread.File.Blocks.{IsReadable, Delivers}
use libudfread.File.Read.{udfread_read_blocks_lem}
use libudfread.Stream.Chunk.{IsOpen}
use libudfread.Stream.{read_chunks, clip, udfread_file_read, UdfFile, Reply, read_full, read_chunk}

chunk_full :
    (disc : Disc) (p : UdfFile) (buf : Buf) (q bytes : ℕ)
    → p.pos % 2048 ≡ 0
    → 2048 ≤ bytes
    → read_chunk disc p buf q bytes ≡ read_full disc p buf q bytes
unfolding read_chunk
chunk_full disc p buf q bytes aligned whole = ground arith

read_chunks_step :
    (disc : Disc) (fuel : ℕ) (p : UdfFile) (buf : Buf) (q bytes n : ℕ) (p' : UdfFile) (buf' : Buf)
    → 0 < bytes
    → read_chunk disc p buf q bytes ≡ done (some n, p', buf')
    → read_chunks disc (suc fuel) p buf q bytes ≡ read_chunks disc fuel p' buf' (q + n) (bytes - n)
unfolding read_chunks
read_chunks_step disc fuel p buf q bytes n p' buf' pos e = ground arith

module _ (disc : Disc) (image : ℕ → ℕ) (list : List LongAd) (size : ℕ)
    (good : IsReadable disc image size list) (small : size ≤ 2 ^ 43 - 2048)
    (delivers : Delivers disc.input) where
  -- 2 ^ 21 blocks are read, their size in bytes is 0 modulo 2 ^ 32, and so nothing moves.
  abbrev IsStuck : UdfFile → Buf → Reply → Type 0
  IsStuck p buf (n, p', buf') =
      (n ≡ some 0) × IsOpen disc image list size p' × (p'.pos ≡ p.pos) × (buf'.len ≡ buf.len)

  read_full-IsStuck :
      (p : UdfFile) (buf : Buf) (q bytes : ℕ)
      → IsOpen disc image list size p
      → p.pos % 2048 ≡ 0
      → 2 ^ 32 ≤ bytes
      → bytes < 2 ^ 32 + 2048
      → p.pos + bytes ≤ size
      → q + bytes ≤ buf.len
      → Returns (IsStuck p buf) (read_full disc p buf q bytes)
  unfolding read_full
  read_full-IsStuck p buf q bytes open' aligned big bound limit inside =
      Returns-bind _
        (udfread_read_blocks disc p.fe buf q (p.pos / 2048 % 2 ^ 32) (bytes / 2048 % 2 ^ 32) 0) _
        (udfread_read_blocks_lem disc image p.fe list open'.content readable buf q
          (p.pos / 2048 % 2 ^ 32) (bytes / 2048 % 2 ^ 32) 0 (omega arith) (omega arith)
          (omega arith))
        (λ r h.
          let all : r.0 ≡ 2 ^ 21 = omega (arith, h.2 (delivers, omega (arith, open'.length))) in
          rw all (
            refl,
            record {
              content = open'.content;
              length = open'.length;
              room = open'.room;
              cached = λ ne. absurd (ne (omega arith));
            },
            omega arith,
            h.1.size,
          ))
    where
      readable : IsReadable disc image p.fe.length list
      readable = record {
        countable = omega (arith, open'.length, good.countable);
        fits = good.fits;
        reads = good.reads;
      }

  read_chunks-running :
      (fuel : ℕ) (p : UdfFile) (buf : Buf) (q bytes : ℕ)
      → IsOpen disc image list size p
      → p.pos % 2048 ≡ 0
      → 2 ^ 32 ≤ bytes
      → bytes < 2 ^ 32 + 2048
      → p.pos + bytes ≤ size
      → q + bytes ≤ buf.len
      → read_chunks disc fuel p buf q bytes ≡ running
  unfolding read_chunks
  read_chunks-running zero p buf q bytes open' aligned big bound limit inside = refl
  read_chunks-running (suc fuel) p buf q bytes open' aligned big bound limit inside =
      let ((n, p', buf'), e, h) =
        Returns-result _ (read_full-IsStuck p buf q bytes open' aligned big bound limit inside) in
      read_chunks_step disc fuel p buf q bytes 0 p' buf' (omega arith)
        (chunk_full disc p buf q bytes aligned (omega arith) ∙ e ∙ ap (λ m. done (m, p', buf')) h.0)
      ∙ read_chunks-running fuel p' buf' (q + 0) (bytes - 0) h.1 (omega (arith, h.2)) (omega arith)
          (omega arith) (omega (arith, h.2)) (omega (arith, h.3))

  -- The code as it is: `udfread_file_read` at the start of a block, of 4 GiB or up to 2047 bytes
  -- more, from a file that has them and an input that never fails, never returns, however many
  -- rounds its loop is given.
  pub udfread_file_read-running :
      (p : UdfFile) (buf : Buf) (bytes fuel : ℕ)
      → IsOpen disc image list size p
      → p.pos % 2048 ≡ 0
      → 2 ^ 32 ≤ bytes
      → bytes < 2 ^ 32 + 2048
      → p.pos + bytes ≤ size
      → bytes ≤ buf.len
      → udfread_file_read disc fuel p buf bytes ≡ running
  unfolding udfread_file_read clip
  udfread_file_read-running p buf bytes fuel open' aligned big bound limit inside =
      rw (lt→leb_false bytes (2 ^ 63) (omega arith), lt→leb_false p.pos p.fe.length before)
        (rw open'.content (
          rw unclipped
            (read_chunks-running fuel p buf 0 bytes open' aligned big bound limit (omega arith))))
    where
      before : p.pos < p.fe.length
      before = omega (arith, open'.length)

      unclipped : ltb p.fe.length ((p.pos + bytes) % 2 ^ 64) ≡ false
      unclipped = le→ltb_false _ _ (omega (arith, open'.length))
