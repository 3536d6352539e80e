-- ===== src/Stream/Step.antt =====
-- `_read` of src/udfread.c at the start of a block, and on every branch.
use libudfread.Common.{
  ℕ, ◌+◌, ◌-◌, ◌/◌, ◌%◌, ◌^◌, ◌≤◌, ◌<◌, ◌≡◌, refl, arith, ltb, leb, ◌==◌, List, Bool-cases, inl,
  inr, ltb→lt, ltb_false→le, leb→le, leb_false→lt, ==→eq, ==_false→ne,
}
use libudfread.Memory.{Buf, Returns, copy_to}
use libudfread.Memory.Words.{Returns-bind}
use libudfread.Ecma.{LongAd}
use libudfread.File.{Disc, udfread_read_blocks}
use libudfread.File.Bytes.{Holds-start, Holds-weaken, copy_to-Holds}
use libudfread.File.Blocks.{IsReadable}
use libudfread.File.Read.{udfread_read_blocks_lem}
use libudfread.Stream.Chunk.{IsOpen, IsReply, block_fill, read_middle-IsReply}
use libudfread.Stream.{UdfFile, read_full, read_start, read_chunk}

module _ (disc : Disc) (image : ℕ → ℕ) (list : List LongAd) (size : ℕ)
    (good : IsReadable disc image size list) (small : size ≤ 2 ^ 43 - 2048) where
  read_start-IsReply :
      (p : UdfFile) (buf : Buf) (q bytes : ℕ)
      → IsOpen disc image list size p
      → p.pos % 2048 ≡ 0
      → 0 < bytes
      → bytes < 2048
      → p.pos + bytes ≤ size
      → q + bytes ≤ buf.len
      → Returns (IsReply disc image list size p.pos buf q bytes) (read_start disc p buf q bytes)
  unfolding read_start
  read_start-IsReply p buf q bytes open' aligned pos part limit inside =
      Returns-bind _ (udfread_read_blocks disc p.fe p.block 0 (p.pos / 2048 % 2 ^ 32) 1 0) _
        (block_fill disc image list size good small p open' (omega arith))
        (λ r h. elim (Bool-cases (r.0 == 1)) [
          | inl one ↦ rw one (
              Returns-bind _ (copy_to buf q r.1 0 bytes) _
                (copy_to-Holds image disc.part_lba list buf q r.1 0 bytes p.pos bytes
                  (omega (arith, h.0)) (omega arith) inside
                  (λ k hk. ground (arith, h.2 (==→eq _ _ one) k)))
                (λ buf' held. (
                  pos,
                  omega arith,
                  record {
                    content = open'.content;
                    length = open'.length;
                    room = h.0;
                    cached = λ ne v k hk. ground (arith, h.2 (==→eq _ _ one) k hk);
                  },
                  omega arith,
                  held,
                )))
          | inr failed ↦ rw failed (
            λ d. ==_false→ne _ _ failed (h.1 d),
            record {
              content = open'.content;
              length = open'.length;
              room = h.0;
              cached = λ ne. absurd (ne aligned);
            },
            refl,
            Holds-start image disc.part_lba list buf q _ _,
          )
        ])

  read_full-IsReply :
      (p : UdfFile) (buf : Buf) (q bytes : ℕ)
      → IsOpen disc image list size p
      → p.pos % 2048 ≡ 0
      → 2048 ≤ bytes
      → bytes < 2 ^ 32
      → p.pos + bytes ≤ size
      → q + bytes ≤ buf.len
      → Returns (IsReply disc image list size p.pos buf q bytes) (read_full disc p buf q bytes)
  unfolding read_full
  read_full-IsReply p buf q bytes open' aligned whole narrow limit inside =
      Returns-bind _
        (udfread_read_blocks disc p.fe buf q (p.pos / 2048 % 2 ^ 32) (bytes / 2048 % 2 ^ 32) 0) _
        (udfread_read_blocks_lem disc image p.fe list open'.content readable buf q
          (p.pos / 2048 % 2 ^ 32) (bytes / 2048 % 2 ^ 32) 0 (omega arith) (omega arith)
          (omega arith))
        (λ r h. elim (Bool-cases (ltb r.0 1)) [
          | inl failed ↦ rw failed (
            λ d. absurd (omega (arith, ltb→lt _ _ failed, h.2 (d, omega (arith, open'.length)))),
            open',
            refl,
            Holds-weaken image disc.part_lba list buf r.1 q p.pos 0 bytes h.1 (omega arith)
                (omega arith) (omega arith),
          )
          | inr got ↦ rw got (
            omega (arith, h.0, ltb_false→le _ _ got),
            omega (arith, h.0),
            record {
              content = open'.content;
              length = open'.length;
              room = open'.room;
              cached = λ ne. absurd (ne (omega arith));
            },
            omega (arith, h.0),
            Holds-weaken image disc.part_lba list buf r.1 q p.pos _ bytes h.1 (omega arith)
                (omega arith) (omega arith),
          )
        ])
    where
      readable : IsReadable disc image p.fe.length list
      readable = record {
        countable = omega (arith, open'.length, good.countable);
        fits = good.fits;
        reads = good.reads;
      }

  -- On every branch: of 1 to 2 ^ 32 - 1 bytes inside the file.
  pub read_chunk-IsReply :
      (p : UdfFile) (buf : Buf) (q bytes : ℕ)
      → IsOpen disc image list size p
      → 0 < bytes
      → bytes < 2 ^ 32
      → p.pos + bytes ≤ size
      → q + bytes ≤ buf.len
      → Returns (IsReply disc image list size p.pos buf q bytes) (read_chunk disc p buf q bytes)
  unfolding read_chunk
  read_chunk-IsReply p buf q bytes open' pos narrow limit inside =
      elim (Bool-cases (p.pos % 2048 == 0)) [
        | inl aligned ↦ rw aligned (elim (Bool-cases (leb 2048 bytes)) [
          | inl whole ↦ rw whole (
              read_full-IsReply p buf q bytes open' (==→eq _ _ aligned) (leb→le _ _ whole) narrow
                limit inside)
          | inr part ↦ rw part (
              read_start-IsReply p buf q bytes open' (==→eq _ _ aligned) pos (leb_false→lt _ _ part)
                limit inside)
        ])
        | inr mid ↦ rw mid (
            read_middle-IsReply disc image list size good small p buf q bytes open'
              (==_false→ne _ _ mid) pos limit inside)
      ]
