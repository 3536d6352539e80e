-- ===== src/File/Safety.antt =====
-- Block reads in src/udfread.c, of a file with any extents and on any disc.
use libudfread.Common.{
  ℕ, zero, suc, ◌+◌, ◌-◌, ◌*◌, ◌/◌, ◌%◌, ◌^◌, ◌≤◌, ◌<◌, ◌≡◌, refl, arith, ltb, ◌==◌, if◌then◌else◌,
  List, Bool-cases, inl, inr, ltb→lt,
}
use libudfread.Memory.{Buf, Returns, Safe, done}
use libudfread.Memory.Words.{Safe-bind_returns, store_lem}
use libudfread.Ecma.{LongAd}
use libudfread.FileEntry.{FileEntry, Content, ads, inline}
use libudfread.Input.{BlockInput, read_blocks, count}
use libudfread.File.{
  Disc, file_lba, Round, stop, next, zero_fill, read_extent, read_round, read_loop,
  udfread_read_blocks,
}
use libudfread.File.Blocks.{file_blocks_lem}

-- What the block input must keep to: it does not say that it has read more than was asked for.
abbrev pub IsModest : BlockInput → Type 0
IsModest input = (lba n flags : ℕ) → count (input.read lba n flags).0 ≤ n

modest_blocks :
    (input : BlockInput) (lba n flags : ℕ) → IsModest input → (read_blocks input lba n flags).0 ≤ n
unfolding read_blocks
modest_blocks input lba n flags h = ground (arith, h lba n flags)

module _ (disc : Disc) (length : ℕ) (list : List LongAd) (small : length < 2 ^ 63 - 2048)
    (modest : IsModest disc.input) (q num_blocks len : ℕ)
    (inside : q + num_blocks * 2048 ≤ len) where
  abbrev IsRound : Round → Type 0
  IsRound (stop buf) = buf.len ≡ len
  IsRound (next j buf) = (j ≤ num_blocks) × (buf.len ≡ len)

  zero_fill-IsRound :
      (buf : Buf) (block here i : ℕ)
      → buf.len ≡ len
      → i < num_blocks
      → block ≤ q + i * 2048
      → Returns IsRound (zero_fill disc length list buf block here i)
  unfolding zero_fill
  zero_fill-IsRound buf block here i e lt at =
      rw (file_blocks_lem length small)
        (elim (Bool-cases (ltb here ((length + 2047) / 2048 % 2 ^ 32))) [
          | inr behind ↦ rw behind e
          | inl in_file ↦
              rw (in_file, store_lem buf block 2048 (λ _. 0) (omega arith)) (omega arith, e)
        ])

  read_extent-IsRound :
      (buf : Buf) (block lba n flags i : ℕ)
      → buf.len ≡ len
      → i + n ≤ num_blocks
      → block ≤ q + i * 2048
      → Returns IsRound (read_extent disc length list buf block lba n flags i)
  unfolding read_extent
  read_extent-IsRound buf block lba n flags i e le at =
      rw (store_lem buf block (n * 2048) (read_blocks disc.input lba n flags).1 (omega arith))
        (elim (Bool-cases (ltb (read_blocks disc.input lba n flags).0 1)) [
          | inl empty ↦ rw empty e
          | inr more ↦ rw more (omega (arith, modest_blocks disc.input lba n flags modest), e)
        ])

  read_round-IsRound :
      (buf : Buf) (file_block flags i : ℕ)
      → buf.len ≡ len
      → i < num_blocks
      → Returns IsRound (read_round disc length list buf q file_block num_blocks flags i)
  unfolding read_round
  read_round-IsRound buf file_block flags i e lt = elim (Bool-cases (lba == 0)) [
    | inl hole ↦ rw hole (zero_fill-IsRound buf block here i e lt at)
    | inr mapped ↦ rw mapped (read_extent-IsRound buf block lba n flags i e (ground arith) at)
  ]
    where
      here : ℕ
      here = (file_block + i) % 2 ^ 32

      lba : ℕ
      lba = (file_lba disc.part_lba list here).0

      ext : ℕ
      ext = (file_lba disc.part_lba list here).1

      block : ℕ
      block = q + 2048 * i % 2 ^ 32

      n : ℕ
      n = if ltb (num_blocks - i) ext then num_blocks - i else ext

      at : block ≤ q + i * 2048
      at = omega arith

  read_loop-Safe :
      (fuel : ℕ) (buf : Buf) (file_block flags i : ℕ)
      → buf.len ≡ len
      → i ≤ num_blocks
      → Safe
          (λ r. (r.0 ≤ num_blocks) × (r.1.len ≡ len))
          (read_loop disc length list fuel buf q file_block num_blocks flags i)
  unfolding read_loop
  read_loop-Safe zero buf file_block flags i e le = tt
  read_loop-Safe (suc fuel) buf file_block flags i e le = elim (Bool-cases (ltb i num_blocks)) [
    | inr all ↦ rw (all, Safe) (le, e)
    | inl more ↦
        rw (more, Safe)
          (Safe-bind_returns _ (read_round disc length list buf q file_block num_blocks flags i) _
            (read_round-IsRound buf file_block flags i e (ltb→lt _ _ more))
            (elim [
              | stop buf' ↦ λ k. (le, k)
              | next j buf' ↦ λ k. read_loop-Safe fuel buf' file_block flags j k.1 k.0
            ]))
  ]

module _ (disc : Disc) (fe : FileEntry) (small : fe.length < 2 ^ 63 - 2048)
    (modest : IsModest disc.input) where
  pub blocks-Safe :
      (buf : Buf) (q file_block num_blocks flags : ℕ)
      → q + num_blocks * 2048 ≤ buf.len
      → Safe
          (λ r. (r.0 ≤ num_blocks) × (r.1.len ≡ buf.len))
          (udfread_read_blocks disc fe buf q file_block num_blocks flags)
  unfolding udfread_read_blocks
  blocks-Safe buf q file_block num_blocks flags inside = elim (Bool-cases (num_blocks == 0)) [
    | inl nothing ↦ rw nothing (omega arith, refl)
    | inr more ↦ rw more (by_content fe.u)
  ]
    where
      by_content :
          (u : Content)
          → Safe
              (λ r. (r.0 ≤ num_blocks) × (r.1.len ≡ buf.len))
              (elim u [
                | inline content ↦ done (0, buf)
                | ads list ↦
                    read_loop disc fe.length list
                      (num_blocks + 1)
                      buf
                      q
                      file_block
                      num_blocks
                      flags
                      0
              ])
      by_content (inline content) = (omega arith, refl)
      by_content (ads list) =
          read_loop-Safe disc fe.length list small modest q num_blocks buf.len inside
            (num_blocks + 1) buf file_block flags 0 refl (omega arith)
