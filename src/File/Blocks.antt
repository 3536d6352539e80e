-- ===== src/File/Blocks.antt =====
-- `udfread_read_blocks` of src/udfread.c delivers the bytes of the file.
use libudfread.Common.{
  ℕ, zero, suc, ◌+◌, ◌-◌, ◌*◌, ◌/◌, ◌%◌, ◌^◌, ◌≤◌, ◌<◌, ◌≡◌, ◌≢◌, refl, arith, ltb, ◌==◌,
  if◌then◌else◌, List, Bool-cases, inl, inr, ltb→lt, ltb_false→le, ==→eq, ==_false→ne,
}
use libudfread.Memory.{Buf, done, Returns, store}
use libudfread.Memory.Words.{Returns-bind}
use libudfread.Ecma.{LongAd}
use libudfread.Input.{BlockInput, read_blocks, count, Reads}
use libudfread.File.{
  Disc, file_lba, file_blocks, Round, stop, next, zero_fill, read_extent, read_round, read_loop,
}
use libudfread.File.Bytes.{file_byte_hole, file_byte_extent, Holds, store-Holds}
use libudfread.File.Map.{Fits, file_lba_extent}

-- The files whose blocks can be counted without overflow, and whose extents lie on the disc.
pub record IsReadable (disc : Disc) (image : ℕ → ℕ) (length : ℕ) (list : List LongAd) : Type 0 where
  pub countable : length < 2 ^ 63 - 2048
  pub fits : Fits disc.part_lba list
  pub reads : Reads disc.input image

pub file_blocks_lem :
    (length : ℕ)
    → length < 2 ^ 63 - 2048
    → file_blocks length ≡ done ((length + 2047) / 2048 % 2 ^ 32)
unfolding file_blocks
file_blocks_lem length h = ground arith

module _ (input : BlockInput) (image : ℕ → ℕ) (reads : Reads input image) (lba n flags : ℕ) where
  read_blocks_at_most : (read_blocks input lba n flags).0 ≤ n
  unfolding read_blocks
  read_blocks_at_most = ground (arith, reads.at_most lba n flags)

  read_blocks_bytes :
      (k : ℕ)
      → k < (read_blocks input lba n flags).0 * 2048
      → (read_blocks input lba n flags).1 k ≡ image (lba * 2048 + k)
  unfolding read_blocks
  read_blocks_bytes k = ground (arith, reads.bytes lba n flags k)

-- An input that never fails reads at least one block of those that it is asked for.
abbrev pub Delivers : BlockInput → Type 0
Delivers input = (lba n flags : ℕ) → 0 < n → n < 2 ^ 31 → 0 < count (input.read lba n flags).0

read_blocks_pos :
    (input : BlockInput) (lba n flags : ℕ)
    → Delivers input
    → 0 < n
    → n < 2 ^ 31
    → 0 < (read_blocks input lba n flags).0
unfolding read_blocks
read_blocks_pos input lba n flags d lo hi = ground (arith, d lba n flags lo hi)

module _ (disc : Disc) (image : ℕ → ℕ) (length : ℕ) (list : List LongAd)
    (good : IsReadable disc image length list) (old : Buf) (q file_block num_blocks : ℕ)
    (inside : q + num_blocks * 2048 ≤ old.len) (no_wrap : num_blocks ≤ 2 ^ 21)
    (in_range : file_block + num_blocks ≤ 2 ^ 32) where
  -- `i` blocks have been read
  abbrev pub HasRead : ℕ → Buf → Type 0
  HasRead i buf =
      Holds image disc.part_lba list old buf q (file_block * 2048) (i * 2048) (num_blocks * 2048)

  -- The input never fails, and the blocks lie in the file.
  abbrev pub Served : Type 0
  Served = Delivers disc.input × (file_block + num_blocks ≤ (length + 2047) / 2048 % 2 ^ 32)

  -- A round that goes on has read at least one more block; where all is
  -- served, every round goes on.
  abbrev IsRound : ℕ → Round → Type 0
  IsRound i (stop buf) = HasRead i buf × ¬ Served
  IsRound i (next j buf) = (i < j) × (j ≤ num_blocks) × HasRead j buf

  advance :
      (buf : Buf) (j : ℕ) {m : ℕ}
      → j * 2048 ≡ m
      → Holds image disc.part_lba list old buf q (file_block * 2048) m (num_blocks * 2048)
      → HasRead j buf
  advance buf j e held = rw e held

  zero_fill-IsRound :
      (buf : Buf) (i : ℕ)
      → i < num_blocks
      → HasRead i buf
      → (file_lba disc.part_lba list (file_block + i)).0 ≡ 0
      → Returns (IsRound i) (zero_fill disc length list buf (q + i * 2048) (file_block + i) i)
  unfolding zero_fill file_blocks
  zero_fill-IsRound buf i h held hole =
      rw (file_blocks_lem length good.countable)
        (elim (Bool-cases (ltb (file_block + i) ((length + 2047) / 2048 % 2 ^ 32))) [
          | inl inside_file ↦ rw inside_file (
              Returns-bind _ (store buf (q + i * 2048) 2048 (λ _. 0)) _
                (store-Holds image disc.part_lba list old buf q (file_block * 2048) (i * 2048) 2048
                  2048 (num_blocks * 2048) (λ _. 0) held (omega arith) (omega arith) inside
                  (λ k hk. ground (
                    arith,
                    file_byte_hole image disc.part_lba list (file_block + i) k good.fits hole hk,
                  )))
                (λ buf' held'.
                  (omega arith, omega arith, advance buf' (i + 1) (omega arith) held')))
          | inr behind ↦
              rw behind (held, λ served. absurd (omega (arith, ltb_false→le _ _ behind, served.1)))
        ])

  read_extent-IsRound :
      (buf : Buf) (i lba ext n flags : ℕ)
      → HasRead i buf
      → file_lba disc.part_lba list (file_block + i) ≡ (lba, ext)
      → lba ≢ 0
      → 0 < n
      → n ≤ ext
      → i + n ≤ num_blocks
      → Returns (IsRound i) (read_extent disc length list buf (q + i * 2048) lba n flags i)
  unfolding read_extent
  read_extent-IsRound buf i lba ext n flags held e ne pos le room =
      Returns-bind _ (store buf (q + i * 2048) (n * 2048) (read_blocks disc.input lba n flags).1) _
        (store-Holds image disc.part_lba list old buf q (file_block * 2048) (i * 2048) (n * 2048)
          (got * 2048) (num_blocks * 2048) _ held (omega arith) (omega (arith, at_most)) inside
          (λ k hk. ground (
            arith,
            read_blocks_bytes disc.input image good.reads lba n flags k hk,
            file_byte_extent image disc.part_lba list (file_block + i) lba ext k good.fits e ne,
            at_most,
          )))
        (λ buf' held'. elim (Bool-cases (ltb got 1)) [
          | inl empty ↦ rw empty (
            advance buf' i (omega (arith, ltb→lt _ _ empty)) held',
            λ served. absurd (
                omega (
                  arith,
                  ltb→lt _ _ empty,
                  read_blocks_pos disc.input lba n flags served.0 pos (omega arith),
                )),
          )
          | inr some_blocks ↦ rw some_blocks (
            omega (arith, ltb_false→le _ _ some_blocks),
            omega (arith, at_most),
            advance buf' (i + got) (omega arith) held',
          )
        ])
    where
      got : ℕ
      got = (read_blocks disc.input lba n flags).0

      at_most : got ≤ n
      at_most = read_blocks_at_most disc.input image good.reads lba n flags

  read_round-IsRound :
      (buf : Buf) (i flags : ℕ)
      → i < num_blocks
      → HasRead i buf
      → Returns (IsRound i) (read_round disc length list buf q file_block num_blocks flags i)
  unfolding read_round
  read_round-IsRound buf i flags h held =
      rw (here, block)
        (elim (Bool-cases (lba == 0)) [
          | inl hole ↦ rw hole (zero_fill-IsRound buf i h held (==→eq lba 0 hole))
          | inr mapped ↦
              let ne = ==_false→ne lba 0 mapped in
              let (pos, small) =
                file_lba_extent disc.part_lba list (file_block + i) lba ext refl ne in
              rw mapped (
                read_extent-IsRound buf i lba ext n flags held refl ne (ground arith) (ground arith)
                  (ground arith))
        ])
    where
      here : (file_block + i) % 2 ^ 32 ≡ file_block + i
      here = omega arith

      block : 2048 * i % 2 ^ 32 ≡ i * 2048
      block = omega arith

      lba : ℕ
      lba = (file_lba disc.part_lba list (file_block + i)).0

      ext : ℕ
      ext = (file_lba disc.part_lba list (file_block + i)).1

      n : ℕ
      n = if ltb (num_blocks - i) ext then num_blocks - i else ext

  -- what the loop returns
  abbrev pub HasServed : ℕ × Buf → Type 0
  HasServed r = (r.0 ≤ num_blocks) × HasRead r.0 r.1 × (Served → r.0 ≡ num_blocks)

  pub read_loop-HasServed :
      (fuel : ℕ) (buf : Buf) (i flags : ℕ)
      → num_blocks < fuel + i
      → i ≤ num_blocks
      → HasRead i buf
      → Returns HasServed (read_loop disc length list fuel buf q file_block num_blocks flags i)
  unfolding read_loop
  read_loop-HasServed zero buf i flags hf hi held = absurd (omega arith)
  read_loop-HasServed (suc fuel) buf i flags hf hi held = elim (Bool-cases (ltb i num_blocks)) [
    | inl more ↦
        rw (more, Returns)
          (Returns-bind _ (read_round disc length list buf q file_block num_blocks flags i) _
            (read_round-IsRound buf i flags (ltb→lt _ _ more) held)
            (elim [
              | stop buf' ↦ λ r. (hi, r.0, λ served. absurd (r.1 served))
              | next j buf' ↦
                  λ r. read_loop-HasServed fuel buf' j flags (omega (arith, r.0)) r.1 r.2
            ]))
    | inr all ↦
        let e : i ≡ num_blocks = omega (arith, ltb_false→le _ _ all) in
        rw (all, Returns) (hi, held, λ _. e)
  ]
