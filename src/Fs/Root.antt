-- ===== src/Fs/Root.antt =====
-- The search of `udf_find_root_dir` in src/udf_fs.c.
use libudfread.Common.{
  ℕ, zero, suc, ◌+◌, ◌-◌, ◌/◌, ◌%◌, ◌^◌, ◌≤◌, ◌<◌, ◌≡◌, arith, leb, ◌==◌, Option, none, some,
  Bool-cases, inl, inr, leb→le,
}
use libudfread.Memory.{Buf, Returns, Safe, zeros}
use libudfread.Memory.Words.{Returns-bind, Safe-bind_returns}
use libudfread.Ecma.{LongAd, decode_file_set_descriptor}
use libudfread.FileEntry.Bounds.{IsAd, long-IsAd}
use libudfread.Fs.{UdfFs, read_metadata_blocks, find_root, udf_find_root_dir}
use libudfread.Fs.Metadata.{read_metadata_blocks_lem}

-- -1, or a location in range
abbrev pub IsRoot : Option LongAd → Type 0
IsRoot none = Unit
IsRoot (some icb) = IsAd icb

file_set-IsRoot : (b : Buf) → b.len ≡ 2048 → Returns IsAd (decode_file_set_descriptor b 0)
unfolding decode_file_set_descriptor
file_set-IsRoot b e = long-IsAd b (0 + 400) (omega arith)

find_root-IsRoot :
    (fs : UdfFs) (loc : LongAd) (last fuel lba : ℕ)
    → last < 2 ^ 32 - 1
    → 1 ≤ fuel
    → last + 1 < lba + fuel
    → Returns IsRoot (find_root fs loc last fuel lba)
unfolding find_root
find_root-IsRoot fs loc last zero lba hl pos hf = omega arith
find_root-IsRoot fs loc last (suc fuel) lba hl pos hf = elim (Bool-cases (leb lba last)) [
  | inr behind ↦ rw (behind, Returns) tt
  | inl inside ↦
      let le : lba ≤ last = leb→le _ _ inside in
      let next =
        find_root-IsRoot fs loc last fuel ((lba + 1) % 2 ^ 32) hl (omega arith) (omega arith) in
      rw (inside, Returns)
        (Returns-bind _
          (read_metadata_blocks fs (zeros 2048) (record loc { lba = lba; length = 2048 })) _
          (read_metadata_blocks_lem fs (zeros 2048) (record loc { lba = lba; length = 2048 }) 1
            (omega arith) (omega arith) (omega arith))
          (elim [
            | none ↦ λ k. next
            | some (tag, buf) ↦ λ k. elim (Bool-cases (tag == 256)) [
              | inl found ↦
                  rw (found, Returns)
                    (Returns-bind _ (decode_file_set_descriptor buf 0) _
                      (file_set-IsRoot buf (omega (arith, k.1))) (λ root in_range. in_range))
              | inr other ↦ elim (Bool-cases (tag == 8)) [
                | inl end_of_area ↦ rw (other, end_of_area, Returns) tt
                | inr unknown ↦ rw (other, unknown, Returns) next
              ]
            ]
          ]))
]

-- `udf_find_root_dir` on any disc, for an area that ends before the last possible block: it ends,
-- within a round for each block of the area, stays inside its buffer, and returns -1 or a location
-- in range.
pub udf_find_root_dir_lem :
    (fs : UdfFs) (fuel : ℕ) (loc : LongAd)
    → loc.lba + (loc.length + 2 ^ 32 - 1) % 2 ^ 32 / 2048 < 2 ^ 32 - 1
    → (loc.length + 2 ^ 32 - 1) % 2 ^ 32 / 2048 + 1 < fuel
    → Returns IsRoot (udf_find_root_dir fs fuel loc)
unfolding udf_find_root_dir
udf_find_root_dir_lem fs fuel loc hl hf =
    find_root-IsRoot fs loc ((loc.lba + (loc.length + 2 ^ 32 - 1) % 2 ^ 32 / 2048) % 2 ^ 32) fuel
      loc.lba (omega arith) (omega arith) (omega arith)

-- The search stays inside its buffer for any area, also where it does not end.
find_root-Safe :
    (fs : UdfFs) (loc : LongAd) (last fuel lba : ℕ) → Safe IsRoot (find_root fs loc last fuel lba)
unfolding find_root
find_root-Safe fs loc last zero lba = tt
find_root-Safe fs loc last (suc fuel) lba = elim (Bool-cases (leb lba last)) [
  | inr behind ↦ rw (behind, Safe) tt
  | inl inside ↦
      let next = find_root-Safe fs loc last fuel ((lba + 1) % 2 ^ 32) in
      rw (inside, Safe)
        (Safe-bind_returns _
          (read_metadata_blocks fs (zeros 2048) (record loc { lba = lba; length = 2048 })) _
          (read_metadata_blocks_lem fs (zeros 2048) (record loc { lba = lba; length = 2048 }) 1
            (omega arith) (omega arith) (omega arith))
          (elim [
            | none ↦ λ k. next
            | some (tag, buf) ↦ λ k. elim (Bool-cases (tag == 256)) [
              | inl found ↦
                  rw (found, Safe)
                    (Safe-bind_returns _ (decode_file_set_descriptor buf 0) _
                      (file_set-IsRoot buf (omega (arith, k.1))) (λ root in_range. in_range))
              | inr other ↦ elim (Bool-cases (tag == 8)) [
                | inl end_of_area ↦ rw (other, end_of_area, Safe) tt
                | inr unknown ↦ rw (other, unknown, Safe) next
              ]
            ]
          ]))
]

pub udf_find_root_dir-Safe :
    (fs : UdfFs) (fuel : ℕ) (loc : LongAd) → Safe IsRoot (udf_find_root_dir fs fuel loc)
unfolding udf_find_root_dir
udf_find_root_dir-Safe fs fuel loc =
    find_root-Safe fs loc ((loc.lba + (loc.length + 2 ^ 32 - 1) % 2 ^ 32 / 2048) % 2 ^ 32) fuel
      loc.lba
