-- ===== src/Tests/Demo.antt =====
-- A disc image in memory and a file on it, for the tests.
use libudfread.Common.{
  ℕ, ◌+◌, ◌*◌, ◌%◌, ◌^◌, leb, ◌≤◌, ◌≡◌, refl, arith, List, [], ◌∷◌, some, false,
}
use libudfread.Memory.{Heap, zeros}
use libudfread.Ecma.{LongAd}
use libudfread.FileEntry.{FileEntry, ads}
use libudfread.Input.{BlockInput, blocks, count, Reads}
use libudfread.File.{Disc, ad_blocks}
use libudfread.File.Blocks.{IsReadable, Delivers}
use libudfread.Stream.{UdfFile}
use libudfread.Stream.Chunk.{IsOpen}

pub refuses : (n : ℕ) → 46 * 2 ^ 30 ≤ n → leb n (2 ^ 30) ≡ false
refuses n h = ground arith

-- at most 1 GiB in one array
abbrev pub small_heap : Heap
small_heap = record { gives = λ n. leb n (2 ^ 30); bounded = refuses }

abbrev pub image : ℕ → ℕ
image x = x % 251

abbrev pub image_input : BlockInput
image_input = record {
  read = λ lba n flags. (blocks n, λ k. image (lba * 2048 + k));
  size = some 1000;
}

pub image_input-Reads : Reads image_input image
unfolding count
image_input-Reads = record { at_most = λ lba n flags. omega arith; bytes = λ lba n flags k h. refl }

pub image_input-Delivers : Delivers image_input
unfolding count
image_input-Delivers lba n flags lo hi = lo

abbrev pub demo : Disc
demo = record { input = image_input; part_lba = 16 }

-- 4096 bytes at block 4 of the partition, and 904 more at block 100
abbrev pub extents : List LongAd
extents =
    record { lba = 4; length = 4096; partition = 0; extent_type = 0 }
    ∷ record { lba = 100; length = 904; partition = 0; extent_type = 0 }
    ∷ []

pub demo-IsReadable : IsReadable demo image 5000 extents
unfolding ad_blocks
demo-IsReadable = record {
  countable = omega arith;
  fits = (omega arith, (omega arith, tt));
  reads = image_input-Reads;
}

abbrev pub entry : FileEntry
entry = record { length = 5000; file_type = 5; ad_type = 0; u = ads extents }

-- the file, in the middle of its first block
abbrev pub opened : UdfFile
opened = record { fe = entry; pos = 100; block = zeros 2048; block_valid = false }

pub opened-IsOpen : IsOpen demo image extents 5000 opened
opened-IsOpen = record { content = refl; length = refl; room = refl; cached = λ ne v. cc }
