-- ===== src/Tests/Files.antt =====
-- File entries and directories on small discs.
use libudfread.Common.{ℕ, ◌≡◌, refl, arith, get_or, List, [], ◌∷◌, none, some}
use libudfread.Memory.{Buf, Returns, Safe, done, running, store, get_u8, get_u16, get_u32}
use libudfread.Ecma.{LongAd, decode_descriptor_tag, add_bytes, decode_long_ad}
use libudfread.FileEntry.{decode_ad, ad_step, decode_file_ads, extend_ads, decode_allocation_extent}
use libudfread.Input.{blocks}
use libudfread.Volume.{read_block, read_descriptor_block}
use libudfread.Partition.{no_part}
use libudfread.Fs.{
  UdfFs, partition_index, read_first, or_mirror, read_following, read_rest, with_rest,
  read_metadata_blocks, blocks_of, read_metadata, read_allocation_extent, follow_extents,
  udf_read_file_entry, udf_find_root_dir,
}
use libudfread.Fs.Metadata.{IsMetadata, read_metadata_lem}
use libudfread.Fs.Extents.{IsFile, udf_read_file_entry-Safe, follow_extents-running}
use libudfread.Fs.Root.{IsRoot, udf_find_root_dir_lem}
use libudfread.Fs.Dir.{udf_read_dir}
use libudfread.Fs.Listing.{Appends, udf_read_dir-Safe}
use libudfread.Tests.Demo.{small_heap}

-- A disc on which every block is an allocation extent of one descriptor, that of block 5.
abbrev extent_bytes : List ℕ
extent_bytes =
    2 ∷ 1 ∷ 3 ∷ 0 ∷ 6 ∷ 0 ∷ 0 ∷ 0 ∷ 0 ∷ 0 ∷ 0 ∷ 0 ∷ 0 ∷ 0 ∷ 0 ∷ 0 ∷ 0 ∷ 0 ∷ 0 ∷ 0 ∷ 16 ∷ 0 ∷ 0 ∷ 0
    ∷ 0 ∷ 8 ∷ 0 ∷ 0xc0 ∷ 5 ∷ []

abbrev fs : UdfFs
fs = record {
  input = record { read = λ lba n flags. (blocks 1, λ i. get_or extent_bytes i 0); size = none };
  heap = small_heap;
  part = record {
    num_partition = 1;
    p0 = record { number = 0; lba = 272; mirror_lba = 0 };
    p1 = no_part;
  };
}

abbrev icb : LongAd
icb = record { lba = 5; length = 2048; partition = 0; extent_type = 3 }

read_metadata_lem_example :
    Returns
      (IsMetadata fs (record icb { length = 5000 }) (blocks_of 5000))
      (read_metadata fs (record icb { length = 5000 }))
read_metadata_lem_example = read_metadata_lem fs (record icb { length = 5000 }) (omega arith)

udf_read_file_entry-Safe_example : Safe IsFile (udf_read_file_entry fs 10 icb)
udf_read_file_entry-Safe_example = udf_read_file_entry-Safe fs 10 icb (omega arith) (omega arith)

extent_to_itself : read_allocation_extent fs 1 [] icb ≡ done (some (icb ∷ []))
unfolding read_allocation_extent read_metadata read_metadata_blocks partition_index read_first
    or_mirror with_rest read_rest read_following read_descriptor_block read_block
    decode_descriptor_tag add_bytes store decode_allocation_extent extend_ads decode_file_ads
    decode_ad ad_step decode_long_ad get_u8 get_u16 get_u32
extent_to_itself = refl

follow_extents-running_example : follow_extents fs 1000 1 (icb ∷ []) ≡ running
follow_extents-running_example = follow_extents-running fs 1 [] icb refl extent_to_itself 1000

udf_find_root_dir_lem_example :
    Returns IsRoot (udf_find_root_dir fs 12 (record icb { length = 20480 }))
udf_find_root_dir_lem_example =
    udf_find_root_dir_lem fs 12 (record icb { length = 20480 }) (omega arith) (omega arith)

-- A directory with the file "A": tag 257, then a name of two bytes in 8-bit characters.
abbrev directory_bytes : List ℕ
directory_bytes =
    1 ∷ 1 ∷ 3 ∷ 0 ∷ 5 ∷ 0 ∷ 0 ∷ 0 ∷ 0 ∷ 0 ∷ 0 ∷ 0 ∷ 0 ∷ 0 ∷ 0 ∷ 0 ∷ 0 ∷ 0 ∷ 0 ∷ 2 ∷ 0 ∷ 8 ∷ 0 ∷ 0
    ∷ 5 ∷ 0 ∷ 0 ∷ 0 ∷ 0 ∷ 0 ∷ 0 ∷ 0 ∷ 0 ∷ 0 ∷ 0 ∷ 0 ∷ 0 ∷ 0 ∷ 8 ∷ 65 ∷ []

abbrev directory : Buf
directory = record { len = 60; at = λ i. get_or directory_bytes i 0 }

udf_read_dir-Safe_example : Safe (λ r. Appends [] r.1) (udf_read_dir fs 10 icb [])
udf_read_dir-Safe_example = udf_read_dir-Safe fs 10 icb [] (omega arith) (omega arith)
