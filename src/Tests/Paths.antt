-- ===== src/Tests/Paths.antt =====
-- A disc with one file, opened by its path and read.
use libudfread.Common.{
  ℕ, ◌+◌, ◌*◌, ◌/◌, ◌%◌, ◌≡◌, refl, arith, ◌==◌, if◌then◌else◌, List, [], ◌∷◌, some, none, min,
}
use libudfread.Memory.{Returns, done, ◌>>=◌, zeros, store, get_u8, get_u16, get_u32, get_u64}
use libudfread.Memory.Agree.{Agrees}
use libudfread.Ecma.{decode_descriptor_tag, add_bytes, decode_short_ad}
use libudfread.FileEntry.{
  decode_file_entry, decode_sized_entry, decode_entry, decode_icb_tag, decode_content,
  decode_file_ads, decode_ad, ad_step, make_entry,
}
use libudfread.Input.{BlockInput, blocks, count, Reads}
use libudfread.Volume.{read_block, read_descriptor_block}
use libudfread.Partition.{no_part}
use libudfread.Fs.{
  UdfFs, partition_index, read_first, or_mirror, read_following, read_rest, with_rest,
  read_metadata_blocks, read_metadata, read_allocation_extent, follow_extents, udf_read_file_entry,
  entry_of, complete_entry, last_ad,
}
use libudfread.Fs.Dir.{DirEntry}
use libudfread.Directory.{same_name}
use libudfread.File.{Disc, ad_blocks}
use libudfread.File.Blocks.{IsReadable}
use libudfread.Stream.{UdfFile, udfread_file_read}
use libudfread.Stream.Read.{HasRead}
use libudfread.Tree.{DirTree, root_only, pointer_in}
use libudfread.Tree.Reading.{IsTree}
use libudfread.Path.{
  is_separator, add_token, tokens_from, tokens, find_file, udfread_opendir, udfread_file_open,
}
use libudfread.Path.Lookup.{Place, named, file_place, walk, IsLookup, find_file-IsLookup}
use libudfread.Path.Open.{
  IsStream, IsOpened, open_place, udfread_opendir_lem, udfread_file_open_lem, open_then_read,
}
use libudfread.Tests.Demo.{small_heap, extents, entry}

-- The file entry, with two short allocation descriptors.
abbrev entry_bytes : ℕ → ℕ
entry_bytes i =
    if i == 0
    then 5
    else if i == 1
    then 1
    else if i == 2
    then 3
    else if i == 4
    then 9
    else if i == 20
    then 4
    else if i == 27
    then 5
    else if i == 56
    then 0x88
    else if i == 57
    then 0x13
    else if i == 172
    then 16
    else if i == 177
    then 0x10
    else if i == 180
    then 4
    else if i == 184
    then 0x88
    else if i == 185
    then 3
    else if i == 188
    then 100
    else 0

-- It stands in block 3 of the partition.
abbrev pub image : ℕ → ℕ
image x = if x / 2048 == 19 then entry_bytes (x % 2048) else x % 251

abbrev pub input : BlockInput
input = record { read = λ lba n flags. (blocks n, λ k. image (lba * 2048 + k)); size = some 1000 }

abbrev pub disc : Disc
disc = record { input = input; part_lba = 16 }

abbrev pub fs : UdfFs
fs = record {
  input = input;
  heap = small_heap;
  part = record {
    num_partition = 1;
    p0 = record { number = 0; lba = 16; mirror_lba = 0 };
    p1 = no_part;
  };
}

abbrev pub file_a : DirEntry
file_a = record {
  filename = b'A' ∷ [];
  icb = record { lba = 3; length = 2048; partition = 0; extent_type = 0 };
  characteristic = 0;
}

abbrev pub tree : DirTree
tree = root_only (file_a ∷ [])

abbrev pub place_a : Place
place_a = record { entries = none; fid = some file_a }

abbrev pub path_a : List ℕ
path_a = b'/' ∷ b'A' ∷ []

pub tree-IsTree : IsTree fs 10 tree
unfolding pointer_in
tree-IsTree = record {
  has_root = omega arith;
  forest = record { up = λ d i c p. absurd cc; unique = λ d i e j c p q. absurd cc };
  linked = λ d i c lt e. cc;
}

pub input-Reads : Reads input image
unfolding count
input-Reads = record { at_most = λ lba n flags. omega arith; bytes = λ lba n flags k h. refl }

pub disc-IsReadable : IsReadable disc image 5000 extents
unfolding ad_blocks
disc-IsReadable = record {
  countable = omega arith;
  fits = (omega arith, (omega arith, tt));
  reads = input-Reads;
}

pub walk_a : walk fs 10 (file_a ∷ []) none (tokens path_a) ≡ done (some place_a)
unfolding walk named same_name tokens tokens_from add_token is_separator file_place
walk_a = refl

pub entry_a : udf_read_file_entry fs 10 file_a.icb ≡ done (some entry)
unfolding udf_read_file_entry read_allocation_extent read_metadata read_metadata_blocks
    partition_index read_first or_mirror with_rest read_rest read_following read_descriptor_block
    read_block decode_descriptor_tag add_bytes store decode_file_entry decode_sized_entry
    decode_entry decode_icb_tag decode_content decode_file_ads decode_ad ad_step decode_short_ad
    make_entry entry_of complete_entry follow_extents last_ad get_u8 get_u16 get_u32 get_u64
entry_a = refl

find_file-IsLookup_example :
    Agrees
      (IsLookup fs 10 tree)
      (find_file fs 10 tree path_a)
      (walk fs 10 (file_a ∷ []) none (tokens path_a))
find_file-IsLookup_example = find_file-IsLookup fs 10 tree path_a tree-IsTree

udfread_opendir_lem_example :
    Agrees
      (IsOpened fs 10 IsStream tree)
      (udfread_opendir fs 10 tree path_a)
      (walk fs 10 (file_a ∷ []) none (tokens path_a))
udfread_opendir_lem_example = udfread_opendir_lem fs 10 tree b'/' (b'A' ∷ []) tree-IsTree

udfread_file_open_lem_example :
    Agrees
      (IsOpened fs 10 ◌≡◌ tree)
      (udfread_file_open fs 10 tree path_a)
      (walk fs 10 (file_a ∷ []) none (tokens path_a) >>= λ place. open_place fs 10 place)
udfread_file_open_lem_example = udfread_file_open_lem fs 10 tree path_a tree-IsTree

open_then_read_example :
    Returns
      (λ r.
        (p : UdfFile) × (r.0 ≡ some p)
        × Returns
            (HasRead disc image extents 5000 0 (zeros 6000) (min 6000 5000))
            (udfread_file_read disc 6001 p (zeros 6000) 6000))
      (udfread_file_open fs 10 tree path_a)
open_then_read_example =
    open_then_read fs 10 tree path_a place_a file_a entry disc image extents 5000 (zeros 6000) 6000
      6001 tree-IsTree walk_a refl refl entry_a refl refl disc-IsReadable (omega arith)
      (omega arith) (omega arith) (omega arith)
