-- ===== src/Tests/Volumes.antt =====
-- Volume descriptor sequences and partition maps on small discs.
use libudfread.Common.{
  false, true, ℕ, ◌≡◌, refl, arith, get_or, ◌==◌, if◌then◌else◌, List, [], ◌∷◌, none,
}
use libudfread.Memory.{Buf, Returns, done, running}
use libudfread.Ecma.{
  PartitionDescriptor, LogicalVolumeDescriptor, decode_vdp, decode_extent_ad, decode_descriptor_tag,
  add_bytes,
}
use libudfread.Memory.{get_u8, get_u16, get_u32}
use libudfread.Input.{BlockInput, blocks}
use libudfread.Volume.{read_block, read_descriptor_block}
use libudfread.Volume.{bea, nsr_02, mem_eq, probe_block, probe_loop, udf_probe_volume}
use libudfread.Volume.Recognition.{Decides, udf_probe_volume_lem}
use libudfread.Volume.Vds.{zero_vds, found_none, search_vds, partition_first}
use libudfread.Volume.Search.{HasTag}
use libudfread.Volume.Ending.{search_vds-running}
use libudfread.Partition.{udf_parse_partition_maps, no_partitions}
use libudfread.Partition.Maps.{IsPlaced, udf_parse_partition_maps_lem}
use libudfread.Tests.Demo.{image_input}

-- A disc on which every block is a Volume Descriptor Pointer to one block at 7.
abbrev pointer : List ℕ
pointer =
    3 ∷ 0 ∷ 3 ∷ 0 ∷ 6 ∷ 0 ∷ 0 ∷ 0 ∷ 0 ∷ 0 ∷ 0 ∷ 0 ∷ 0 ∷ 0 ∷ 0 ∷ 0 ∷ 0 ∷ 0 ∷ 0 ∷ 0 ∷ 0 ∷ 8 ∷ 0 ∷ 0
    ∷ 7 ∷ []

abbrev pointer_block : Buf
pointer_block = record { len = 2048; at = λ i. get_or pointer i 0 }

abbrev pointer_input : BlockInput
pointer_input = record { read = λ lba n flags. (blocks 1, λ i. get_or pointer i 0); size = none }

-- A disc on which every block is a primary volume descriptor.
abbrev primary : List ℕ
primary = 1 ∷ 0 ∷ 3 ∷ 0 ∷ 4 ∷ []

abbrev primary_input : BlockInput
primary_input = record { read = λ lba n flags. (blocks 1, λ i. get_or primary i 0); size = none }

pointer_tag : HasTag pointer_input 7 3 pointer_block
unfolding read_descriptor_block read_block decode_descriptor_tag add_bytes get_u8 get_u16
pointer_tag = refl

pointer_loc : decode_vdp pointer_block 0 ≡ done (record { lba = 7; length = 2048 })
unfolding decode_vdp decode_extent_ad get_u8 get_u16 get_u32
pointer_loc = refl

search_vds-running_example :
    search_vds pointer_input partition_first 1000 7 8 zero_vds found_none ≡ running
search_vds-running_example =
    search_vds-running pointer_input partition_first 7 pointer_block
      (record { lba = 7; length = 2048 }) pointer_tag pointer_loc refl (omega arith) 1000 8 zero_vds
      found_none (omega arith)

primary_is_plain : (lba : ℕ) (buf : Buf) → ¬ HasTag primary_input lba 3 buf
unfolding read_descriptor_block read_block decode_descriptor_tag add_bytes get_u8 get_u16
primary_is_plain lba buf h = ground arith

-- a type 1 map, and one of an unknown type
abbrev lvd : LogicalVolumeDescriptor
lvd = record (zero_vds.lvd) {
  num_partition_maps = 2;
  partition_map_lable_length = 10;
  partition_map_table = record {
    len = 2048;
    at = λ i. get_or (1 ∷ 6 ∷ 1 ∷ 0 ∷ 0 ∷ 0 ∷ 9 ∷ 4 ∷ []) i 0;
  };
}

abbrev pd : PartitionDescriptor
pd = record { number = 0; start_block = 272; num_blocks = 5000 }

udf_parse_partition_maps_lem_example :
    Returns (λ r. IsPlaced pd r.0 r.1) (udf_parse_partition_maps image_input pd lvd no_partitions)
udf_parse_partition_maps_lem_example =
    udf_parse_partition_maps_lem image_input pd lvd no_partitions
      ((refl, refl), refl, refl, omega arith) (omega arith) (omega arith)

-- A BEA descriptor at block 16, and NSR descriptors behind it.
abbrev pub udf_input : BlockInput
udf_input = record {
  read = λ lba n flags. (blocks 1, λ i. get_or (if lba == 16 then bea else nsr_02) i 0);
  size = none;
}

udf_probe_volume_lem_example : Returns (Decides udf_input 16 240 false) (udf_probe_volume udf_input)
udf_probe_volume_lem_example = udf_probe_volume_lem udf_input

recognised_udf : udf_probe_volume udf_input ≡ done true
unfolding udf_probe_volume probe_loop probe_block read_block mem_eq get_u8
recognised_udf = refl
