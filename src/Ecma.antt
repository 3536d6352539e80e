-- ===== src/Ecma.antt =====
-- The volume and file descriptors of src/ecma167.c and src/ecma167.h: the structures, and one
-- decoder for each. A pointer `p` into a buffer is the buffer with an offset; a decoder that fills
-- a structure returns it.
pub mod Tag
use libudfread.Common.{
  ℕ, zero, suc, ◌+◌, ◌-◌, ◌*◌, ◌/◌, ◌%◌, ◌^◌, ltb, ◌==◌, if◌then◌else◌, Option, none, some,
}
use libudfread.Memory.{Buf, Mem, done, ◌>>=◌, get_u8, get_u16, get_u32, memcpy, put_u8}

-- the block size of all input, UDF_BLOCK_SIZE
abbrev pub block_size : ℕ
block_size = 2048

-- enum tag_identifier. ECMA_TAG_INVALID, which is -1, is `none` where a tag is an `Option ℕ`.
abbrev pub tag_primary_volume_descriptor : ℕ
tag_primary_volume_descriptor = 1

abbrev pub tag_anchor_volume_descriptor_pointer : ℕ
tag_anchor_volume_descriptor_pointer = 2

abbrev pub tag_volume_descriptor_pointer : ℕ
tag_volume_descriptor_pointer = 3

abbrev pub tag_partition_descriptor : ℕ
tag_partition_descriptor = 5

abbrev pub tag_logical_volume_descriptor : ℕ
tag_logical_volume_descriptor = 6

abbrev pub tag_terminating_descriptor : ℕ
tag_terminating_descriptor = 8

abbrev pub tag_file_set_descriptor : ℕ
tag_file_set_descriptor = 256

abbrev pub tag_file_identifier_descriptor : ℕ
tag_file_identifier_descriptor = 257

abbrev pub tag_allocation_extent_descriptor : ℕ
tag_allocation_extent_descriptor = 258

abbrev pub tag_file_entry : ℕ
tag_file_entry = 261

abbrev pub tag_extended_file_entry : ℕ
tag_extended_file_entry = 266

pub record EntityId : Type 0 where
  pub identifier : Buf
  pub identifier_suffix : Buf

pub record ExtentAd : Type 0 where
  pub lba : ℕ
  pub length : ℕ

pub record PrimaryVolumeDescriptor : Type 0 where
  pub volume_identifier : Buf
  pub volume_identifier_length : ℕ
  pub volume_set_identifier : Buf

pub record AnchorVolumeDescriptor : Type 0 where
  pub mvds : ExtentAd
  pub rvds : ExtentAd

pub record PartitionDescriptor : Type 0 where
  pub number : ℕ
  pub start_block : ℕ
  pub num_blocks : ℕ

pub record LogicalVolumeDescriptor : Type 0 where
  pub block_size : ℕ
  pub domain_id : EntityId
  pub contents_use : Buf
  pub num_partition_maps : ℕ
  pub partition_map_lable_length : ℕ
  pub partition_map_table : Buf

pub record LongAd : Type 0 where
  pub lba : ℕ
  pub length : ℕ
  pub partition : ℕ
  pub extent_type : ℕ

pub record FileIdentifier : Type 0 where
  pub icb : LongAd
  pub characteristic : ℕ
  pub filename_len : ℕ
  pub filename : Buf

-- The length and the characters of a fixed-length dstring; `str` is the array that they go to.
unfoldable pub decode_dstring : Buf → ℕ → ℕ → Buf → Mem (ℕ × Buf)
decode_dstring b p field_length str = if ltb field_length 1 then done (0, str) else do
  let last = field_length - 1
  stored ← get_u8 b (p + last)
  let n = if ltb last stored then last else stored
  str' ← memcpy str b p n
  done (n % 256, str')

unfoldable pub decode_extent_ad : Buf → ℕ → Mem ExtentAd
decode_extent_ad b p = do
  len ← get_u32 b p
  lba ← get_u32 b (p + 4)
  done (record { lba = lba; length = len })

unfoldable pub decode_entity_id : Buf → ℕ → EntityId → Mem EntityId
decode_entity_id b p eid = do
  identifier ← memcpy eid.identifier b (p + 1) 23
  suffix ← memcpy eid.identifier_suffix b (p + 24) 8
  done (record { identifier = identifier; identifier_suffix = suffix })

-- `for (; rounds > 0; rounds--) checksum = (uint8_t)(checksum + *p++)`
unfoldable pub add_bytes : Buf → ℕ → ℕ → ℕ → Mem ℕ
add_bytes b p zero checksum = done checksum
add_bytes b p (suc rounds) checksum = do
  x ← get_u8 b p
  add_bytes b (p + 1) rounds ((checksum + x) % 256)

unfoldable pub decode_descriptor_tag : Buf → ℕ → Mem (Option ℕ)
decode_descriptor_tag b p = do
  id ← get_u16 b p
  head ← add_bytes b p 4 0
  checksum ← add_bytes b (p + 5) 11 head
  stored ← get_u8 b (p + 4)
  done (if checksum == stored then some id else none)

unfoldable pub decode_primary_volume :
    Buf → ℕ → PrimaryVolumeDescriptor → Mem PrimaryVolumeDescriptor
decode_primary_volume b p pvd = do
  (n, identifier) ← decode_dstring b (p + 24) 32 pvd.volume_identifier
  set_identifier ← memcpy pvd.volume_set_identifier b (p + 72) 128
  done (record {
    volume_identifier = identifier;
    volume_identifier_length = n;
    volume_set_identifier = set_identifier;
  })

unfoldable pub decode_avdp : Buf → ℕ → Mem AnchorVolumeDescriptor
decode_avdp b p = do
  mvds ← decode_extent_ad b (p + 16)
  rvds ← decode_extent_ad b (p + 24)
  done (record { mvds = mvds; rvds = rvds })

-- struct volume_descriptor_pointer has one field, the extent that is returned here.
unfoldable pub decode_vdp : Buf → ℕ → Mem ExtentAd
decode_vdp b p = decode_extent_ad b (p + 20)

unfoldable pub decode_partition : Buf → ℕ → Mem PartitionDescriptor
decode_partition b p = do
  number ← get_u16 b (p + 22)
  start_block ← get_u32 b (p + 188)
  num_blocks ← get_u32 b (p + 192)
  done (record { number = number; start_block = start_block; num_blocks = num_blocks })

-- The bytes of the partition map table that are copied: cut to the array, then to the block.
unfoldable pub map_size : ℕ → ℕ → ℕ
map_size lable_length room =
    let n = if ltb room lable_length then room else lable_length in
    if ltb (2048 - 440) n then 2048 - 440 else n

unfoldable pub decode_logical_volume :
    Buf → ℕ → LogicalVolumeDescriptor → Mem LogicalVolumeDescriptor
decode_logical_volume b p lvd = do
  size ← get_u32 b (p + 212)
  domain ← decode_entity_id b (p + 216) lvd.domain_id
  use' ← memcpy lvd.contents_use b (p + 248) 16
  lable_length ← get_u32 b (p + 264)
  maps ← get_u32 b (p + 268)
  table ←
      memcpy lvd.partition_map_table b (p + 440) (map_size lable_length lvd.partition_map_table.len)
  done (record {
    block_size = size;
    domain_id = domain;
    contents_use = use';
    num_partition_maps = maps;
    partition_map_lable_length = lable_length;
    partition_map_table = table;
  })

-- AD_TYPE and AD_LENGTH_MASK: the two high bits, and the 30 bits below them
abbrev pub ad_type_of : ℕ → ℕ
ad_type_of u32 = u32 / 2 ^ 30

abbrev pub ad_length_of : ℕ → ℕ
ad_length_of u32 = u32 % 2 ^ 30

unfoldable pub decode_short_ad : Buf → ℕ → ℕ → Mem LongAd
decode_short_ad b p partition = do
  u32 ← get_u32 b p
  lba ← get_u32 b (p + 4)
  done (record {
    lba = lba;
    length = ad_length_of u32;
    partition = partition;
    extent_type = ad_type_of u32;
  })

unfoldable pub decode_long_ad : Buf → ℕ → Mem LongAd
decode_long_ad b p = do
  u32 ← get_u32 b p
  lba ← get_u32 b (p + 4)
  partition ← get_u16 b (p + 8)
  done (record {
    lba = lba;
    length = ad_length_of u32;
    partition = partition;
    extent_type = ad_type_of u32;
  })

unfoldable pub decode_extended_ad : Buf → ℕ → Mem LongAd
decode_extended_ad b p = do
  u32 ← get_u32 b p
  lba ← get_u32 b (p + 12)
  partition ← get_u16 b (p + 16)
  done (record {
    lba = lba;
    length = ad_length_of u32;
    partition = partition;
    extent_type = ad_type_of u32;
  })

-- struct file_set_descriptor has one field, the ICB of the root directory.
unfoldable pub decode_file_set_descriptor : Buf → ℕ → Mem LongAd
decode_file_set_descriptor b p = decode_long_ad b (p + 400)

-- The bytes used (0: not enough data) and the identifier. `size` bytes follow `p`.
unfoldable pub decode_file_identifier : Buf → ℕ → ℕ → FileIdentifier → Mem (ℕ × FileIdentifier)
decode_file_identifier b p size fi = if ltb size 38 then done (0, fi) else do
  characteristic ← get_u8 b (p + 18)
  filename_len ← get_u8 b (p + 19)
  icb ← decode_long_ad b (p + 20)
  l_iu ← get_u16 b (p + 36)
  let fi' = record fi { icb = icb; characteristic = characteristic; filename_len = filename_len }
  if ltb size (38 + l_iu + filename_len) then done (0, fi') else do
    copied ←
        if filename_len == 0
        then done fi.filename
        else memcpy fi.filename b (p + 38 + l_iu) filename_len
    ended ← put_u8 copied filename_len 0
    done (4 * ((38 + filename_len + l_iu + 3) / 4), record fi' { filename = ended })
