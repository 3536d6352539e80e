-- ===== src/Partition.antt =====
-- Partition maps and the metadata partition: the second half of src/udf_volume.c.
pub mod Maps
pub mod Metadata
use libudfread.Common.{
  ℕ, zero, suc, ◌+◌, ◌-◌, ◌*◌, ◌/◌, ◌%◌, ◌^◌, ltb, leb, ◌==◌, ◌&&◌, ◌||◌, not, if◌then◌else◌, Bool,
  true, false, List, [], ◌∷◌, Option, none, some,
}
use libudfread.Memory.{Buf, Mem, fault, running, done, ◌>>=◌, get_u8, get_u16, get_u32, zeros}
use libudfread.Ecma
use libudfread.Ecma.{
  EntityId, LongAd, PartitionDescriptor, LogicalVolumeDescriptor, decode_entity_id,
}
use libudfread.FileEntry.{FileEntry, Content, ads, inline, decode_ext_file_entry}
use libudfread.Input.{BlockInput}
use libudfread.Volume.{read_descriptor_block, mem_eq, is_tag}

-- an element of the array `p` in struct udf_partitions
pub record Part : Type 0 where
  pub number : ℕ
  pub lba : ℕ
  pub mirror_lba : ℕ

pub record Partitions : Type 0 where
  pub num_partition : ℕ
  pub p0 : Part
  pub p1 : Part

abbrev pub no_part : Part
no_part = record { number = 0; lba = 0; mirror_lba = 0 }

abbrev pub no_partitions : Partitions
no_partitions = record { num_partition = 0; p0 = no_part; p1 = no_part }

-- UDF_FT_METADATA and UDF_FT_METADATA_MIRROR
abbrev pub ft_metadata : ℕ
ft_metadata = 250

abbrev pub ft_metadata_mirror : ℕ
ft_metadata_mirror = 251

-- What a metadata file entry tells: where the metadata or their mirror start.
unfoldable pub place_metadata : Partitions → ℕ → ℕ → Content → Partitions
place_metadata part start_block file_type (inline content) = part
place_metadata part start_block file_type (ads []) = part
place_metadata part start_block file_type (ads (ad ∷ rest)) =
    let at = (start_block + ad.lba) % 2 ^ 32 in
    if file_type == ft_metadata
    then record part { p1 = record (part.p1) { lba = at } }
    else if file_type == ft_metadata_mirror
    then record part { p1 = record (part.p1) { mirror_lba = at } }
    else part

unfoldable pub place_entry : Partitions → ℕ → Option FileEntry → Partitions
place_entry part start_block none = part
place_entry part start_block (some fe) = place_metadata part start_block fe.file_type fe.u

-- One round of the loop in `_map_metadata_partition`, for the entry at `lba` of the partition.
unfoldable pub read_metadata_entry :
    BlockInput → Partitions → ℕ → PartitionDescriptor → Mem Partitions
read_metadata_entry input part lba pd = do
  (tag, buf) ← read_descriptor_block input ((pd.start_block + lba) % 2 ^ 32)
  if is_tag tag Ecma.tag_extended_file_entry
      then (do
        fe ← decode_ext_file_entry buf 0 Ecma.block_size pd.number
        done (place_entry part pd.start_block fe))
      else done part

-- Without the metadata themselves their mirror takes their place.
unfoldable pub use_mirror : Partitions → Partitions
use_mirror part =
    if part.p1.lba == 0 && not (part.p1.mirror_lba == 0)
    then record part { p1 = record (part.p1) { lba = part.p1.mirror_lba; mirror_lba = 0 } }
    else part

-- `_map_metadata_partition`; the first component is whether it returns 0.
unfoldable pub map_metadata_partition :
    BlockInput → Partitions → ℕ → ℕ → PartitionDescriptor → Mem (Bool × Partitions)
map_metadata_partition input part lba mirror_lba pd = do
  part₁ ← read_metadata_entry input part lba pd
  part₂ ← read_metadata_entry input part₁ mirror_lba pd
  let part₃ = use_mirror part₂
  done (not (part₃.p1.lba == 0), part₃)

-- "*UDF Metadata Partition"
abbrev pub meta_domain_id : List ℕ
meta_domain_id =
    b'*' ∷ b'U' ∷ b'D' ∷ b'F' ∷ b' ' ∷ b'M' ∷ b'e' ∷ b't' ∷ b'a' ∷ b'd' ∷ b'a' ∷ b't' ∷ b'a' ∷ b' '
    ∷ b'P' ∷ b'a' ∷ b'r' ∷ b't' ∷ b'i' ∷ b't' ∷ b'i' ∷ b'o' ∷ b'n' ∷ []

-- What one partition map does: the loop is left, or it goes on `len` bytes further, with the
-- partitions and whether a type 1 map has been taken.
pub data MapStep : Type 0 where
  leave : MapStep
  advance : ℕ → Partitions → Bool → MapStep

unfoldable pub type_1_map : Buf → ℕ → PartitionDescriptor → ℕ → Partitions → Bool → Mem MapStep
type_1_map table map pd i part have_type_1 = do
  ref ← get_u16 table (map + 4)
  done (
      if have_type_1 || not (ref == pd.number)
      then advance 6 part have_type_1
      else advance 6
          (record part {
            num_partition = 1;
            p0 = record { number = i % 2 ^ 16; lba = pd.start_block; mirror_lba = 0 };
          })
          true)

unfoldable pub metadata_map :
    BlockInput → Buf → ℕ → PartitionDescriptor → ℕ → Partitions → Bool → Mem MapStep
metadata_map input table map pd i part have_type_1 = do
  ref ← get_u16 table (map + 38)
  lba ← get_u32 table (map + 40)
  mirror_lba ← get_u32 table (map + 44)
  (mapped, part') ← map_metadata_partition input part lba mirror_lba pd
  done (
      advance 64
        (if mapped
          then record part' { num_partition = 2; p1 = record (part'.p1) { number = i % 2 ^ 16 } }
          else part')
        have_type_1)

unfoldable pub type_2_map :
    BlockInput → Buf → ℕ → PartitionDescriptor → ℕ → Partitions → Bool → Mem MapStep
type_2_map input table map pd i part have_type_1 = do
  type_id ←
      decode_entity_id table (map + 4)
        (record { identifier = zeros 23; identifier_suffix = zeros 8 })
  is_metadata ← mem_eq type_id.identifier 0 meta_domain_id
  if is_metadata
      then metadata_map input table map pd i part have_type_1
      else done (advance 64 part have_type_1)

-- The body of the loop in `udf_parse_partition_maps`, for map `i` at `map`.
unfoldable pub map_step :
    BlockInput → Buf → ℕ → ℕ → PartitionDescriptor → ℕ → Partitions → Bool → Mem MapStep
map_step input table end map pd i part have_type_1 = do
  type ← get_u8 table map
  len ← get_u8 table (map + 1)
  if ltb len 2 || ltb end (map + len)
      then done leave
      else if type == 1
      then if len == 6 then type_1_map table map pd i part have_type_1 else done leave
      else if type == 2
      then if len == 64 then type_2_map input table map pd i part have_type_1 else done leave
      else done (advance len part have_type_1)

-- Each map is two bytes long at least, so `fuel` rounds for half of the table are enough.
unfoldable pub map_loop :
    BlockInput
    → Buf
    → ℕ
    → ℕ
    → PartitionDescriptor
    → ℕ
    → ℕ
    → ℕ
    → Partitions
    → Bool
    → Mem (Bool × Partitions)
map_loop input table end num_maps pd zero i map part have_type_1 = running
map_loop input table end num_maps pd (suc fuel) i map part have_type_1 =
    elim (ltb i num_maps && ltb (map + 2) end) [
      | false ↦ done (have_type_1, part)
      | true ↦ do
        step ← map_step input table end map pd i part have_type_1
        elim step [
          | leave ↦ done (have_type_1, part)
          | advance len part' have_type_1' ↦
              map_loop input table end num_maps pd fuel (i + 1) (map + len) part' have_type_1'
        ]
    ]

-- `udf_parse_partition_maps`; the first component is whether it returns 0.
unfoldable pub udf_parse_partition_maps :
    BlockInput
    → PartitionDescriptor
    → LogicalVolumeDescriptor
    → Partitions
    → Mem (Bool × Partitions)
udf_parse_partition_maps input pd lvd part =
    let room = lvd.partition_map_table.len in
    let n = lvd.partition_map_lable_length in
    let end = if ltb room n then room else n in
    map_loop input lvd.partition_map_table end lvd.num_partition_maps pd (end + 1) 0 0 part false
