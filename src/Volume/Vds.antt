-- ===== src/Volume/Vds.antt =====
-- The volume descriptor sequence: `_search_vds`, `udf_read_vds` and `udf_validate_logical_volume`
-- of src/udf_volume.c.
use libudfread.Common.{
  ℕ, zero, suc, ◌+◌, ◌/◌, ◌%◌, ◌^◌, ltb, ◌==◌, ◌&&◌, ◌||◌, not, if◌then◌else◌, Bool, true, false,
  List, [], ◌∷◌, Option, none, some,
}
use libudfread.Common.Int.{ℤ, pos, negsuc}
use libudfread.Memory.{Buf, Mem, running, done, ◌>>=◌, zeros}
use libudfread.Ecma
use libudfread.Ecma.{
  ExtentAd, LongAd, EntityId, PrimaryVolumeDescriptor, AnchorVolumeDescriptor, PartitionDescriptor,
  LogicalVolumeDescriptor, decode_vdp, decode_primary_volume, decode_logical_volume,
  decode_partition, decode_long_ad,
}
use libudfread.Input.{BlockInput}
use libudfread.Volume.{read_descriptor_block, read_avdp, mem_eq, is_tag}

pub record VolumeDescriptorSet : Type 0 where
  pub pd : PartitionDescriptor
  pub pvd : PrimaryVolumeDescriptor
  pub lvd : LogicalVolumeDescriptor

-- memset(vds, 0, sizeof(*vds))
abbrev pub zero_vds : VolumeDescriptorSet
zero_vds = record {
  pd = record { number = 0; start_block = 0; num_blocks = 0 };
  pvd = record {
    volume_identifier = zeros 31;
    volume_identifier_length = 0;
    volume_set_identifier = zeros 128;
  };
  lvd = record {
    block_size = 0;
    domain_id = record { identifier = zeros 23; identifier_suffix = zeros 8 };
    contents_use = zeros 16;
    num_partition_maps = 0;
    partition_map_lable_length = 0;
    partition_map_table = zeros 2048;
  };
}

-- the mask of VDS_HAVE_PART, VDS_HAVE_PVD and VDS_HAVE_LVD
pub record Found : Type 0 where
  pub part : Bool
  pub pvd : Bool
  pub lvd : Bool

abbrev pub found_none : Found
found_none = record { part = false; pvd = false; lvd = false }

unfoldable pub have_all : Found → Bool
have_all f = f.part && f.pvd && f.lvd

unfoldable pub have_required : Found → Bool
have_required f = f.part && f.pvd

-- UDFREAD_PARTITION_FIRST and UDFREAD_PARTITION_LAST
abbrev pub partition_first : ℤ
partition_first = negsuc 0

abbrev pub partition_last : ℤ
partition_last = negsuc 1

unfoldable pub is_last : ℤ → Bool
is_last (pos n) = false
is_last (negsuc n) = n == 1

-- `part_number < 0 || part_number == number`
unfoldable pub accepts : ℤ → ℕ → Bool
accepts (pos n) number = n == number
accepts (negsuc n) number = true

-- What a block of the sequence does: the search moves to another extent, ends, or goes on with
-- what has been found.
pub data VdsStep : Type 0 where
  jump : ExtentAd → VdsStep
  leave : VdsStep
  go_on : VolumeDescriptorSet → Found → VdsStep

unfoldable pub partition_step : ℤ → VolumeDescriptorSet → Found → Buf → Mem VdsStep
partition_step part_number vds found buf =
    if not found.part || is_last part_number
    then (do
      pd ← decode_partition buf 0
      done (
          go_on (record vds { pd = pd })
            (if accepts part_number pd.number then record found { part = true } else found)))
    else done (go_on vds found)

-- the switch on the tag
unfoldable pub vds_step : ℤ → VolumeDescriptorSet → Found → Option ℕ → Buf → Mem VdsStep
vds_step part_number vds found tag buf =
    if is_tag tag Ecma.tag_volume_descriptor_pointer
    then (do next ← decode_vdp buf 0; done (jump next))
    else if is_tag tag Ecma.tag_primary_volume_descriptor
    then (do
      pvd ← decode_primary_volume buf 0 vds.pvd
      done (go_on (record vds { pvd = pvd }) (record found { pvd = true })))
    else if is_tag tag Ecma.tag_logical_volume_descriptor
    then (do
      lvd ← decode_logical_volume buf 0 vds.lvd
      done (go_on (record vds { lvd = lvd }) (record found { lvd = true })))
    else if is_tag tag Ecma.tag_partition_descriptor
    then partition_step part_number vds found buf
    else if is_tag tag Ecma.tag_terminating_descriptor
    then done leave
    else done (go_on vds found)

abbrev pub end_of : ExtentAd → ℕ
end_of loc = (loc.lba + loc.length / Ecma.block_size) % 2 ^ 32

-- `_search_vds` from block `lba` of an extent up to `end_lba`, with `fuel` rounds.
unfoldable pub search_vds :
    BlockInput → ℤ → ℕ → ℕ → ℕ → VolumeDescriptorSet → Found → Mem (Found × VolumeDescriptorSet)
search_vds input part_number zero lba end_lba vds found = running
search_vds input part_number (suc fuel) lba end_lba vds found = elim (ltb lba end_lba) [
  | false ↦ done (found, vds)
  | true ↦ do
    (tag, buf) ← read_descriptor_block input lba
    step ← vds_step part_number vds found tag buf
    elim step [
      | jump loc ↦ search_vds input part_number fuel loc.lba (end_of loc) vds found
      | leave ↦ done (found, vds)
      | go_on vds' found' ↦
          let rest = search_vds input part_number fuel (lba + 1) end_lba vds' found' in
          if have_all found' && not (is_last part_number) then done (found', vds') else rest
    ]
]

unfoldable pub search_extent :
    BlockInput → ℤ → ℕ → ExtentAd → VolumeDescriptorSet → Found → Mem (Found × VolumeDescriptorSet)
search_extent input part_number fuel loc = search_vds input part_number fuel loc.lba (end_of loc)

-- the backup sequence, if the main one lacks something
unfoldable pub read_backup :
    BlockInput → ℤ → ℕ → ExtentAd → Found × VolumeDescriptorSet → Mem (Option VolumeDescriptorSet)
read_backup input part_number fuel rvds (found, vds) =
    if have_all found then done (some vds) else do
      (found', vds') ← search_extent input part_number fuel rvds vds found
      done (if have_required found' then some vds' else none)

unfoldable pub read_sequences :
    BlockInput → ℤ → ℕ → Option AnchorVolumeDescriptor → Mem (Option VolumeDescriptorSet)
read_sequences input part_number fuel none = done none
read_sequences input part_number fuel (some avdp) = do
  main ← search_extent input part_number fuel avdp.mvds zero_vds found_none
  read_backup input part_number fuel avdp.rvds main

-- `none` is -1
unfoldable pub udf_read_vds : BlockInput → ℤ → ℕ → Mem (Option VolumeDescriptorSet)
udf_read_vds input part_number fuel = do
  avdp ← read_avdp input
  read_sequences input part_number fuel avdp

-- "*OSTA UDF Compliant"
abbrev pub lvd_domain_id : List ℕ
lvd_domain_id =
    b'*' ∷ b'O' ∷ b'S' ∷ b'T' ∷ b'A' ∷ b' ' ∷ b'U' ∷ b'D' ∷ b'F' ∷ b' ' ∷ b'C' ∷ b'o' ∷ b'm' ∷ b'p'
    ∷ b'l' ∷ b'i' ∷ b'a' ∷ b'n' ∷ b't' ∷ []

-- The location of the File Set Descriptors; `none` is -1.
unfoldable pub udf_validate_logical_volume : LogicalVolumeDescriptor → Mem (Option LongAd)
udf_validate_logical_volume lvd = if not (lvd.block_size == Ecma.block_size) then done none else do
  same ← mem_eq lvd.domain_id.identifier 0 lvd_domain_id
  if same then (do fsd_loc ← decode_long_ad lvd.contents_use 0; done (some fsd_loc)) else done none
