-- ===== src/Handle/Descriptors.antt =====
-- The descriptors of a volume that `udfread_open_input` of src/udfread.c uses: `udf_validate_logical_volume`
-- of src/udf_volume.c ends, and a partition's number has 16 bits.
use libudfread.Common.{
  ℕ, ◌+◌, ◌<◌, ◌^◌, ◌≡◌, arith, true, false, Option, ◌==◌, not, Bool-cases, inl, inr, subst,
}
use libudfread.Memory.{Buf, Returns, done}
use libudfread.Memory.Words.{Returns-bind, get_u16_lem, get_u32_lem, u16_at-lt}
use libudfread.Ecma.{
  LongAd, PartitionDescriptor, LogicalVolumeDescriptor, decode_partition, decode_long_ad,
}
use libudfread.Input.{BlockInput}
use libudfread.Volume.{mem_eq}
use libudfread.Volume.Vds.{udf_validate_logical_volume, lvd_domain_id}
use libudfread.Volume.Search.{HasTag, read_descriptor_block-IsBlock}
use libudfread.Volume.Sizes.{IsLvd}
use libudfread.Partition.Metadata.{mem_eq_safe}
use libudfread.FileEntry.Bounds.{long-IsAd}

pub location_returns :
    (lvd : LogicalVolumeDescriptor)
    → IsLvd lvd
    → Returns (λ (r : Option LongAd). Unit {0}) (udf_validate_logical_volume lvd)
unfolding udf_validate_logical_volume
location_returns lvd sizes = elim (Bool-cases (not (lvd.block_size == 2048))) [
  | inl other ↦ rw other tt
  | inr fits ↦ rw fits (
      Returns-bind _ (mem_eq lvd.domain_id.identifier 0 lvd_domain_id) _
        (mem_eq_safe lvd.domain_id.identifier 0 lvd_domain_id (omega (arith, sizes.0.0)))
        (elim [
          | true ↦ λ u.
              Returns-bind _ (decode_long_ad lvd.contents_use 0) _
                (long-IsAd lvd.contents_use 0 (omega (arith, sizes.1))) (λ ad in_range. tt)
          | false ↦ λ u. tt
        ]))
]

number_small :
    (buf : Buf) → buf.len ≡ 2048 → Returns (λ pd. pd.number < 2 ^ 16) (decode_partition buf 0)
unfolding decode_partition
number_small buf e = ground (
  arith,
  get_u16_lem buf (0 + 22),
  get_u32_lem buf (0 + 188),
  get_u32_lem buf (0 + 192),
  u16_at-lt buf (0 + 22),
)

pub partition_small :
    (input : BlockInput) (buf : Buf) (tag lba : ℕ) (pd : PartitionDescriptor)
    → HasTag input lba tag buf
    → decode_partition buf 0 ≡ done pd
    → pd.number < 2 ^ 16
partition_small input buf tag lba pd has e =
    let whole : buf.len ≡ 2048 =
      subst (Returns (λ r. r.1.len ≡ 2048)) has (read_descriptor_block-IsBlock input lba) in
    subst (Returns (λ pd. pd.number < 2 ^ 16)) e (number_small buf whole)
