-- ===== src/Partition/Metadata.antt =====
-- `_map_metadata_partition` of src/udf_volume.c on any disc.
use libudfread.Common.{
  ℕ, ◌+◌, ◌^◌, ◌%◌, ◌≤◌, ◌<◌, ◌≡◌, refl, arith, Bool, List, [], ◌∷◌, length, Option, Bool-cases,
  inl, inr,
}
use libudfread.Memory.{Buf, Returns}
use libudfread.Memory.Words.{get_u8_lem, Returns-bind, Returns-weaken}
use libudfread.Ecma.{PartitionDescriptor}
use libudfread.FileEntry.{FileEntry, decode_ext_file_entry, decode_sized_entry}
use libudfread.FileEntry.Safety.{decode_sized_entry-IsEntry}
use libudfread.Input.{BlockInput}
use libudfread.Volume.{read_descriptor_block, mem_eq, is_tag}
use libudfread.Volume.Search.{read_descriptor_block-IsBlock}
use libudfread.Partition.{
  Partitions, place_metadata, place_entry, read_metadata_entry, use_mirror, map_metadata_partition,
}

pub mem_eq_safe :
    (b : Buf) (p : ℕ) (text : List ℕ)
    → p + length text ≤ b.len
    → Returns (λ (same : Bool). Unit {0}) (mem_eq b p text)
unfolding mem_eq
mem_eq_safe b p [] h = tt
mem_eq_safe b p (x ∷ text) h = rw (get_u8_lem b p (omega arith)) (
    Returns-bind _ (mem_eq b (p + 1) text) _ (mem_eq_safe b (p + 1) text (omega arith)) (λ r u. tt))

-- The metadata maps leave partition 0 and the number of partitions alone.
abbrev pub Keeps : Partitions → Partitions → Type 0
Keeps old part = (part.p0 ≡ old.p0) × (part.num_partition ≡ old.num_partition)

place_entry-Keeps :
    (part : Partitions) (start : ℕ) (fe : Option FileEntry) → Keeps part (place_entry part start fe)
unfolding place_entry place_metadata
place_entry-Keeps part start fe = ground arith

ext_entry_returns :
    (b : Buf) (n : ℕ)
    → b.len ≡ 2048
    → n < 2 ^ 16
    → Returns (λ (fe : Option FileEntry). Unit {0}) (decode_ext_file_entry b 0 2048 n)
unfolding decode_ext_file_entry
ext_entry_returns b n e h =
    Returns-weaken _ (decode_sized_entry 216 b 0 2048 n)
      (decode_sized_entry-IsEntry 216 b 0 2048 n (omega arith) (omega arith) (omega arith) h)
      (λ fe f. tt)

read_metadata_entry-Keeps :
    (input : BlockInput) (part : Partitions) (lba : ℕ) (pd : PartitionDescriptor)
    → pd.number < 2 ^ 16
    → Returns (Keeps part) (read_metadata_entry input part lba pd)
unfolding read_metadata_entry
read_metadata_entry-Keeps input part lba pd h =
    Returns-bind _ (read_descriptor_block input ((pd.start_block + lba) % 2 ^ 32)) _
      (read_descriptor_block-IsBlock input ((pd.start_block + lba) % 2 ^ 32))
      (λ r e. elim (Bool-cases (is_tag r.0 266)) [
        | inl entry ↦ rw entry (
            Returns-bind _ (decode_ext_file_entry r.1 0 2048 pd.number) _
              (ext_entry_returns r.1 pd.number e h)
              (λ fe f. place_entry-Keeps part pd.start_block fe))
        | inr other ↦ rw other (refl, refl)
      ])

pub map_metadata-Keeps :
    (input : BlockInput) (part : Partitions) (lba mirror_lba : ℕ) (pd : PartitionDescriptor)
    → pd.number < 2 ^ 16
    → Returns (λ r. Keeps part r.1) (map_metadata_partition input part lba mirror_lba pd)
unfolding map_metadata_partition use_mirror
map_metadata-Keeps input part lba mirror_lba pd h =
    Returns-bind _ (read_metadata_entry input part lba pd) _
      (read_metadata_entry-Keeps input part lba pd h)
      (λ part₁ k₁.
        Returns-bind _ (read_metadata_entry input part₁ mirror_lba pd) _
          (read_metadata_entry-Keeps input part₁ mirror_lba pd h) (λ part₂ k₂. ground arith))
