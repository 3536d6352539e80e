-- ===== src/Partition/Maps.antt =====
-- `udf_parse_partition_maps` of src/udf_volume.c on any table of partition maps.
use libudfread.Common.{
  ℕ, zero, suc, ◌+◌, ◌^◌, ◌≤◌, ◌<◌, ◌≡◌, refl, arith, ltb, ◌==◌, ◌&&◌, ◌||◌, Bool, true, false,
  Bool-cases, inl, inr,
}
use libudfread.Memory.{Buf, Returns, zeros}
use libudfread.Memory.Words.{
  u8_at, u32_at, get_u8_lem, get_u16_lem, get_u32_lem, Returns-bind, Returns-weaken,
}
use libudfread.Ecma.{EntityId, PartitionDescriptor, LogicalVolumeDescriptor, decode_entity_id}
use libudfread.Input.{BlockInput}
use libudfread.Volume.{mem_eq}
use libudfread.Volume.Sizes.{IsLvd, entity_id-IsEntityId}
use libudfread.Partition.Metadata.{mem_eq_safe, map_metadata-Keeps}
use libudfread.Partition.{
  Partitions, map_metadata_partition, MapStep, leave, advance, type_1_map, metadata_map, type_2_map,
  map_step, map_loop, udf_parse_partition_maps,
}

-- What holds whenever the loop is at a map: a type 1 map that was taken has put partition 0 at
-- the start of the physical partition, without a mirror.
abbrev pub IsPlaced : PartitionDescriptor → Bool → Partitions → Type 0
IsPlaced pd have_type_1 part =
    (part.num_partition ≤ 2)
    × (have_type_1 ≡ true
        → (1 ≤ part.num_partition) × (part.p0.lba ≡ pd.start_block) × (part.p0.mirror_lba ≡ 0))

abbrev IsMapStep : PartitionDescriptor → ℕ → MapStep → Type 0
IsMapStep pd n leave = Unit
IsMapStep pd n (advance len part have_type_1) = (len ≡ n) × IsPlaced pd have_type_1 part

abbrev IsAhead : ℕ → ℕ → PartitionDescriptor → MapStep → Type 0
IsAhead end map pd leave = Unit
IsAhead end map pd (advance len part have_type_1) =
    (2 ≤ len) × (map + len ≤ end) × IsPlaced pd have_type_1 part

type_1-IsMapStep :
    (table : Buf) (map : ℕ) (pd : PartitionDescriptor) (i : ℕ) (part : Partitions) (have' : Bool)
    → map + 6 ≤ table.len
    → IsPlaced pd have' part
    → Returns (IsMapStep pd 6) (type_1_map table map pd i part have')
unfolding type_1_map
type_1-IsMapStep table map pd i part have' h placed =
    rw (get_u16_lem table (map + 4) (omega arith)) (ground arith)

metadata-IsMapStep :
    (input : BlockInput) (table : Buf) (map : ℕ) (pd : PartitionDescriptor) (i : ℕ)
    (part : Partitions) (have' : Bool)
    → map + 64 ≤ table.len
    → pd.number < 2 ^ 16
    → IsPlaced pd have' part
    → Returns (IsMapStep pd 64) (metadata_map input table map pd i part have')
unfolding metadata_map
metadata-IsMapStep input table map pd i part have' h hn placed =
    rw (get_u16_lem table (map + 38) (omega arith)) (
      rw (get_u32_lem table (map + 40) (omega arith)) (
        rw (get_u32_lem table (map + 44) (omega arith)) (
          Returns-bind _
            (map_metadata_partition input part (u32_at table (map + 40)) (u32_at table (map + 44))
              pd)
            _
            (map_metadata-Keeps input part (u32_at table (map + 40)) (u32_at table (map + 44)) pd
              hn)
            (λ r k. ground arith))))

type_2-IsMapStep :
    (input : BlockInput) (table : Buf) (map : ℕ) (pd : PartitionDescriptor) (i : ℕ)
    (part : Partitions) (have' : Bool)
    → map + 64 ≤ table.len
    → pd.number < 2 ^ 16
    → IsPlaced pd have' part
    → Returns (IsMapStep pd 64) (type_2_map input table map pd i part have')
unfolding type_2_map
type_2-IsMapStep input table map pd i part have' h hn placed =
    Returns-bind _ (decode_entity_id table (map + 4) empty) _
      (entity_id-IsEntityId table (map + 4) empty (omega arith) (refl, refl))
      (λ eid sizes.
        Returns-bind _ (mem_eq eid.identifier 0 _) _ (mem_eq_safe eid.identifier 0 _ (omega arith))
          (elim [
            | true ↦ λ u. metadata-IsMapStep input table map pd i part have' h hn placed
            | false ↦ λ u. (omega arith, placed)
          ]))
  where
    empty : EntityId
    empty = record { identifier = zeros 23; identifier_suffix = zeros 8 }

-- One map, by its type and length.
map_step-IsMapStep :
    (input : BlockInput) (table : Buf) (end map : ℕ) (pd : PartitionDescriptor) (i : ℕ)
    (part : Partitions) (have' : Bool)
    → end ≤ table.len
    → map + 2 < end
    → pd.number < 2 ^ 16
    → IsPlaced pd have' part
    → Returns (IsAhead end map pd) (map_step input table end map pd i part have')
unfolding map_step
map_step-IsMapStep input table end map pd i part have' he hm hn placed =
    rw (get_u8_lem table map (omega arith)) (
      rw (get_u8_lem table (map + 1) (omega arith))
        (elim (Bool-cases (ltb len 2 || ltb end (map + len))) [
          | inl bad ↦ rw bad tt
          | inr good ↦ rw good (elim (Bool-cases (type == 1)) [
            | inl one ↦ elim (Bool-cases (len == 6)) [
              | inl six ↦
                  rw (one, six)
                    (Returns-weaken _ (type_1_map table map pd i part have')
                      (type_1-IsMapStep table map pd i part have' (ground arith) placed)
                      (step_ahead 6 (ground arith) (ground arith)))
              | inr bad ↦ rw (one, bad) tt
            ]
            | inr other ↦ elim (Bool-cases (type == 2)) [
              | inl two ↦ elim (Bool-cases (len == 64)) [
                | inl long ↦
                    rw (other, two, long)
                      (Returns-weaken _ (type_2_map input table map pd i part have')
                        (type_2-IsMapStep input table map pd i part have' (ground arith) hn placed)
                        (step_ahead 64 (ground arith) (ground arith)))
                | inr bad ↦ rw (other, two, bad) tt
              ]
              | inr unknown ↦ rw (other, unknown) (ground arith, ground arith, placed)
            ]
          ])
        ]))
  where
    type : ℕ
    type = u8_at table map

    len : ℕ
    len = u8_at table (map + 1)

    step_ahead :
        (n : ℕ)
        → 2 ≤ n
        → map + n ≤ end
        → (step : MapStep) → IsMapStep pd n step
        → IsAhead end map pd step
    step_ahead n lo hi leave h = tt
    step_ahead n lo hi (advance len' part' have'') (e, h) = (omega arith, omega arith, h)

map_loop-IsPlaced :
    (input : BlockInput) (table : Buf) (end n : ℕ) (pd : PartitionDescriptor) (fuel i map : ℕ)
    (part : Partitions) (have' : Bool)
    → end ≤ table.len
    → map ≤ end
    → end < map + fuel
    → pd.number < 2 ^ 16
    → IsPlaced pd have' part
    → Returns (λ r. IsPlaced pd r.0 r.1) (map_loop input table end n pd fuel i map part have')
unfolding map_loop
map_loop-IsPlaced input table end n pd zero i map part have' he hm hf hn placed = omega arith
map_loop-IsPlaced input table end n pd (suc fuel) i map part have' he hm hf hn placed =
    elim (Bool-cases (ltb i n && ltb (map + 2) end)) [
      | inr over ↦ rw (over, Returns) placed
      | inl more ↦
          rw (more, Returns)
            (Returns-bind _ (map_step input table end map pd i part have') _
              (map_step-IsMapStep input table end map pd i part have' he (ground arith) hn placed)
              (elim [
                | leave ↦ λ u. placed
                | advance len part' have'' ↦ λ (lo, hi, h).
                    map_loop-IsPlaced input table end n pd fuel (i + 1) (map + len) part' have'' he
                      hi (omega arith) hn h
              ]))
    ]

-- `udf_parse_partition_maps` on any logical volume descriptor with the table of 2048 bytes that
-- the struct has, whatever the device holds: no access is outside of a buffer, the loop
-- ends, at most two partitions result, and when it returns 0 there is one at least and the first
-- starts where the physical partition does, without a mirror.
pub udf_parse_partition_maps_lem :
    (input : BlockInput) (pd : PartitionDescriptor) (lvd : LogicalVolumeDescriptor)
    (part : Partitions)
    → IsLvd lvd
    → pd.number < 2 ^ 16
    → part.num_partition ≤ 2
    → Returns (λ r. IsPlaced pd r.0 r.1) (udf_parse_partition_maps input pd lvd part)
unfolding udf_parse_partition_maps
udf_parse_partition_maps_lem input pd lvd part sizes hn h =
    map_loop-IsPlaced input lvd.partition_map_table _ lvd.num_partition_maps pd _ 0 0 part false
      (ground arith) (ground arith) (ground arith) hn (h, λ e. ground arith)
