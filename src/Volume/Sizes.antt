-- ===== src/Volume/Sizes.antt =====
-- The descriptors of src/ecma167.c that fill fixed arrays: on a whole block they stay inside it
-- and inside their arrays, whose sizes they keep.
use libudfread.Common.{
  ℕ, suc, le→ltb_false, ◌+◌, ◌-◌, ◌^◌, ◌≤◌, ◌<◌, ◌≡◌, arith, ltb, if◌then◌else◌,
}
use libudfread.Memory.{Buf, Returns, memcpy}
use libudfread.Memory.Words.{u8_at, u32_at, u32_at-lt, get_u8_lem, get_u32_lem, Returns-bind}
use libudfread.Ecma.{
  EntityId, PrimaryVolumeDescriptor, LogicalVolumeDescriptor, decode_dstring, decode_entity_id,
  decode_primary_volume, decode_logical_volume, map_size,
}

-- The sizes of the arrays in the structures.
abbrev pub IsEntityId : EntityId → Type 0
IsEntityId eid = (eid.identifier.len ≡ 23) × (eid.identifier_suffix.len ≡ 8)

abbrev pub IsPvd : PrimaryVolumeDescriptor → Type 0
IsPvd pvd =
    (pvd.volume_identifier.len ≡ 31)
    × (pvd.volume_identifier_length ≤ 31)
    × (pvd.volume_set_identifier.len ≡ 128)

abbrev pub IsLvd : LogicalVolumeDescriptor → Type 0
IsLvd lvd =
    IsEntityId lvd.domain_id
    × (lvd.contents_use.len ≡ 16)
    × (lvd.partition_map_table.len ≡ 2048)
    × (lvd.partition_map_lable_length < 2 ^ 32)

abbrev Keeps : Buf → Buf → Type 0
Keeps dst out = out.len ≡ dst.len

pub memcpy-Keeps :
    (dst src : Buf) (off n : ℕ)
    → off + n ≤ src.len
    → n ≤ dst.len
    → Returns (Keeps dst) (memcpy dst src off n)
unfolding memcpy
memcpy-Keeps dst src off n h k = ground arith

abbrev IsString : ℕ → Buf → ℕ × Buf → Type 0
IsString room dst r = (r.0 ≤ room) × Keeps dst r.1

dstring-IsString :
    (b : Buf) (p n : ℕ) (dst : Buf)
    → p + suc n ≤ b.len
    → n ≤ dst.len
    → Returns (IsString n dst) (decode_dstring b p (suc n) dst)
unfolding decode_dstring
dstring-IsString b p n dst h k =
    rw (le→ltb_false (suc n) 1 (omega arith), get_u8_lem b (p + (suc n - 1)) (omega arith))
      (Returns-bind _ (memcpy dst b p m) _ (memcpy-Keeps dst b p m (ground arith) (ground arith))
        (λ out same. (ground arith, same)))
  where
    stored : ℕ
    stored = u8_at b (p + (suc n - 1))

    m : ℕ
    m = if ltb (suc n - 1) stored then suc n - 1 else stored

pub primary_volume-IsPvd :
    (b : Buf) (pvd : PrimaryVolumeDescriptor)
    → b.len ≡ 2048
    → IsPvd pvd
    → Returns IsPvd (decode_primary_volume b 0 pvd)
unfolding decode_primary_volume
primary_volume-IsPvd b pvd e (vi, vl, vs) =
    Returns-bind _ (decode_dstring b (0 + 24) 32 pvd.volume_identifier) _
      (dstring-IsString b (0 + 24) 31 pvd.volume_identifier (omega arith) (omega arith))
      (λ r h.
        Returns-bind _ (memcpy pvd.volume_set_identifier b (0 + 72) 128) _
          (memcpy-Keeps pvd.volume_set_identifier b (0 + 72) 128 (omega arith) (omega arith))
          (λ out same. (omega (arith, h.1), h.0, omega arith)))

pub entity_id-IsEntityId :
    (b : Buf) (p : ℕ) (eid : EntityId)
    → p + 32 ≤ b.len
    → IsEntityId eid
    → Returns IsEntityId (decode_entity_id b p eid)
unfolding decode_entity_id
entity_id-IsEntityId b p eid h (i, s) =
    Returns-bind _ (memcpy eid.identifier b (p + 1) 23) _
      (memcpy-Keeps eid.identifier b (p + 1) 23 (omega arith) (omega arith))
      (λ x hx.
        Returns-bind _ (memcpy eid.identifier_suffix b (p + 24) 8) _
          (memcpy-Keeps eid.identifier_suffix b (p + 24) 8 (omega arith) (omega arith))
          (λ y hy. (omega arith, omega arith)))

-- The copy of the partition maps is cut to the array and to the block.
pub map_size_bounds :
    (n room : ℕ) → (map_size n room ≤ room) × (map_size n room ≤ 1608) × (map_size n room ≤ n)
unfolding map_size
map_size_bounds n room = ground arith

pub logical_volume-IsLvd :
    (b : Buf) (lvd : LogicalVolumeDescriptor)
    → b.len ≡ 2048
    → IsLvd lvd
    → Returns IsLvd (decode_logical_volume b 0 lvd)
unfolding decode_logical_volume
logical_volume-IsLvd b lvd e (d, u, t, l) = rw (get_u32_lem b (0 + 212) (omega arith)) (
    Returns-bind _ (decode_entity_id b (0 + 216) lvd.domain_id) _
      (entity_id-IsEntityId b (0 + 216) lvd.domain_id (omega arith) d)
      (λ eid he.
        Returns-bind _ (memcpy lvd.contents_use b (0 + 248) 16) _
          (memcpy-Keeps lvd.contents_use b (0 + 248) 16 (omega arith) (omega arith))
          (λ use' hu. rw (get_u32_lem b (0 + 264) (omega arith)) (
            rw (get_u32_lem b (0 + 268) (omega arith)) (
              Returns-bind _ (memcpy lvd.partition_map_table b (0 + 440) n) _
                (memcpy-Keeps lvd.partition_map_table b (0 + 440) n
                  (omega (arith, map_size_bounds lable_length lvd.partition_map_table.len))
                  (omega (arith, map_size_bounds lable_length lvd.partition_map_table.len)))
                (λ table ht. (he, omega arith, omega arith, u32_at-lt b (0 + 264))))))))
  where
    lable_length : ℕ
    lable_length = u32_at b (0 + 264)

    n : ℕ
    n = map_size lable_length lvd.partition_map_table.len
