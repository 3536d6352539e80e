-- ===== src/Volume/Search.antt =====
-- What `_search_vds` of src/udf_volume.c finds: descriptors of the disc with a valid tag.
use libudfread.Common.{
  ℕ, zero, suc, ◌+◌, ◌≡◌, sym, ap, ◌∙◌, arith, ltb, ◌&&◌, ◌||◌, not, true, false, Option, some,
  Bool-cases, inl, inr,
}
use libudfread.Common.Int.{ℤ}
use libudfread.Memory.{Buf, done, Returns, Safe}
use libudfread.Memory.Words.{
  get_u16_lem, get_u32_lem, Returns-bind, Returns-known, Returns-Safe, Returns-result, Safe-bind,
}
use libudfread.Ecma.{
  ExtentAd, PrimaryVolumeDescriptor, LogicalVolumeDescriptor, decode_partition, decode_vdp,
  decode_extent_ad, decode_primary_volume, decode_logical_volume,
}
use libudfread.Ecma.Tag.{decode_descriptor_tag_lem}
use libudfread.Input.{BlockInput}
use libudfread.Volume.{read_block, read_descriptor_block, is_tag}
use libudfread.Volume.Sizes.{IsPvd, IsLvd, primary_volume-IsPvd, logical_volume-IsLvd}
use libudfread.Volume.Vds.{
  VolumeDescriptorSet, Found, have_all, is_last, accepts, VdsStep, jump, leave, go_on,
  partition_step, vds_step, end_of, search_vds,
}

-- A block of the disc with an accepted tag.
abbrev pub HasTag : BlockInput → ℕ → ℕ → Buf → Type 0
HasTag input lba tag buf = read_descriptor_block input lba ≡ done (some tag, buf)

abbrev IsBlock : Option ℕ × Buf → Type 0
IsBlock r = r.1.len ≡ 2048

pub read_descriptor_block-IsBlock :
    (input : BlockInput) (lba : ℕ) → Returns IsBlock (read_descriptor_block input lba)
unfolding read_descriptor_block read_block
read_descriptor_block-IsBlock input lba =
    let (status, bytes) = input.read lba 1 0 in
    ground (arith, decode_descriptor_tag_lem (record { len = 2048; at = bytes }) 0)

is_tag→some : (tag : Option ℕ) (id : ℕ) → is_tag tag id ≡ true → tag ≡ some id
unfolding is_tag
is_tag→some tag id e = ground arith

true-false : true ≡ false → ⊥
true-false e = cc

-- A partition is looked at again only for the last one, which any number fits.
refused_missing :
    (part_number : ℤ) (number : ℕ) (found : Found)
    → (not found.part || is_last part_number) ≡ true
    → accepts part_number number ≡ false
    → found.part ≡ false
unfolding is_last accepts
refused_missing part_number number found look other = ground arith

module _ (input : BlockInput) (part_number : ℤ) where
  -- A volume description, with the blocks that its parts come from: each part that has been found
  -- was decoded from a block whose tag says so, and the partition is the one that was asked for.
  pub record Describes (found : Found) (vds : VolumeDescriptorSet) : Type 0 where
    pub pvd_sizes : IsPvd vds.pvd
    pub lvd_sizes : IsLvd vds.lvd
    pub wanted : found.part ≡ true → accepts part_number vds.pd.number ≡ true
    pub part_from :
        found.part ≡ true
        → (lba : ℕ) × (buf : Buf) × HasTag input lba 5 buf × (decode_partition buf 0 ≡ done vds.pd)
    pub pvd_from :
        found.pvd ≡ true
        → (lba : ℕ) × (buf : Buf) × (old : PrimaryVolumeDescriptor) × HasTag input lba 1 buf
          × (decode_primary_volume buf 0 old ≡ done vds.pvd)
    pub lvd_from :
        found.lvd ≡ true
        → (lba : ℕ) × (buf : Buf) × (old : LogicalVolumeDescriptor) × HasTag input lba 6 buf
          × (decode_logical_volume buf 0 old ≡ done vds.lvd)

  -- what the step at block `lba` may be
  abbrev pub IsVdsStep : ℕ → VdsStep → Type 0
  IsVdsStep lba (jump loc) = (buf : Buf) × HasTag input lba 3 buf
  IsVdsStep lba leave = Unit
  IsVdsStep lba (go_on vds found) = Describes found vds

  partition_lem :
      (buf : Buf)
      → buf.len ≡ 2048
      → Returns (λ pd. decode_partition buf 0 ≡ done pd) (decode_partition buf 0)
  unfolding decode_partition
  partition_lem buf e =
      ground (arith, get_u16_lem buf (0 + 22), get_u32_lem buf (0 + 188), get_u32_lem buf (0 + 192))

  partition_step-IsVdsStep :
      (lba : ℕ) (vds : VolumeDescriptorSet) (found : Found) (buf : Buf)
      → buf.len ≡ 2048
      → HasTag input lba 5 buf
      → Describes found vds
      → Returns (IsVdsStep lba) (partition_step part_number vds found buf)
  unfolding partition_step
  partition_step-IsVdsStep lba vds found buf len tag d =
      elim (Bool-cases (not found.part || is_last part_number)) [
        | inl look ↦ rw look (
            Returns-bind _ (decode_partition buf 0) _ (partition_lem buf len) (λ pd e.
              elim (Bool-cases (accepts part_number pd.number)) [
                | inl ok ↦ rw ok (record {
                  pvd_sizes = d.pvd_sizes;
                  lvd_sizes = d.lvd_sizes;
                  wanted = λ _. ok;
                  part_from = λ _. (lba, buf, tag, e);
                  pvd_from = d.pvd_from;
                  lvd_from = d.lvd_from;
                })
                | inr other ↦
                    let missing = refused_missing part_number pd.number found look other in
                    rw other (record {
                      pvd_sizes = d.pvd_sizes;
                      lvd_sizes = d.lvd_sizes;
                      wanted = λ h. cc;
                      part_from = λ h. absurd (true-false (sym h ∙ missing));
                      pvd_from = d.pvd_from;
                      lvd_from = d.lvd_from;
                    })
              ]))
        | inr keep ↦ rw keep d
      ]

  vdp_lem : (buf : Buf) → buf.len ≡ 2048 → Returns (λ (loc : ExtentAd). Unit {0}) (decode_vdp buf 0)
  unfolding decode_vdp decode_extent_ad
  vdp_lem buf e = ground (arith, get_u32_lem buf (0 + 20), get_u32_lem buf (0 + 20 + 4))

  -- The switch, on every tag.
  pub vds_step-IsVdsStep :
      (lba : ℕ) (vds : VolumeDescriptorSet) (found : Found) (tag : Option ℕ) (buf : Buf)
      → buf.len ≡ 2048
      → read_descriptor_block input lba ≡ done (tag, buf)
      → Describes found vds
      → Returns (IsVdsStep lba) (vds_step part_number vds found tag buf)
  unfolding vds_step
  vds_step-IsVdsStep lba vds found tag buf len e d = elim (Bool-cases (is_tag tag 3)) [
    | inl vdp ↦
        rw vdp
          (Returns-bind _ (decode_vdp buf 0) _ (vdp_lem buf len) (λ loc h. (buf, has_tag 3 vdp)))
    | inr not_vdp ↦ elim (Bool-cases (is_tag tag 1)) [
      | inl is_pvd ↦
          rw (not_vdp, is_pvd)
            (Returns-bind _ (decode_primary_volume buf 0 vds.pvd) _
              (Returns-known IsPvd (decode_primary_volume buf 0 vds.pvd)
                (primary_volume-IsPvd buf vds.pvd len d.pvd_sizes))
              (λ pvd (sizes, decoded). record {
                pvd_sizes = sizes;
                lvd_sizes = d.lvd_sizes;
                wanted = d.wanted;
                part_from = d.part_from;
                pvd_from = λ _. (lba, buf, vds.pvd, has_tag 1 is_pvd, decoded);
                lvd_from = d.lvd_from;
              }))
      | inr not_pvd ↦ elim (Bool-cases (is_tag tag 6)) [
        | inl is_lvd ↦
            rw (not_vdp, not_pvd, is_lvd)
              (Returns-bind _ (decode_logical_volume buf 0 vds.lvd) _
                (Returns-known IsLvd (decode_logical_volume buf 0 vds.lvd)
                  (logical_volume-IsLvd buf vds.lvd len d.lvd_sizes))
                (λ lvd (sizes, decoded). record {
                  pvd_sizes = d.pvd_sizes;
                  lvd_sizes = sizes;
                  wanted = d.wanted;
                  part_from = d.part_from;
                  pvd_from = d.pvd_from;
                  lvd_from = λ _. (lba, buf, vds.lvd, has_tag 6 is_lvd, decoded);
                }))
        | inr not_lvd ↦ elim (Bool-cases (is_tag tag 5)) [
          | inl is_pd ↦
              rw (not_vdp, not_pvd, not_lvd, is_pd)
                (partition_step-IsVdsStep lba vds found buf len (has_tag 5 is_pd) d)
          | inr not_pd ↦ elim (Bool-cases (is_tag tag 8)) [
            | inl last ↦ rw (not_vdp, not_pvd, not_lvd, not_pd, last) tt
            | inr other ↦ rw (not_vdp, not_pvd, not_lvd, not_pd, other) d
          ]
        ]
      ]
    ]
  ]
    where
      has_tag : (id : ℕ) → is_tag tag id ≡ true → HasTag input lba id buf
      has_tag id h = e ∙ ap (λ t. done (t, buf)) (is_tag→some tag id h)

  abbrev pub IsResult : Found × VolumeDescriptorSet → Type 0
  IsResult r = Describes r.0 r.1

  -- `_search_vds` on any disc: no access outside a buffer, and what it has found when it returns
  -- comes from blocks of the disc with the right tags.
  pub search_vds-Safe :
      (fuel lba end_lba : ℕ) (vds : VolumeDescriptorSet) (found : Found)
      → Describes found vds
      → Safe IsResult (search_vds input part_number fuel lba end_lba vds found)
  unfolding search_vds
  search_vds-Safe zero lba end_lba vds found d = tt
  search_vds-Safe (suc fuel) lba end_lba vds found d = elim (Bool-cases (ltb lba end_lba)) [
    | inl more ↦
        let ((tag, buf), e, len) =
          Returns-result (read_descriptor_block input lba)
            (read_descriptor_block-IsBlock input lba) in
        rw (more, Safe)
          (rw (e, Safe)
            (Safe-bind _ (vds_step part_number vds found tag buf) _
              (Returns-Safe (IsVdsStep lba) _ (vds_step-IsVdsStep lba vds found tag buf len e d)
                (λ s h. h))
              (elim [
                | jump loc ↦ λ h. search_vds-Safe fuel loc.lba (end_of loc) vds found d
                | leave ↦ λ h. d
                | go_on vds' found' ↦ λ h.
                    elim (Bool-cases (have_all found' && not (is_last part_number))) [
                      | inl stop ↦ rw stop h
                      | inr on ↦ rw on (search_vds-Safe fuel (lba + 1) end_lba vds' found' h)
                    ]
              ])))
    | inr all ↦ rw (all, Safe) d
  ]
