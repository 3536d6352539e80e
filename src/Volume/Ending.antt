-- ===== src/Volume/Ending.antt =====
-- When the search of `_search_vds` in src/udf_volume.c ends, and discs on which it does not.
use libudfread.Common.{
  ℕ, zero, suc, ◌+◌, ◌-◌, ◌<◌, ◌≡◌, refl, arith, ltb, ◌&&◌, not, ltb→lt, true, false, Option, none,
  some, Bool-cases, Option-cases, inl, inr,
}
use libudfread.Common.Int.{ℤ}
use libudfread.Memory.{Buf, Mem, running, done, Returns, Safe}
use libudfread.Memory.Words.{get_u32_lem, Returns-bind, Returns-Safe, Returns-result, Safe-bind}
use libudfread.Ecma.{ExtentAd, AnchorVolumeDescriptor, decode_avdp, decode_vdp, decode_extent_ad}
use libudfread.Input.{BlockInput}
use libudfread.Volume.{read_avdp, found_avdp, try_avdp, anchor_tag, read_descriptor_block, is_tag}
use libudfread.Volume.Search.{
  HasTag, read_descriptor_block-IsBlock, Describes, IsResult, vds_step-IsVdsStep, search_vds-Safe,
}
use libudfread.Volume.Vds.{
  zero_vds, found_none, search_extent, read_backup, read_sequences, udf_read_vds,
  VolumeDescriptorSet, Found, have_all, have_required, is_last, jump, leave, go_on, vds_step,
  end_of, search_vds,
}

-- On a disc without Volume Descriptor Pointers `_search_vds` ends: a round for each block of the
-- extent is enough.
pub search_vds_ends :
    (input : BlockInput) (part_number : ℤ)
    → ((lba : ℕ) (buf : Buf) → ¬ HasTag input lba 3 buf)
    → (fuel lba end_lba : ℕ) (vds : VolumeDescriptorSet) (found : Found) → end_lba - lba < fuel
    → Describes input part_number found vds
    → Returns (IsResult input part_number) (search_vds input part_number fuel lba end_lba vds found)
unfolding search_vds
search_vds_ends input part_number plain zero lba end_lba vds found hf d = absurd (omega arith)
search_vds_ends input part_number plain (suc fuel) lba end_lba vds found hf d =
    elim (Bool-cases (ltb lba end_lba)) [
      | inl more ↦
          let ((tag, buf), e, len) =
            Returns-result (read_descriptor_block input lba)
              (read_descriptor_block-IsBlock input lba) in
          rw (more, Returns)
            (rw (e, Returns)
              (Returns-bind _ (vds_step part_number vds found tag buf) _
                (vds_step-IsVdsStep input part_number lba vds found tag buf len e d)
                (elim [
                  | jump loc ↦ λ h. absurd (plain lba h.0 h.1)
                  | leave ↦ λ h. d
                  | go_on vds' found' ↦ λ h.
                      elim (Bool-cases (have_all found' && not (is_last part_number))) [
                        | inl stop ↦ rw stop h
                        | inr on ↦ rw on (
                            search_vds_ends input part_number plain fuel (lba + 1) end_lba vds'
                              found' (omega (arith, ltb→lt _ _ more)) h)
                      ]
                ])))
      | inr all ↦ rw (all, Returns) d
    ]

vdp_jump :
    (part_number : ℤ) (vds : VolumeDescriptorSet) (found : Found) (buf : Buf) (loc : ExtentAd)
    → decode_vdp buf 0 ≡ done loc
    → vds_step part_number vds found (some 3) buf ≡ done (jump loc)
unfolding vds_step is_tag
vdp_jump part_number vds found buf loc e = rw e

-- The code as it is: a Volume Descriptor Pointer to an extent that starts with this pointer itself
-- keeps `_search_vds` going for ever, however many rounds it is given.
pub search_vds-running :
    (input : BlockInput) (part_number : ℤ) (lba : ℕ) (buf : Buf) (loc : ExtentAd)
    → HasTag input lba 3 buf
    → decode_vdp buf 0 ≡ done loc
    → loc.lba ≡ lba
    → lba < end_of loc
    → (fuel end_lba : ℕ) (vds : VolumeDescriptorSet) (found : Found) → lba < end_lba
    → search_vds input part_number fuel lba end_lba vds found ≡ running
unfolding search_vds
search_vds-running input part_number lba buf loc tag e self room zero end_lba vds found h = refl
search_vds-running input part_number lba buf loc tag e self room (suc fuel) end_lba vds found h =
    ground (
      arith,
      tag,
      vdp_jump part_number vds found buf loc e,
      search_vds-running input part_number lba buf loc tag e self room fuel (end_of loc) vds found
          room,
    )

-- the empty description
pub zero_vds-Describes :
    (input : BlockInput) (part_number : ℤ) → Describes input part_number found_none zero_vds
zero_vds-Describes input part_number = record {
  pvd_sizes = (refl, omega arith, refl);
  lvd_sizes = ((refl, refl), refl, refl, omega arith);
  wanted = λ h. cc;
  part_from = λ h. absurd (false_true h);
  pvd_from = λ h. absurd (false_true h);
  lvd_from = λ h. absurd (false_true h);
}
  where
    false_true : false ≡ true → ⊥
    false_true h = cc

-- -1, or a volume description with its partition and its primary volume descriptor
abbrev pub IsVds : BlockInput → ℤ → Option VolumeDescriptorSet → Type 0
IsVds input part_number none = Unit
IsVds input part_number (some vds) =
    (found : Found) × Describes input part_number found vds
    × (found.part ≡ true)
    × (found.pvd ≡ true)

have_parts : (found : Found) → have_required found ≡ true → (found.part ≡ true) × (found.pvd ≡ true)
unfolding have_required
have_parts found h = ground arith

have_all_parts : (found : Found) → have_all found ≡ true → (found.part ≡ true) × (found.pvd ≡ true)
unfolding have_all
have_all_parts found h = ground arith

read_backup-Safe :
    (input : BlockInput) (part_number : ℤ) (fuel : ℕ) (rvds : ExtentAd) (found : Found)
    (vds : VolumeDescriptorSet)
    → Describes input part_number found vds
    → Safe (IsVds input part_number) (read_backup input part_number fuel rvds (found, vds))
unfolding read_backup search_extent
read_backup-Safe input part_number fuel rvds found vds d = elim (Bool-cases (have_all found)) [
  | inl all ↦ rw all (found, d, (have_all_parts found all).0, (have_all_parts found all).1)
  | inr missing ↦ rw missing (
      Safe-bind _ (search_vds input part_number fuel rvds.lba (end_of rvds) vds found) _
        (search_vds-Safe input part_number fuel rvds.lba (end_of rvds) vds found d)
        (λ r h. elim (Bool-cases (have_required r.0)) [
          | inl enough ↦ rw enough (r.0, h, (have_parts r.0 enough).0, (have_parts r.0 enough).1)
          | inr short ↦ rw short tt
        ]))
]

abbrev Anything : Option AnchorVolumeDescriptor → Type 0
Anything r = Unit

found_avdp-Safe : (buf : Buf) → buf.len ≡ 2048 → Safe Anything (found_avdp buf)
unfolding found_avdp decode_avdp decode_extent_ad
found_avdp-Safe buf e = ground (
  arith,
  get_u32_lem buf (0 + 16),
  get_u32_lem buf (0 + 16 + 4),
  get_u32_lem buf (0 + 24),
  get_u32_lem buf (0 + 24 + 4),
)

try_avdp-Safe :
    (input : BlockInput) (lba : ℕ) (next : Mem (Option AnchorVolumeDescriptor))
    → Safe Anything next
    → Safe Anything (try_avdp input lba next)
unfolding try_avdp
try_avdp-Safe input lba next h =
    Safe-bind _ (read_descriptor_block input lba) _
      (Returns-Safe (λ (r : Option ℕ × Buf). r.1.len ≡ 2048) _
        (read_descriptor_block-IsBlock input lba) (λ r e. e))
      (λ r e. elim (Bool-cases (is_tag r.0 anchor_tag)) [
        | inl yes' ↦ rw yes' (found_avdp-Safe r.1 e)
        | inr no' ↦ rw no' h
      ])

read_avdp-Safe : (input : BlockInput) → Safe Anything (read_avdp input)
unfolding read_avdp
read_avdp-Safe input = try_avdp-Safe input 256 _ (elim (Option-cases input.size) [
  | inl no_size ↦ rw (no_size, Safe) tt
  | inr (size, e) ↦ rw (e, Safe) (try_avdp-Safe input _ _ (try_avdp-Safe input _ _ tt))
])

pub udf_read_vds-Safe :
    (input : BlockInput) (part_number : ℤ) (fuel : ℕ)
    → Safe (IsVds input part_number) (udf_read_vds input part_number fuel)
unfolding udf_read_vds
udf_read_vds-Safe input part_number fuel =
    Safe-bind _ (read_avdp input) _ (read_avdp-Safe input) (elim [
      | none ↦ λ h. unfold read_sequences in tt
      | some avdp ↦ λ h.
          unfold read_sequences search_extent in
          Safe-bind _
            (search_vds input part_number fuel avdp.mvds.lba (end_of avdp.mvds) zero_vds found_none)
            _
            (search_vds-Safe input part_number fuel avdp.mvds.lba (end_of avdp.mvds) zero_vds
              found_none (zero_vds-Describes input part_number))
            (λ r d. read_backup-Safe input part_number fuel avdp.rvds r.0 r.1 d)
    ])
