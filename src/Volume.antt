-- ===== src/Volume.antt =====
-- Volume recognition and the volume descriptor sequence: src/udf_volume.c up to the partitions.
pub mod Blocks
pub mod Ending
pub mod Recognition
pub mod Search
pub mod Sizes
pub mod Vds
use libudfread.Common.{
  ℕ, zero, suc, ◌+◌, ◌-◌, ◌*◌, ◌/◌, ◌%◌, ◌^◌, ltb, leb, ◌==◌, ◌&&◌, ◌||◌, not, if◌then◌else◌, Bool,
  true, false, List, [], ◌∷◌, Option, none, some,
}
use libudfread.Common.Int.{ℤ, pos, negsuc}
use libudfread.Memory.{Buf, Mem, fault, running, done, ◌>>=◌, get_u8, zeros}
use libudfread.Ecma
use libudfread.Ecma.{
  ExtentAd, LongAd, EntityId, PrimaryVolumeDescriptor, AnchorVolumeDescriptor, PartitionDescriptor,
  LogicalVolumeDescriptor, decode_descriptor_tag, decode_avdp, decode_vdp, decode_primary_volume,
  decode_logical_volume, decode_partition, decode_long_ad,
}
use libudfread.Input.{BlockInput, Status, blocks, failed}

-- One block from the input, with whether the read returned 1.
unfoldable pub read_block : BlockInput → ℕ → Bool × Buf
read_block input lba =
    let (status, bytes) = input.read lba 1 0 in
    (
      elim status [ blocks n ↦ n == 1 | failed ↦ false ],
      record { len = Ecma.block_size; at = bytes },
    )

-- `_read_descriptor_block`: the tag (`none` is a negative one) and the block
unfoldable pub read_descriptor_block : BlockInput → ℕ → Mem (Option ℕ × Buf)
read_descriptor_block input lba =
    let (got, buf) = read_block input lba in
    if got then (do tag ← decode_descriptor_tag buf 0; done (tag, buf)) else done (none, buf)

-- `!memcmp(b + p, text, n)`
unfoldable pub mem_eq : Buf → ℕ → List ℕ → Mem Bool
mem_eq b p [] = done true
mem_eq b p (x ∷ text) = do y ← get_u8 b p; rest ← mem_eq b (p + 1) text; done (y == x && rest)

-- the volume structure descriptors that `udf_probe_volume` looks for
abbrev pub bea : List ℕ
bea = 0 ∷ b'B' ∷ b'E' ∷ b'A' ∷ b'0' ∷ b'1' ∷ 1 ∷ []

abbrev pub nsr_02 : List ℕ
nsr_02 = 0 ∷ b'N' ∷ b'S' ∷ b'R' ∷ b'0' ∷ b'2' ∷ 1 ∷ []

abbrev pub nsr_03 : List ℕ
nsr_03 = 0 ∷ b'N' ∷ b'S' ∷ b'R' ∷ b'0' ∷ b'3' ∷ 1 ∷ []

abbrev pub tea : List ℕ
tea = 0 ∷ b'T' ∷ b'E' ∷ b'A' ∷ b'0' ∷ b'1' ∷ 1 ∷ []

abbrev pub nul : List ℕ
nul = 0 ∷ 0 ∷ 0 ∷ 0 ∷ 0 ∷ 0 ∷ 0 ∷ []

-- What one block says: the volume is refused or recognised, or the search goes on.
pub data Probe : Type 0 where
  refused recognised : Probe
  search_on : Bool → Probe

unfoldable pub probe_block : Buf → Bool → Mem Probe
probe_block buf bea_seen = do
  is_tea ← mem_eq buf 0 tea
  is_nul ← mem_eq buf 0 nul
  is_bea ← mem_eq buf 0 bea
  is_nsr_02 ← mem_eq buf 0 nsr_02
  is_nsr_03 ← mem_eq buf 0 nsr_03
  let seen = bea_seen || is_bea
  done (
      if is_tea || is_nul
      then refused
      else if seen && (is_nsr_02 || is_nsr_03)
      then recognised
      else search_on seen)

-- `for (lba = 16; lba < 256; lba++)`, by the rounds left; the result is whether 0 is returned.
unfoldable pub probe_loop : BlockInput → ℕ → ℕ → Bool → Mem Bool
probe_loop input zero lba bea_seen = done false
probe_loop input (suc rounds) lba bea_seen =
    let (got, buf) = read_block input lba in
    elim got [
      | false ↦ probe_loop input rounds (lba + 1) bea_seen
      | true ↦ do
        probe ← probe_block buf bea_seen
        elim probe [
          | refused ↦ done false
          | recognised ↦ done true
          | search_on seen ↦ probe_loop input rounds (lba + 1) seen
        ]
    ]

unfoldable pub udf_probe_volume : BlockInput → Mem Bool
udf_probe_volume input = probe_loop input 240 16 false

-- Whether the tag is the one wanted.
unfoldable pub is_tag : Option ℕ → ℕ → Bool
is_tag none id = false
is_tag (some tag) id = tag == id

abbrev pub anchor_tag : ℕ
anchor_tag = Ecma.tag_anchor_volume_descriptor_pointer

unfoldable pub found_avdp : Buf → Mem (Option AnchorVolumeDescriptor)
found_avdp buf = do avdp ← decode_avdp buf 0; done (some avdp)

-- an anchor at `lba`, or what comes next
unfoldable pub try_avdp :
    BlockInput → ℕ → Mem (Option AnchorVolumeDescriptor) → Mem (Option AnchorVolumeDescriptor)
try_avdp input lba next = do
  (tag, buf) ← read_descriptor_block input lba
  if is_tag tag anchor_tag then found_avdp buf else next

-- `_read_avdp`: block 256, the last block, or 256 before it; `none` is -1.
unfoldable pub read_avdp : BlockInput → Mem (Option AnchorVolumeDescriptor)
read_avdp input = try_avdp input 256 (elim input.size [
  | none ↦ done none
  | some size ↦
      let last = (size + 2 ^ 32 - 1) % 2 ^ 32 in
      try_avdp input last (try_avdp input ((last + 2 ^ 32 - 256) % 2 ^ 32) (done none))
])
