-- ===== src/Fs.antt =====
-- Metadata of the file system: `_partition_index`, `_read_metadata_blocks`, `_read_metadata`,
-- `udf_find_root_dir` and `udf_read_file_entry` of src/udf_fs.c. malloc is taken to succeed.
pub mod Dir
pub mod Extents
pub mod Identifier
pub mod Listing
pub mod Metadata
pub mod Root
use libudfread.Common.{
  ℕ, zero, suc, ◌+◌, ◌-◌, ◌*◌, ◌/◌, ◌%◌, ◌^◌, ltb, leb, ◌==◌, ◌&&◌, if◌then◌else◌, not, Bool, true,
  false, List, [], ◌∷◌, Option, none, some,
}
use libudfread.Memory.{Buf, Heap, Mem, running, done, ◌>>=◌, store, zeros}
use libudfread.Ecma
use libudfread.Ecma.{LongAd, decode_file_set_descriptor}
use libudfread.FileEntry.{
  FileEntry, Content, ads, inline, decode_file_entry, decode_ext_file_entry,
  decode_allocation_extent,
}
use libudfread.Input.{BlockInput}
use libudfread.Volume.{read_block, read_descriptor_block}
use libudfread.Partition.{Part, Partitions}

-- struct udf_fs, with the memory that the decoders get
pub record UdfFs : Type 0 where
  pub input : BlockInput
  pub heap : Heap
  pub part : Partitions

-- The partition with that number; `none` is -1.
unfoldable pub partition_index : Partitions → ℕ → Option Part
partition_index part number =
    if number == part.p0.number
    then some part.p0
    else if ltb 1 part.num_partition && number == part.p1.number
    then some part.p1
    else none

-- a first block and its tag; without a tag the mirror's block
unfoldable pub or_mirror : BlockInput → Part → ℕ → Option ℕ × Buf → Mem (Option ℕ × Buf)
or_mirror input p lba (some tag, block) = done (some tag, block)
or_mirror input p lba (none, block) =
    if p.mirror_lba == 0
    then done (none, block)
    else read_descriptor_block input ((p.mirror_lba + lba) % 2 ^ 32)

unfoldable pub read_first : BlockInput → Part → ℕ → Mem (Option ℕ × Buf)
read_first input p lba =
    read_descriptor_block input ((p.lba + lba) % 2 ^ 32) >>= λ r. or_mirror input p lba r

-- a following block, whose tag is not looked at
unfoldable pub read_following : BlockInput → Part → ℕ → Bool × Buf
read_following input p lba =
    let (got, block) = read_block input ((p.lba + lba) % 2 ^ 32) in
    if got
    then (true, block)
    else if p.mirror_lba == 0
    then (false, block)
    else read_block input ((p.mirror_lba + lba) % 2 ^ 32)

-- `for (i = 1; i <= (loc->length - 1) / UDF_BLOCK_SIZE; i++)`, by the rounds left; `none` is -1.
unfoldable pub read_rest : BlockInput → Part → ℕ → ℕ → ℕ → Buf → Mem (Option Buf)
read_rest input p lba zero i buf = done (some buf)
read_rest input p lba (suc rounds) i buf =
    let (got, block) = read_following input p (lba + i) in
    do
      filled ← store buf (i * Ecma.block_size) Ecma.block_size block.at
      if got then read_rest input p lba rounds (i + 1) filled else done none

-- What is behind the first block, for its tag.
unfoldable pub with_rest : BlockInput → Part → LongAd → Option ℕ → Buf → Mem (Option (ℕ × Buf))
with_rest input p loc none buf = done none
with_rest input p loc (some tag) buf = do
  rest ← read_rest input p loc.lba ((loc.length + 2 ^ 32 - 1) % 2 ^ 32 / Ecma.block_size) 1 buf
  elim rest [ none ↦ done none | some buf' ↦ done (some (tag, buf')) ]

-- The tag and the filled buffer; `none` is -1.
unfoldable pub read_metadata_blocks : UdfFs → Buf → LongAd → Mem (Option (ℕ × Buf))
read_metadata_blocks fs buf loc = elim (partition_index fs.part loc.partition) [
  | none ↦ done none
  | some p ↦ do
    (tag, block) ← read_first fs.input p loc.lba
    filled ← store buf 0 Ecma.block_size block.at
    with_rest fs.input p loc tag filled
]

-- blocks in an extent, in 32-bit arithmetic
abbrev pub blocks_of : ℕ → ℕ
blocks_of length = (length + Ecma.block_size - 1) % 2 ^ 32 / Ecma.block_size

-- `none` is NULL
unfoldable pub read_metadata : UdfFs → LongAd → Mem (Option (ℕ × Buf))
read_metadata fs icb =
    if ltb (blocks_of icb.length) 1
    then done none
    else read_metadata_blocks fs (zeros (blocks_of icb.length * Ecma.block_size % 2 ^ 32)) icb

-- The loop of `udf_find_root_dir` from block `lba` on, up to `last`; `none` is -1. A buffer that
-- holds no File Set Descriptor is not used.
unfoldable pub find_root : UdfFs → LongAd → ℕ → ℕ → ℕ → Mem (Option LongAd)
find_root fs loc last zero lba = running
find_root fs loc last (suc fuel) lba = elim (leb lba last) [
  | false ↦ done none
  | true ↦ do
    found ←
        read_metadata_blocks fs (zeros Ecma.block_size)
          (record loc { lba = lba; length = Ecma.block_size })
    elim found [
      | none ↦ find_root fs loc last fuel ((lba + 1) % 2 ^ 32)
      | some r ↦
          let next = find_root fs loc last fuel ((lba + 1) % 2 ^ 32) in
          if r.0 == Ecma.tag_file_set_descriptor
          then (do root ← decode_file_set_descriptor r.1 0; done (some root))
          else if r.0 == Ecma.tag_terminating_descriptor
          then done none
          else next
    ]
]

-- The root directory's ICB; `none` is -1.
unfoldable pub udf_find_root_dir : UdfFs → ℕ → LongAd → Mem (Option LongAd)
udf_find_root_dir fs fuel fsd_loc =
    find_root fs fsd_loc
      ((fsd_loc.lba + (fsd_loc.length + 2 ^ 32 - 1) % 2 ^ 32 / Ecma.block_size) % 2 ^ 32) fuel
      fsd_loc.lba

-- a list without its last element, and that element
unfoldable pub last_ad : List LongAd → Option (List LongAd × LongAd)
last_ad [] = none
last_ad (ad ∷ list) = elim (last_ad list) [ none ↦ some ([], ad) | some r ↦ some (ad ∷ r.0, r.1) ]

-- ECMA_AD_EXTENT_AD
abbrev pub ad_extent_ad : ℕ
ad_extent_ad = 3

-- The descriptors of the allocation extent at `icb`, behind those in `list`; `none` is a break.
unfoldable pub read_allocation_extent :
    UdfFs → ℕ → List LongAd → LongAd → Mem (Option (List LongAd))
read_allocation_extent fs ad_type list icb = do
  found ← read_metadata fs icb
  elim found [
    | none ↦ done none
    | some r ↦
        if r.0 == Ecma.tag_allocation_extent_descriptor
        then decode_allocation_extent fs.heap r.1 0 icb.length icb.partition ad_type list
        else done none
  ]

-- The loop over allocation extents, with `fuel` rounds: the last descriptor is dropped, and those
-- that it points to take its place.
unfoldable pub follow_extents : UdfFs → ℕ → ℕ → List LongAd → Mem (List LongAd)
follow_extents fs zero ad_type list = running
follow_extents fs (suc fuel) ad_type list = elim (last_ad list) [
  | none ↦ done list
  | some r ↦ elim (r.1.extent_type == ad_extent_ad) [
    | false ↦ done list
    | true ↦ do
      more ← read_allocation_extent fs ad_type r.0 r.1
      elim more [ none ↦ done r.0 | some list' ↦ follow_extents fs fuel ad_type list' ]
  ]
]

unfoldable pub complete_entry : UdfFs → ℕ → Option FileEntry → Mem (Option FileEntry)
complete_entry fs fuel none = done none
complete_entry fs fuel (some fe) = elim fe.u [
  | inline content ↦ done (some fe)
  | ads list ↦ do
    list' ← follow_extents fs fuel fe.ad_type list
    done (some (record fe { u = ads list' }))
]

-- the switch on the tag
unfoldable pub entry_of : Option (ℕ × Buf) → ℕ → Mem (Option FileEntry)
entry_of none partition = done none
entry_of (some (tag, buf)) partition =
    if tag == Ecma.tag_file_entry
    then decode_file_entry buf 0 Ecma.block_size partition
    else if tag == Ecma.tag_extended_file_entry
    then decode_ext_file_entry buf 0 Ecma.block_size partition
    else done none

-- `none` is NULL
unfoldable pub udf_read_file_entry : UdfFs → ℕ → LongAd → Mem (Option FileEntry)
udf_read_file_entry fs fuel icb = do
  found ← read_metadata fs icb
  fe ← entry_of found icb.partition
  complete_entry fs fuel fe
