-- ===== src/FileEntry.antt =====
-- File entries of src/ecma167.c: ICB tags, lists of allocation descriptors, file entries, and the
-- allocation extents that continue them. malloc and calloc are taken to succeed.
pub mod Bounds
pub mod Safety
use libudfread.Common.{
  ℕ, zero, suc, ◌+◌, ◌-◌, ◌/◌, ◌%◌, ◌^◌, ltb, leb, ◌==◌, if◌then◌else◌, ◌||◌, not, List, [], ◌∷◌,
  ◌++◌, ◌*◌, length, Option, none, some,
}
use libudfread.Memory.{
  Buf, Heap, Mem, fault, done, ◌>>=◌, get_u8, get_u16, get_u32, get_u64, memcpy, zeros,
}
use libudfread.Ecma.{LongAd, decode_short_ad, decode_long_ad, decode_extended_ad}

pub record IcbTag : Type 0 where
  pub file_type : ℕ
  pub strategy_type : ℕ
  pub flags : ℕ

-- The union `u` of struct file_entry, told apart by `content_inline`: the allocation descriptors
-- (`num_ad` is their number), or the data (`information_length` is the buffer's size).
pub data Content : Type 0 where
  ads : List LongAd → Content
  inline : Buf → Content

pub record FileEntry : Type 0 where
  pub length : ℕ
  pub file_type : ℕ
  pub ad_type : ℕ
  pub u : Content

unfoldable pub decode_icb_tag : Buf → ℕ → Mem IcbTag
decode_icb_tag b p = do
  strategy_type ← get_u16 b (p + 4)
  file_type ← get_u8 b (p + 11)
  flags ← get_u16 b (p + 18)
  done (record { file_type = file_type; strategy_type = strategy_type; flags = flags })

abbrev pub zero_ad : LongAd
zero_ad = record { lba = 0; length = 0; partition = 0; extent_type = 0 }

-- One round of the loop in `_decode_file_ads`: the descriptor at `p`, and the step of `p`. The
-- switch has no default: another type leaves the (zeroed) element and `p` alone.
unfoldable pub decode_ad : Buf → ℕ → ℕ → ℕ → Mem LongAd
decode_ad b p ad_type partition =
    if ad_type == 0
    then decode_short_ad b p partition
    else if ad_type == 1
    then decode_long_ad b p
    else if ad_type == 2
    then decode_extended_ad b p
    else done zero_ad

unfoldable pub ad_step : ℕ → ℕ
ad_step ad_type =
    if ad_type == 0 then 8 else if ad_type == 1 then 16 else if ad_type == 2 then 20 else 0

-- `for (i = 0; i < num_ad; i++)`, by the rounds left
unfoldable pub decode_file_ads : Buf → ℕ → ℕ → ℕ → ℕ → Mem (List LongAd)
decode_file_ads b p ad_type partition zero = done []
decode_file_ads b p ad_type partition (suc rounds) = do
  ad ← decode_ad b p ad_type partition
  rest ← decode_file_ads b (p + ad_step ad_type) ad_type partition rounds
  done (ad ∷ rest)

-- The switch on the ICB flags: `l_ad` bytes of descriptors or of embedded data at `p_ad`.
unfoldable pub decode_content : Buf → ℕ → ℕ → ℕ → ℕ → Mem (Option Content)
decode_content b p_ad l_ad ad_type partition =
    if ltb ad_type 3
    then (do
      list ← decode_file_ads b p_ad ad_type partition (l_ad / ad_step ad_type)
      done (some (ads list)))
    else if ad_type == 3
    then (do content ← memcpy (zeros l_ad) b p_ad l_ad; done (some (inline content)))
    else done none

unfoldable pub make_entry : Buf → ℕ → IcbTag → Option Content → Mem (Option FileEntry)
make_entry b p tag none = done none
make_entry b p tag (some u) = do
  length ← get_u64 b (p + 56)
  done
      (some (record { length = length; file_type = tag.file_type; ad_type = tag.flags % 8; u = u }))

-- `_decode_file_entry`; `none` is NULL. `p_ad + l_ad` is a 32-bit sum.
unfoldable pub decode_entry : Buf → ℕ → ℕ → ℕ → ℕ → ℕ → Mem (Option FileEntry)
decode_entry b p size partition l_ad p_ad =
    if ltb size ((p_ad + l_ad) % 2 ^ 32) then done none else do
      tag ← decode_icb_tag b (p + 16)
      if not (tag.strategy_type == 4) then done none else do
        content ← decode_content b (p + p_ad) l_ad (tag.flags % 8) partition
        make_entry b p tag content

-- A file entry has its fixed part in `base` bytes: 176, or 216 if it is an extended one.
unfoldable pub decode_sized_entry : ℕ → Buf → ℕ → ℕ → ℕ → Mem (Option FileEntry)
decode_sized_entry base b p size partition = do
  l_ea ← get_u32 b (p + (base - 8))
  l_ad ← get_u32 b (p + (base - 4))
  if leb (2 ^ 32) (l_ea + l_ad + base)
      then done none
      else decode_entry b p size partition l_ad (base + l_ea)

unfoldable pub decode_file_entry : Buf → ℕ → ℕ → ℕ → Mem (Option FileEntry)
decode_file_entry = decode_sized_entry 176

unfoldable pub decode_ext_file_entry : Buf → ℕ → ℕ → ℕ → Mem (Option FileEntry)
decode_ext_file_entry = decode_sized_entry 216

-- `n` descriptors behind those of `list`; `none` is -1. The new `num_ad` is a uint32_t. Where it has
-- wrapped round, the array that realloc gives is too short for what is stored. A file entry has 32
-- bytes, and each descriptor 12.
unfoldable pub extend_ads : Heap → Buf → ℕ → ℕ → ℕ → ℕ → List LongAd → Mem (Option (List LongAd))
extend_ads heap b p ad_type partition n list =
    let num_ad = (length list + n) % 2 ^ 32 in
    if not (heap.gives (32 + 12 * num_ad))
    then done none
    else if ltb num_ad (length list + n)
    then fault
    else do more ← decode_file_ads b p ad_type partition n; done (some (list ++ more))

-- `decode_allocation_extent` on a file entry whose descriptors are `list`: the list that it
-- leaves, or `none` for -1.
unfoldable pub decode_allocation_extent :
    Heap → Buf → ℕ → ℕ → ℕ → ℕ → List LongAd → Mem (Option (List LongAd))
decode_allocation_extent heap b p size partition ad_type list = do
  l_ad ← get_u32 b (p + 20)
  if ltb size 24 || ltb (size - 24) l_ad || not (ltb ad_type 3)
      then done none
      else if l_ad / ad_step ad_type == 0
      then done (some list)
      else extend_ads heap b (p + 24) ad_type partition (l_ad / ad_step ad_type) list
