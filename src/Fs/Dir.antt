-- ===== src/Fs/Dir.antt =====
-- Directories: `_parse_dir_file`, `_read_dir_file` and `udf_read_dir` of src/udf_fs.c. realloc is
-- taken to succeed.
use libudfread.Common.{
  ℕ, zero, suc, ◌+◌, ◌-◌, ◌^◌, ltb, ◌==◌, bit_and, if◌then◌else◌, not, Bool, true, false, List, [],
  ◌∷◌, ◌++◌, length, Option, none, some,
}
use libudfread.Memory.{Buf, Mem, fault, running, done, ◌>>=◌, zeros}
use libudfread.Ecma
use libudfread.Ecma.{LongAd, FileIdentifier, decode_descriptor_tag, decode_file_identifier}
use libudfread.FileEntry.{Content, ads, inline, zero_ad}
use libudfread.Volume.{is_tag}
use libudfread.Cs0.{udf_cs0_to_mutf8}
use libudfread.Fs.{UdfFs, read_metadata, udf_read_file_entry}

-- struct udf_file_identifier; the name without its final 0
pub record DirEntry : Type 0 where
  pub filename : List ℕ
  pub icb : LongAd
  pub characteristic : ℕ

abbrev pub char_flag_parent : ℕ
char_flag_parent = 8

-- `!filename[0]`
unfoldable pub is_empty_name : List ℕ → Bool
is_empty_name [] = true
is_empty_name (x ∷ rest) = x == 0

-- What a converted name adds to the entries.
unfoldable pub add_named : FileIdentifier → List DirEntry → Option (List ℕ) → List DirEntry
add_named fid dir none = dir
add_named fid dir (some s) =
    if is_empty_name s
    then dir
    else dir ++ (record { filename = s; icb = fid.icb; characteristic = fid.characteristic } ∷ [])

-- What an identifier adds to the entries: nothing for the parent, and for names that are empty or
-- cannot be converted.
unfoldable pub add_entry : FileIdentifier → List DirEntry → Mem (List DirEntry)
add_entry fid dir =
    if not (bit_and fid.characteristic char_flag_parent == 0)
    then done dir
    else if ltb fid.filename_len 1
    then done dir
    else do name ← udf_cs0_to_mutf8 fid.filename fid.filename_len; done (add_named fid dir name)

-- What a round of the loop does: it fails, leaves the loop, or goes on `used` bytes further.
pub data DirStep : Type 0 where
  wrong : DirStep
  over : DirStep
  onward : ℕ → FileIdentifier → List DirEntry → DirStep

-- an identifier of which `used` bytes were decoded
unfoldable pub take_identifier : ℕ → FileIdentifier → List DirEntry → Mem DirStep
take_identifier used fid dir =
    if used == 0 then done over else do dir' ← add_entry fid dir; done (onward used fid dir')

unfoldable pub dir_step : Buf → ℕ → ℕ → FileIdentifier → List DirEntry → Mem DirStep
dir_step data' p end fid dir = if length dir == 2 ^ 32 - 1 then done over else do
  tag ← decode_descriptor_tag data' p
  if is_tag tag Ecma.tag_file_identifier_descriptor
      then (do
        (used, fid') ← decode_file_identifier data' p (end - p) fid
        take_identifier used fid' dir)
      else done wrong

-- `while (p < end - 16)` with `fuel` rounds; the first component is whether 0 is returned. The data
-- lie in an object that ends at `room`: a pointer behind its end is undefined.
unfoldable pub parse_loop :
    Buf → ℕ → ℕ → ℕ → ℕ → FileIdentifier → List DirEntry → Mem (Bool × List DirEntry)
parse_loop data' end room zero p fid dir = running
parse_loop data' end room (suc fuel) p fid dir = elim (ltb (p + 16) end) [
  | false ↦ done (true, dir)
  | true ↦ do
    step ← dir_step data' p end fid dir
    elim step [
      | wrong ↦ done (false, dir)
      | over ↦ done (true, dir)
      | onward used fid' dir' ↦
          let rest = parse_loop data' end room fuel (p + used) fid' dir' in
          if ltb room (p + used) then fault else rest
    ]
]

-- the local variable `fid`; its contents are not read before they are stored
abbrev pub blank_fid : FileIdentifier
blank_fid = record { icb = zero_ad; characteristic = 0; filename_len = 0; filename = zeros 256 }

-- `_parse_dir_file`. An identifier is 40 bytes long at least, so `n + 1` rounds are enough.
unfoldable pub parse_dir_file : Buf → ℕ → ℕ → List DirEntry → Mem (Bool × List DirEntry)
parse_dir_file data' room n dir =
    if ltb n 16 then done (true, dir) else parse_loop data' n room (n + 1) 0 blank_fid dir

unfoldable pub read_dir_file : UdfFs → LongAd → List DirEntry → Mem (Bool × List DirEntry)
read_dir_file fs loc dir = do
  found ← read_metadata fs loc
  elim found [ none ↦ done (false, dir) | some r ↦ parse_dir_file r.1 r.1.len loc.length dir ]

-- ECMA_FT_DIR
abbrev pub ft_dir : ℕ
ft_dir = 4

-- Behind inline data there are 16 more bytes of the allocated file entry.
unfoldable pub read_dir_content : UdfFs → Content → List DirEntry → Mem (Bool × List DirEntry)
read_dir_content fs (inline content) dir = parse_dir_file content (content.len + 16) content.len dir
read_dir_content fs (ads []) dir = done (false, dir)
read_dir_content fs (ads (ad ∷ rest)) dir = read_dir_file fs ad dir

-- `udf_read_dir`; the first component is whether 0 is returned.
unfoldable pub udf_read_dir : UdfFs → ℕ → LongAd → List DirEntry → Mem (Bool × List DirEntry)
udf_read_dir fs fuel icb dir = do
  found ← udf_read_file_entry fs fuel icb
  elim found [
    | none ↦ done (false, dir)
    | some fe ↦ if fe.file_type == ft_dir then read_dir_content fs fe.u dir else done (false, dir)
  ]
