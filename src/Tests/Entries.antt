-- ===== src/Tests/Entries.antt =====
-- Tags and file entries on small blocks.
use libudfread.Common.{◌+◌, ◌-◌, ◌≡◌, arith, ◌==◌, if◌then◌else◌, [], ◌∷◌, none, some}
use libudfread.Memory.{Buf, Returns, done, buf_of}
use libudfread.Memory.Words.{u8_at, u16_at, u32_at}
use libudfread.Ecma.{decode_descriptor_tag}
use libudfread.Ecma.Tag.{byte_sum, tag_checksum, decode_descriptor_tag_lem, tag_detects_change}
use libudfread.FileEntry.{decode_sized_entry}
use libudfread.FileEntry.Safety.{IsEntry, decode_sized_entry-IsEntry}

-- the tag of a file entry: 5 + 1 + 3 = 9
abbrev tag_bytes : Buf
tag_bytes = buf_of (5 ∷ 1 ∷ 3 ∷ 0 ∷ 9 ∷ 0 ∷ 0 ∷ 0 ∷ 0 ∷ 0 ∷ 0 ∷ 0 ∷ 0 ∷ 0 ∷ 0 ∷ 0 ∷ [])

-- with another version
abbrev changed : Buf
changed = record { len = 16; at = λ j. if j == 2 then 4 else tag_bytes.at j }

decode_descriptor_tag_lem_example : decode_descriptor_tag tag_bytes 0 ≡ done (some 261)
unfolding byte_sum tag_checksum u8_at u16_at
decode_descriptor_tag_lem_example = decode_descriptor_tag_lem tag_bytes 0 (omega arith)

tag_detects_change_example : decode_descriptor_tag changed 0 ≡ done none
unfolding u8_at
tag_detects_change_example =
    tag_detects_change tag_bytes changed 0 2 261 (omega arith) (omega arith) (omega arith)
      (λ e. omega arith) (λ j h. ground arith) decode_descriptor_tag_lem_example

-- a file entry with 16 bytes of short allocation descriptors behind 4 bytes of attributes
abbrev entry_block : Buf
entry_block = record {
  len = 2048;
  at = λ i. if i == 168 then 4 else if i == 172 then 16 else if i == 20 then 4 else 1;
}

decode_sized_entry-IsEntry_example :
    Returns
      (IsEntry (u32_at entry_block (0 + (176 - 4))))
      (decode_sized_entry 176 entry_block 0 2048 7)
decode_sized_entry-IsEntry_example =
    decode_sized_entry-IsEntry 176 entry_block 0 2048 7 (omega arith) (omega arith) (omega arith)
      (omega arith)

abbrev extent_block : Buf
extent_block = record { len = 2048; at = λ i. if i == 20 then 32 else 0 }
