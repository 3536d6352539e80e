-- ===== src/Fs/Listing.antt =====
-- What `udf_read_dir` of src/udf_fs.c lists, on any disc.
use mathlib.Core.List.{append_assoc, append-nil}
use libudfread.Common.{
  ℕ, zero, suc, ◌+◌, ◌-◌, ◌*◌, ◌/◌, ◌%◌, ◌^◌, ◌≤◌, ◌<◌, ◌≡◌, refl, sym, ap, ◌∙◌, arith, ltb, ◌==◌,
  bit_and, if◌then◌else◌, false, List, [], ◌∷◌, ◌++◌, length, All, Option, none, some, Bool-cases,
  inl, inr, ==→eq, eq→==, ne→==_false, ltb→lt,
}
use libudfread.Memory.{Buf, Returns, Safe}
use libudfread.Memory.Words.{u8_at, u16_at, Returns-bind, Returns-weaken, Returns-Safe, Safe-bind}
use libudfread.Ecma.{LongAd, FileIdentifier, decode_file_identifier}
use libudfread.Ecma.Tag.{tag_checksum, decode_descriptor_tag_lem}
use libudfread.FileEntry.{Content, ads, inline}
use libudfread.FileEntry.Bounds.{IsAd}
use libudfread.Volume.{is_tag}
use libudfread.Cs0.{udf_cs0_to_mutf8}
use libudfread.Cs0.Safety.{udf_cs0_to_mutf8_returns}
use libudfread.Fs.{UdfFs, read_metadata, udf_read_file_entry}
use libudfread.Fs.Metadata.{read_metadata_lem}
use libudfread.Fs.Extents.{IsData, udf_read_file_entry-Safe}
use libudfread.Fs.Identifier.{IsFid, IsDecoded, file_identifier-IsDecoded}
use libudfread.Fs.Dir.{
  DirEntry, is_empty_name, add_named, add_entry, DirStep, wrong, over, onward, take_identifier,
  dir_step, parse_loop, blank_fid, parse_dir_file, read_dir_file, read_dir_content, udf_read_dir,
}

-- An entry that is listed: it has a name, is not the parent, and its location is in range.
abbrev pub IsListed : DirEntry → Type 0
IsListed e = (is_empty_name e.filename ≡ false) × (bit_and e.characteristic 8 ≡ 0) × IsAd e.icb

-- entries behind those that were there
abbrev pub Appends : List DirEntry → List DirEntry → Type 0
Appends dir dir' = (more : List DirEntry) × (dir' ≡ dir ++ more) × All IsListed more

pub Appends-refl : (dir : List DirEntry) → Appends dir dir
Appends-refl dir = ([], sym (append-nil dir), tt)

pub All-append :
    (xs ys : List DirEntry) → All IsListed xs → All IsListed ys → All IsListed (xs ++ ys)
All-append [] ys h k = k
All-append (x ∷ xs) ys h k = (h.0, All-append xs ys h.1 k)

Appends-trans : (a b c : List DirEntry) → Appends a b → Appends b c → Appends a c
Appends-trans a b c (xs, e, hx) (ys, f, hy) =
    (xs ++ ys, f ∙ ap (λ l. l ++ ys) e ∙ append_assoc a xs ys, All-append xs ys hx hy)

add_named-Appends :
    (fid : FileIdentifier) (dir : List DirEntry) (name : Option (List ℕ))
    → bit_and fid.characteristic 8 ≡ 0
    → IsAd fid.icb
    → Appends dir (add_named fid dir name)
unfolding add_named
add_named-Appends fid dir none h k = Appends-refl dir
add_named-Appends fid dir (some s) h k = elim (Bool-cases (is_empty_name s)) [
  | inl empty ↦ rw empty (Appends-refl dir)
  | inr named ↦ rw named (
    record { filename = s; icb = fid.icb; characteristic = fid.characteristic } ∷ [],
    refl,
    ((named, h, k), tt),
  )
]

add_entry-Appends :
    (fid : FileIdentifier) (dir : List DirEntry)
    → IsFid fid
    → Returns (Appends dir) (add_entry fid dir)
unfolding add_entry
add_entry-Appends fid dir (len, n-lt, in_range) =
    elim (Bool-cases (bit_and fid.characteristic 8 == 0)) [
      | inr parent ↦ rw (parent, Returns) (Appends-refl dir)
      | inl child ↦ elim (Bool-cases (ltb fid.filename_len 1)) [
        | inl empty ↦ rw (child, empty, Returns) (Appends-refl dir)
        | inr named ↦
            rw (child, named)
              (Returns-bind _ (udf_cs0_to_mutf8 fid.filename fid.filename_len) _
                (udf_cs0_to_mutf8_returns fid.filename fid.filename_len (omega arith))
                (λ name u. add_named-Appends fid dir name (==→eq _ _ child) in_range))
      ]
    ]

abbrev IsDirStep : ℕ → List DirEntry → DirStep → Type 0
IsDirStep size dir wrong = Unit
IsDirStep size dir over = Unit
IsDirStep size dir (onward used fid dir') =
    (40 ≤ used) × (fid.filename.len ≡ 256) × (used % 4 ≡ 0) × (used ≤ size + 3) × Appends dir dir'

take-IsDirStep :
    (size used : ℕ) (fid : FileIdentifier) (dir : List DirEntry)
    → IsDecoded size (used, fid)
    → Returns (IsDirStep size dir) (take_identifier used fid dir)
unfolding take_identifier
take-IsDirStep size used fid dir (len, inl e) = rw (eq→== used 0 e, Returns) tt
take-IsDirStep size used fid dir (len, inr (lo, words, hi, ok)) =
    rw (ne→==_false used 0 (λ e. omega arith)) (
      Returns-bind _ (add_entry fid dir) _ (add_entry-Appends fid dir ok)
        (λ dir' more. (lo, len, words, hi, more)))

dir_step-IsDirStep :
    (b : Buf) (p end : ℕ) (fid : FileIdentifier) (dir : List DirEntry)
    → end ≤ b.len
    → p + 16 < end
    → fid.filename.len ≡ 256
    → Returns (IsDirStep (end - p) dir) (dir_step b p end fid dir)
unfolding dir_step
dir_step-IsDirStep b p end fid dir he hp hl = elim (Bool-cases (length dir == 2 ^ 32 - 1)) [
  | inl full ↦ rw (full, Returns) tt
  | inr room ↦
      rw (room, decode_descriptor_tag_lem b p (omega arith))
        (elim (Bool-cases
          (is_tag (if tag_checksum b p == u8_at b (p + 4) then some (u16_at b p) else none) 257)) [
            | inr other ↦ rw (other, Returns) tt
            | inl identifier ↦ rw identifier (
                Returns-bind _ (decode_file_identifier b p (end - p) fid) _
                  (file_identifier-IsDecoded b p (end - p) fid (omega arith) hl)
                  (λ r h. take-IsDirStep (end - p) r.0 r.1 dir h))
          ])
]

parse_loop-Appends :
    (b : Buf) (end room fuel p : ℕ) (fid : FileIdentifier) (dir : List DirEntry)
    → end ≤ b.len
    → (end + 3) / 4 * 4 ≤ room
    → p % 4 ≡ 0
    → 1 ≤ fuel
    → end < p + fuel
    → fid.filename.len ≡ 256
    → Returns (λ r. Appends dir r.1) (parse_loop b end room fuel p fid dir)
unfolding parse_loop
parse_loop-Appends b end room zero p fid dir he hr hp pos hf hl = omega arith
parse_loop-Appends b end room (suc fuel) p fid dir he hr hp pos hf hl =
    elim (Bool-cases (ltb (p + 16) end)) [
      | inr behind ↦ rw (behind, Returns) (Appends-refl dir)
      | inl more ↦
          rw (more, Returns)
            (Returns-bind _ (dir_step b p end fid dir) _
              (dir_step-IsDirStep b p end fid dir he (ltb→lt _ _ more) hl)
              (elim [
                | wrong ↦ λ h. Appends-refl dir
                | over ↦ λ h. Appends-refl dir
                | onward used fid' dir' ↦ λ (lo, len, words, hi, first).
                    let before = ltb→lt _ _ more in
                    let stays : ltb room (p + used) ≡ false = ground arith in
                    rw stays (
                      Returns-weaken _ (parse_loop b end room fuel (p + used) fid' dir')
                        (parse_loop-Appends b end room fuel (p + used) fid' dir' he hr (omega arith)
                          (omega arith) (omega arith) len)
                        (λ r rest. Appends-trans dir dir' r.1 first rest))
              ]))
    ]

-- `_parse_dir_file` of any data ends, reads nothing behind their end, lets no pointer go behind the
-- object that they lie in, and adds to the entries that
-- were there only ones that have a name, are not the parent and have a location in range.
pub parse_dir_file_lem :
    (b : Buf) (room n : ℕ) (dir : List DirEntry)
    → n ≤ b.len
    → (n + 3) / 4 * 4 ≤ room
    → Returns (λ r. Appends dir r.1) (parse_dir_file b room n dir)
unfolding parse_dir_file
parse_dir_file_lem b room n dir h hr = elim (Bool-cases (ltb n 16)) [
  | inl short ↦ rw (short, Returns) (Appends-refl dir)
  | inr long ↦ rw long (
      parse_loop-Appends b n room (n + 1) 0 blank_fid dir h hr refl (omega arith) (omega arith)
        refl)
]

read_dir_file-Appends :
    (fs : UdfFs) (loc : LongAd) (dir : List DirEntry)
    → loc.length < 2 ^ 32
    → Returns (λ r. Appends dir r.1) (read_dir_file fs loc dir)
unfolding read_dir_file
read_dir_file-Appends fs loc dir h =
    Returns-bind _ (read_metadata fs loc) _ (read_metadata_lem fs loc h) (elim [
      | none ↦ λ k. Appends-refl dir
      | some r ↦ λ k.
          parse_dir_file_lem r.1 r.1.len loc.length dir (omega (arith, k.0, k.1))
            (omega (arith, k.0, k.1))
    ])

read_dir_content-Appends :
    (fs : UdfFs) (ad_type : ℕ) (c : Content) (dir : List DirEntry)
    → IsData ad_type c
    → Returns (λ r. Appends dir r.1) (read_dir_content fs c dir)
unfolding read_dir_content
read_dir_content-Appends fs ad_type (inline content) dir k =
    parse_dir_file_lem content (content.len + 16) content.len dir (omega arith) (omega arith)
read_dir_content-Appends fs ad_type (ads []) dir k = Appends-refl dir
read_dir_content-Appends fs ad_type (ads (ad ∷ rest)) dir k =
    read_dir_file-Appends fs ad dir (omega (arith, k.1.0.0))

-- `udf_read_dir` at any place, on any disc, stays inside its buffers. If it ends, it has added to
-- the entries only ones that have a name, are not the parent and have a location in range. realloc
-- gives no array of 46 GiB or more.
pub udf_read_dir-Safe :
    (fs : UdfFs) (fuel : ℕ) (icb : LongAd) (dir : List DirEntry)
    → icb.length < 2 ^ 32
    → icb.partition < 2 ^ 16
    → Safe (λ r. Appends dir r.1) (udf_read_dir fs fuel icb dir)
unfolding udf_read_dir
udf_read_dir-Safe fs fuel icb dir hl hp =
    Safe-bind _ (udf_read_file_entry fs fuel icb) _ (udf_read_file_entry-Safe fs fuel icb hl hp)
      (elim [
        | none ↦ λ k. Appends-refl dir
        | some fe ↦ λ k. elim (Bool-cases (fe.file_type == 4)) [
          | inr other ↦ rw (other, Safe) (Appends-refl dir)
          | inl is_dir ↦ rw is_dir (
              Returns-Safe (λ r. Appends dir r.1) (read_dir_content fs fe.u dir)
                (read_dir_content-Appends fs fe.ad_type fe.u dir k.2) (λ r l. l))
        ]
      ])
