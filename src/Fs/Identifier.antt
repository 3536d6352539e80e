-- ===== src/Fs/Identifier.antt =====
-- File identifiers on any bytes: `decode_file_identifier` of src/ecma167.c for the directories of
-- src/udf_fs.c.
use libudfread.Common.{
  ℕ, ◌+◌, ◌%◌, ◌≤◌, ◌<◌, ◌≡◌, ◌⊎◌, refl, arith, ltb, ◌==◌, if◌then◌else◌, Bool-cases, inl, inr,
  ltb_false→le,
}
use libudfread.Memory.{Buf, done, Returns, memcpy, put_u8}
use libudfread.Memory.Words.{
  u8_at, u16_at, u8_at-lt, get_u8_lem, get_u16_lem, Returns-bind, Returns-weaken,
}
use libudfread.Ecma.{FileIdentifier, decode_long_ad, decode_file_identifier}
use libudfread.FileEntry.Bounds.{IsAd, long-IsAd}
use libudfread.Volume.Sizes.{memcpy-Keeps}

-- the array of 256 bytes, and after an identifier has been decoded its length and location
abbrev pub IsFid : FileIdentifier → Type 0
IsFid fid = (fid.filename.len ≡ 256) × (fid.filename_len < 256) × IsAd fid.icb

-- Not enough data, or an identifier of at least 40 bytes: whole words, the last of which may go
-- beyond the `size` bytes.
abbrev pub IsDecoded : ℕ → ℕ × FileIdentifier → Type 0
IsDecoded size r =
    (r.1.filename.len ≡ 256)
    × ((r.0 ≡ 0) ⊎ ((40 ≤ r.0) × (r.0 % 4 ≡ 0) × (r.0 ≤ size + 3) × IsFid r.1))

put_u8-len :
    (dst : Buf) (i v : ℕ) → i < dst.len → Returns (λ out. out.len ≡ dst.len) (put_u8 dst i v)
unfolding put_u8
put_u8-len dst i v h = ground arith

copy_name :
    (name b : Buf) (p n : ℕ)
    → name.len ≡ 256
    → n < 256
    → p + n ≤ b.len
    → Returns (λ out. out.len ≡ 256) (if n == 0 then done name else memcpy name b p n)
copy_name name b p n hl hn h = elim (Bool-cases (n == 0)) [
  | inl empty ↦ rw (empty, Returns) hl
  | inr some_bytes ↦ rw some_bytes (
      Returns-weaken _ (memcpy name b p n) (memcpy-Keeps name b p n h (omega arith))
        (λ out e. omega arith))
]

pub file_identifier-IsDecoded :
    (b : Buf) (p size : ℕ) (fid : FileIdentifier)
    → p + size ≤ b.len
    → fid.filename.len ≡ 256
    → Returns (IsDecoded size) (decode_file_identifier b p size fid)
unfolding decode_file_identifier
file_identifier-IsDecoded b p size fid h hl = elim (Bool-cases (ltb size 38)) [
  | inl short ↦ rw (short, Returns) (hl, inl refl)
  | inr long ↦
      let fits : 38 ≤ size = ltb_false→le _ _ long in
      rw (long, get_u8_lem b (p + 18) (omega arith), get_u8_lem b (p + 19) (omega arith))
        (Returns-bind _ (decode_long_ad b (p + 20)) _ (long-IsAd b (p + 20) (omega arith))
          (λ icb in_range.
            rw (get_u16_lem b (p + 36) (omega arith))
              (elim (Bool-cases (ltb size (38 + l_iu + n))) [
                | inl short ↦ rw (short, Returns) (hl, inl refl)
                | inr enough ↦
                    let room : 38 + l_iu + n ≤ size = ltb_false→le _ _ enough in
                    rw enough (
                      Returns-bind _
                        (if n == 0
                          then done fid.filename
                          else memcpy fid.filename b (p + 38 + l_iu) n)
                        _ (copy_name fid.filename b (p + 38 + l_iu) n hl n-lt (omega arith))
                        (λ copied hc.
                          Returns-bind _ (put_u8 copied n 0) _
                            (put_u8-len copied n 0 (omega (arith, n-lt)))
                            (λ ended he. (
                              omega arith,
                              inr (
                                omega arith,
                                omega arith,
                                omega arith,
                                (omega arith, n-lt, in_range),
                              ),
                            ))))
              ])))
]
  where
    n : ℕ
    n = u8_at b (p + 19)

    l_iu : ℕ
    l_iu = u16_at b (p + 36)

    n-lt : n < 256
    n-lt = u8_at-lt b (p + 19)
