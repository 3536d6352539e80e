-- ===== src/FileEntry/Bounds.antt =====
-- The decoders of file entries in src/ecma167.c touch nothing outside their buffers, and what they
-- return is in range.
use libudfread.Common.{ℕ, zero, suc, ◌+◌, ◌*◌, ◌^◌, ◌≤◌, ◌<◌, ◌≡◌, refl, arith, List, All, length}
use libudfread.Memory.{Buf, Returns}
use libudfread.Memory.Words.{u16_at-lt, u32_at-lt, get_u16_lem, get_u32_lem, Returns-bind}
use libudfread.Ecma.{LongAd, decode_short_ad, decode_long_ad, decode_extended_ad}
use libudfread.FileEntry.{decode_ad, ad_step, decode_file_ads}

-- What every decoded descriptor satisfies: a 30-bit length, a two-bit type, 32-bit and 16-bit rest.
abbrev pub IsAd : LongAd → Type 0
IsAd ad = (ad.length < 2 ^ 30) × (ad.extent_type < 4) × (ad.lba < 2 ^ 32) × (ad.partition < 2 ^ 16)

short-IsAd :
    (b : Buf) (p partition : ℕ)
    → p + 8 ≤ b.len
    → partition < 2 ^ 16
    → Returns IsAd (decode_short_ad b p partition)
unfolding decode_short_ad
short-IsAd b p partition h hp =
    ground (arith, get_u32_lem b p, get_u32_lem b (p + 4), u32_at-lt b p, u32_at-lt b (p + 4))

pub long-IsAd : (b : Buf) (p : ℕ) → p + 16 ≤ b.len → Returns IsAd (decode_long_ad b p)
unfolding decode_long_ad
long-IsAd b p h = ground (
  arith,
  get_u32_lem b p,
  get_u32_lem b (p + 4),
  get_u16_lem b (p + 8),
  u32_at-lt b p,
  u32_at-lt b (p + 4),
  u16_at-lt b (p + 8),
)

extended-IsAd : (b : Buf) (p : ℕ) → p + 20 ≤ b.len → Returns IsAd (decode_extended_ad b p)
unfolding decode_extended_ad
extended-IsAd b p h = ground (
  arith,
  get_u32_lem b p,
  get_u32_lem b (p + 12),
  get_u16_lem b (p + 16),
  u32_at-lt b p,
  u32_at-lt b (p + 12),
  u16_at-lt b (p + 16),
)

decode_ad-IsAd :
    (b : Buf) (p ad_type partition : ℕ)
    → ad_type < 3
    → p + ad_step ad_type ≤ b.len
    → partition < 2 ^ 16
    → Returns IsAd (decode_ad b p ad_type partition)
unfolding decode_ad ad_step
decode_ad-IsAd b p ad_type partition ht h hp =
    ground (arith, short-IsAd b p partition, long-IsAd b p, extended-IsAd b p)

-- A list of `n` descriptors of one type, all in range.
abbrev pub IsAdList : ℕ → List LongAd → Type 0
IsAdList n list = All IsAd list × (length list ≡ n)

pub decode_file_ads-IsAdList :
    (b : Buf) (n p ad_type partition : ℕ)
    → ad_type < 3
    → p + n * ad_step ad_type ≤ b.len
    → partition < 2 ^ 16
    → Returns (IsAdList n) (decode_file_ads b p ad_type partition n)
unfolding decode_file_ads
decode_file_ads-IsAdList b zero p ad_type partition ht h hp = (tt, refl)
decode_file_ads-IsAdList b (suc n) p ad_type partition ht h hp =
    Returns-bind _ (decode_ad b p ad_type partition) _
      (decode_ad-IsAd b p ad_type partition ht (omega arith) hp)
      λ ad is_ad.
        Returns-bind _ (decode_file_ads b (p + ad_step ad_type) ad_type partition n) _
          (decode_file_ads-IsAdList b n (p + ad_step ad_type) ad_type partition ht (omega arith) hp)
          λ rest r. ((is_ad, r.0), omega (arith, r.1))
