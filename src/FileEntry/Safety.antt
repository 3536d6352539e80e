-- ===== src/FileEntry/Safety.antt =====
-- The file entry decoders of src/ecma167.c on any bytes: no access outside the buffer, and the
-- entry that they return is well formed.
use libudfread.Common.{
  ℕ, ◌+◌, ◌-◌, ◌*◌, ◌/◌, ◌^◌, ◌≤◌, ◌<◌, ◌≡◌, refl, arith, List, ◌++◌, All, length, Option, none,
  some, false, ltb, leb, ◌==◌, ◌||◌, not, [], sym, ==→eq, ◌%◌, Bool-cases, ltb→lt, ltb_false→le,
  inl, inr, true, dec_lt, length-append,
}
use mathlib.Core.List.{append-nil}
use libudfread.Memory.{Buf, Heap, Returns, memcpy}
use libudfread.Memory.Words.{
  u32_at, u64_at-lt, u8_at-lt, get_u8_lem, get_u16_lem, get_u32_lem, get_u64_lem, Returns-bind,
}
use libudfread.Ecma.{LongAd}
use libudfread.FileEntry.{
  Content, ads, inline, FileEntry, IcbTag, decode_icb_tag, ad_step, decode_file_ads, decode_content,
  make_entry, decode_entry, decode_sized_entry, extend_ads, decode_allocation_extent,
}
use libudfread.FileEntry.Bounds.{IsAd, IsAdList, decode_file_ads-IsAdList}

-- What `_decode_file_entry` makes of `l_ad` bytes: as many descriptors as fit, or all of the bytes.
abbrev pub IsContent : ℕ → ℕ → Content → Type 0
IsContent ad_type l_ad (ads list) =
    (ad_type < 3) × All IsAd list × (length list ≡ l_ad / ad_step ad_type)
IsContent ad_type l_ad (inline content) = (ad_type ≡ 3) × (content.len ≡ l_ad)

-- NULL, or an entry that is in range, with `l_ad` bytes of content
abbrev pub IsEntry : ℕ → Option FileEntry → Type 0
IsEntry l_ad none = Unit
IsEntry l_ad (some fe) =
    (fe.length < 2 ^ 64) × (fe.file_type < 256) × IsContent fe.ad_type l_ad fe.u

abbrev IsContent? : ℕ → ℕ → Option Content → Type 0
IsContent? ad_type l_ad none = Unit
IsContent? ad_type l_ad (some u) = IsContent ad_type l_ad u

ads_fit : (l_ad ad_type : ℕ) → ad_type < 3 → l_ad / ad_step ad_type * ad_step ad_type ≤ l_ad
unfolding ad_step
ads_fit l_ad ad_type h = ground arith

decode_content-IsContent :
    (b : Buf) (p_ad l_ad ad_type partition : ℕ)
    → p_ad + l_ad ≤ b.len
    → partition < 2 ^ 16
    → Returns (IsContent? ad_type l_ad) (decode_content b p_ad l_ad ad_type partition)
unfolding decode_content memcpy
decode_content-IsContent b p_ad l_ad ad_type partition h hp = elim (Bool-cases (ltb ad_type 3)) [
  | inl is_ads ↦
      let lt : ad_type < 3 = ltb→lt _ _ is_ads in
      rw is_ads (
        Returns-bind _ (decode_file_ads b p_ad ad_type partition (l_ad / ad_step ad_type)) _
          (decode_file_ads-IsAdList b (l_ad / ad_step ad_type) p_ad ad_type partition lt
            (omega (arith, ads_fit l_ad ad_type lt)) hp)
          (λ list r. (lt, r.0, r.1)))
  | inr other ↦ rw other (ground arith)
]

make_entry-IsEntry :
    (b : Buf) (p l_ad : ℕ) (tag : IcbTag) (u : Option Content)
    → p + 64 ≤ b.len
    → tag.file_type < 256
    → IsContent? (tag.flags % 8) l_ad u
    → Returns (IsEntry l_ad) (make_entry b p tag u)
unfolding make_entry
make_entry-IsEntry b p l_ad tag none h ht hu = tt
make_entry-IsEntry b p l_ad tag (some u) h ht hu =
    rw (get_u64_lem b (p + 56) (omega arith)) (u64_at-lt b (p + 56), ht, hu)

abbrev IsTag : IcbTag → Type 0
IsTag tag = tag.file_type < 256

icb-IsTag : (b : Buf) (p : ℕ) → p + 20 ≤ b.len → Returns IsTag (decode_icb_tag b p)
unfolding decode_icb_tag
icb-IsTag b p h = ground (
  arith,
  get_u16_lem b (p + 4),
  get_u8_lem b (p + 11),
  get_u16_lem b (p + 18),
  u8_at-lt b (p + 11),
)

decode_entry-IsEntry :
    (b : Buf) (p size partition l_ad p_ad : ℕ)
    → p + size ≤ b.len
    → 176 ≤ p_ad
    → p_ad + l_ad < 2 ^ 32
    → partition < 2 ^ 16
    → Returns (IsEntry l_ad) (decode_entry b p size partition l_ad p_ad)
unfolding decode_entry
decode_entry-IsEntry b p size partition l_ad p_ad h hb fits hp =
    elim (Bool-cases (ltb size ((p_ad + l_ad) % 2 ^ 32))) [
      | inl short ↦ rw short tt
      | inr room ↦
          let le : p_ad + l_ad ≤ size = omega (arith, ltb_false→le _ _ room) in
          rw room (
            Returns-bind _ (decode_icb_tag b (p + 16)) _ (icb-IsTag b (p + 16) (omega arith))
              (λ tag ht. elim (Bool-cases (tag.strategy_type == 4)) [
                | inl four ↦ rw four (
                    Returns-bind _ (decode_content b (p + p_ad) l_ad (tag.flags % 8) partition) _
                      (decode_content-IsContent b (p + p_ad) l_ad (tag.flags % 8) partition
                        (omega arith) hp)
                      (λ u hu. make_entry-IsEntry b p l_ad tag u (omega arith) ht hu))
                | inr other ↦ rw other tt
              ]))
    ]

-- On any bytes the file entry decoders stay inside the `size` bytes at `p`, and return NULL or an
-- entry with its lengths in range: the descriptors that fill the recorded area, or its data.
pub decode_sized_entry-IsEntry :
    (base : ℕ) (b : Buf) (p size partition : ℕ)
    → 176 ≤ base
    → base ≤ size
    → p + size ≤ b.len
    → partition < 2 ^ 16
    → Returns (IsEntry (u32_at b (p + (base - 4)))) (decode_sized_entry base b p size partition)
unfolding decode_sized_entry
decode_sized_entry-IsEntry base b p size partition lo hi h hp =
    rw (get_u32_lem b (p + (base - 8)) (omega arith)) (
      rw (get_u32_lem b (p + (base - 4)) (omega arith))
        (elim (Bool-cases (leb (2 ^ 32) (l_ea + l_ad + base))) [
          | inl big ↦ rw big tt
          | inr fits ↦ rw fits (
              decode_entry-IsEntry b p size partition l_ad (base + l_ea) h (omega arith)
                (ground arith) hp)
        ]))
  where
    l_ea : ℕ
    l_ea = u32_at b (p + (base - 8))

    l_ad : ℕ
    l_ad = u32_at b (p + (base - 4))

extent_guard :
    (size l_ad ad_type : ℕ)
    → (ltb size 24 || ltb (size - 24) l_ad || not (ltb ad_type 3)) ≡ false
    → (24 + l_ad ≤ size) × (ad_type < 3)
extent_guard size l_ad ad_type h = ground arith

-- a number of descriptors whose array is shorter than 46 GiB
abbrev pub IsModestList : List LongAd → Type 0
IsModestList list = 32 + 12 * length list < 46 * 2 ^ 30

-- -1, or `n` further descriptors behind those of `list`
abbrev pub Extends : List LongAd → ℕ → Option (List LongAd) → Type 0
Extends list n none = Unit
Extends list n (some out) =
    (more : List LongAd) × (out ≡ list ++ more) × IsAdList n more × IsModestList out

-- An array that realloc gives is short.
gives-small : (heap : Heap) (n : ℕ) → heap.gives n ≡ true → n < 46 * 2 ^ 30
gives-small heap n e = elim (dec_lt n (46 * 2 ^ 30)) [
  | yes less ↦ less
  | no big ↦ absurd (let refused = heap.bounded n (omega arith) in cc)
]

extend_ads-Extends :
    (heap : Heap) (b : Buf) (p ad_type partition n : ℕ) (list : List LongAd)
    → ad_type < 3
    → p + n * ad_step ad_type ≤ b.len
    → partition < 2 ^ 16
    → IsModestList list
    → n < 2 ^ 27
    → Returns (Extends list n) (extend_ads heap b p ad_type partition n list)
unfolding extend_ads
extend_ads-Extends heap b p ad_type partition n list lt fits hp modest small =
    let no_wrap : (length list + n) % 2 ^ 32 ≡ length list + n = omega arith in
    let stays : ltb (length list + n) (length list + n) ≡ false = ground arith in
    rw no_wrap (elim (Bool-cases (heap.gives (32 + 12 * (length list + n)))) [
      | inr refused ↦ rw (refused, Returns) tt
      | inl given ↦
          rw (given, stays)
            (Returns-bind _ (decode_file_ads b p ad_type partition n) _
              (decode_file_ads-IsAdList b n p ad_type partition lt fits hp)
              (λ more r.
                let total = gives-small heap (32 + 12 * (length list + n)) given in
                (more, refl, r, omega (arith, total, length-append list more, r.1))))
    ])

step_at_least : (l_ad ad_type : ℕ) → ad_type < 3 → l_ad < 2 ^ 30 → l_ad / ad_step ad_type < 2 ^ 27
unfolding ad_step
step_at_least l_ad ad_type lt h = ground arith

-- `decode_allocation_extent` on any bytes reads nothing outside the buffer; it returns -1, or the
-- descriptors that it was given with as many new ones appended as the extent holds, all in range.
-- Their number does not wrap round, since realloc has given an array for them.
pub decode_allocation_extent-Extends :
    (heap : Heap) (b : Buf) (p size partition ad_type : ℕ) (list : List LongAd)
    → p + 24 ≤ b.len
    → p + size ≤ b.len
    → partition < 2 ^ 16
    → size < 2 ^ 30
    → IsModestList list
    → Returns
        (Extends list (u32_at b (p + 20) / ad_step ad_type))
        (decode_allocation_extent heap b p size partition ad_type list)
unfolding decode_allocation_extent
decode_allocation_extent-Extends heap b p size partition ad_type list h24 h hp bounded modest =
    rw (get_u32_lem b (p + 20) (omega arith))
      (elim (Bool-cases (ltb size 24 || ltb (size - 24) l_ad || not (ltb ad_type 3))) [
        | inl bad ↦ rw bad tt
        | inr good ↦
            let (fits, lt) = extent_guard size l_ad ad_type good in
            rw good (elim (Bool-cases (l_ad / ad_step ad_type == 0)) [
              | inl empty ↦
                  rw empty ([], sym (append-nil list), (tt, sym (==→eq _ _ empty)), modest)
              | inr some_ads ↦ rw some_ads (
                  extend_ads-Extends heap b (p + 24) ad_type partition (l_ad / ad_step ad_type) list
                    lt (omega (arith, ads_fit l_ad ad_type lt)) hp modest
                    (step_at_least l_ad ad_type lt (omega arith)))
            ])
      ])
  where
    l_ad : ℕ
    l_ad = u32_at b (p + 20)
