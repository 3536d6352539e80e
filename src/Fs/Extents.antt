-- ===== src/Fs/Extents.antt =====
-- File entries read by `udf_read_file_entry` of src/udf_fs.c, with their allocation extents.
use mathlib.Core.Path.{subst}
use libudfread.Common.{
  ℕ, zero, suc, ◌+◌, ◌-◌, ◌/◌, length, ◌^◌, ◌≤◌, ◌<◌, ◌≡◌, refl, sym, arith, ◌==◌, true, false,
  List, [], ◌∷◌, ◌++◌, All, Option, none, some, Bool-cases, inl, inr,
}
use libudfread.Memory.{Buf, ◌>>=◌, running, done, Returns, Safe}
use libudfread.Memory.Words.{
  u32_at, u32_at-lt, Returns-bind, Returns-weaken, Returns-Safe, Safe-bind,
}
use libudfread.Ecma.{LongAd}
use libudfread.FileEntry.{
  FileEntry, Content, ads, inline, decode_file_entry, decode_ext_file_entry, decode_sized_entry,
  decode_allocation_extent, ad_step,
}
use libudfread.FileEntry.Bounds.{IsAd}
use libudfread.FileEntry.Safety.{
  IsContent, IsEntry, IsModestList, decode_sized_entry-IsEntry, decode_allocation_extent-Extends,
}
use libudfread.Fs.{
  UdfFs, blocks_of, read_metadata, last_ad, read_allocation_extent, follow_extents, complete_entry,
  entry_of, udf_read_file_entry,
}
use libudfread.Fs.Metadata.{IsMetadata, read_metadata_lem}

All-append : (xs ys : List LongAd) → All IsAd xs → All IsAd ys → All IsAd (xs ++ ys)
All-append [] ys h k = k
All-append (x ∷ xs) ys h k = (h.0, All-append xs ys h.1 k)

-- descriptors in range, in an array shorter than 46 GiB
abbrev pub IsList : List LongAd → Type 0
IsList list = All IsAd list × IsModestList list

abbrev IsSplit : ℕ → Option (List LongAd × LongAd) → Type 0
IsSplit n none = Unit
IsSplit n (some (front, ad)) = All IsAd front × IsAd ad × (length front < n)

last_ad-IsSplit : (list : List LongAd) → All IsAd list → IsSplit (length list) (last_ad list)
unfolding last_ad
last_ad-IsSplit [] h = tt
last_ad-IsSplit (ad ∷ list) h = put_front (last_ad list) (last_ad-IsSplit list h.1)
  where
    put_front :
        (r : Option (List LongAd × LongAd))
        → IsSplit (length list) r
        → IsSplit
            (length (ad ∷ list))
            (elim r [ none ↦ some ([], ad) | some r' ↦ some (ad ∷ r'.0, r'.1) ])
    put_front none k = (tt, h.0, omega arith)
    put_front (some r') k = ((h.0, k.0), k.1, omega (arith, k.2))

-- The last descriptor of a list that ends with it.
last_ad_lem : (front : List LongAd) (ad : LongAd) → last_ad (front ++ (ad ∷ [])) ≡ some (front, ad)
unfolding last_ad
last_ad_lem [] ad = refl
last_ad_lem (x ∷ front) ad = rw (last_ad_lem front ad) refl

abbrev AllOrNone : Option (List LongAd) → Type 0
AllOrNone none = Unit
AllOrNone (some list) = IsList list

allocation_extent_safe :
    (fs : UdfFs) (ad_type : ℕ) (list : List LongAd) (icb : LongAd)
    → IsList list
    → IsAd icb
    → Returns AllOrNone (read_allocation_extent fs ad_type list icb)
unfolding read_allocation_extent
allocation_extent_safe fs ad_type list icb h in_range =
    Returns-bind _ (read_metadata fs icb) _ (read_metadata_lem fs icb (omega (arith, in_range.0)))
      (elim [
        | none ↦ λ k. tt
        | some (tag, buf) ↦ λ k. elim (Bool-cases (tag == 258)) [
          | inr other ↦ rw (other, Returns) tt
          | inl extent ↦ rw extent (
              Returns-weaken _
                (decode_allocation_extent fs.heap buf 0 icb.length icb.partition ad_type list)
                (decode_allocation_extent-Extends fs.heap buf 0 icb.length icb.partition ad_type
                  list (omega (arith, k.0, k.1)) (omega (arith, k.1)) (omega (arith, in_range.3))
                  (omega (arith, in_range.0)) h.1)
                (elim [
                  | none ↦ λ e. tt
                  | some out ↦ λ (more, e, ok, modest).
                      (subst (All IsAd) (sym e) (All-append list more h.0 ok.0), modest)
                ]))
        ]
      ])

follow_extents-Safe :
    (fs : UdfFs) (fuel ad_type : ℕ) (list : List LongAd)
    → IsList list
    → Safe IsList (follow_extents fs fuel ad_type list)
unfolding follow_extents
follow_extents-Safe fs zero ad_type list h = tt
follow_extents-Safe fs (suc fuel) ad_type list h =
    go (last_ad list) (last_ad-IsSplit list h.0) (follow_extents-Safe fs fuel ad_type)
  where
    go :
        (r : Option (List LongAd × LongAd))
        → IsSplit (length list) r
        → ((list' : List LongAd)
            → IsList list'
            → Safe IsList (follow_extents fs fuel ad_type list'))
        → Safe IsList (elim r [
          | none ↦ done list
          | some r' ↦ elim (r'.1.extent_type == 3) [
            | false ↦ done list
            | true ↦
                read_allocation_extent fs ad_type r'.0 r'.1
                >>= elim [ none ↦ done r'.0 | some list' ↦ follow_extents fs fuel ad_type list' ]
          ]
        ])
    go none k next = h
    go (some (front, icb)) k next =
        let fewer : IsModestList front = omega (arith, k.2, h.1) in
        elim (Bool-cases (icb.extent_type == 3)) [
          | inr data' ↦ rw (data', Safe) h
          | inl pointer ↦
              rw (pointer, Safe)
                (Safe-bind {P = AllOrNone} _ (read_allocation_extent fs ad_type front icb) _
                  (Returns-Safe AllOrNone (read_allocation_extent fs ad_type front icb)
                    (allocation_extent_safe fs ad_type front icb (k.0, fewer) k.1) (λ r l. l))
                  (elim [ none ↦ λ l. (k.0, fewer) | some list' ↦ λ l. next list' l ]))
        ]

-- The content of a file entry: descriptors that are all in range, or data.
abbrev pub IsData : ℕ → Content → Type 0
IsData ad_type (ads list) = (ad_type < 3) × All IsAd list × IsModestList list
IsData ad_type (inline content) = (ad_type ≡ 3) × (content.len < 2 ^ 32)

-- NULL, or an entry that is in range
abbrev pub IsFile : Option FileEntry → Type 0
IsFile none = Unit
IsFile (some fe) = (fe.length < 2 ^ 64) × (fe.file_type < 256) × IsData fe.ad_type fe.u

at_most_eighth : (l_ad ad_type : ℕ) → ad_type < 3 → l_ad / ad_step ad_type ≤ l_ad / 8
unfolding ad_step
at_most_eighth l_ad ad_type lt = ground arith

content-IsData :
    (l_ad ad_type : ℕ) (c : Content) → l_ad < 2 ^ 32 → IsContent ad_type l_ad c → IsData ad_type c
content-IsData l_ad ad_type (ads list) h k =
    (k.0, k.1, omega (arith, k.2, at_most_eighth l_ad ad_type k.0))
content-IsData l_ad ad_type (inline content) h k = (k.0, omega (arith, k.1))

entry-IsFile : (l_ad : ℕ) (fe : Option FileEntry) → l_ad < 2 ^ 32 → IsEntry l_ad fe → IsFile fe
entry-IsFile l_ad none h k = tt
entry-IsFile l_ad (some fe) h k = (k.0, k.1, content-IsData l_ad fe.ad_type fe.u h k.2)

sized_entry-IsFile :
    (base : ℕ) (buf : Buf) (partition : ℕ)
    → 176 ≤ base
    → base ≤ 2048
    → 2048 ≤ buf.len
    → partition < 2 ^ 16
    → Returns IsFile (decode_sized_entry base buf 0 2048 partition)
sized_entry-IsFile base buf partition lo hi len h =
    Returns-weaken _ (decode_sized_entry base buf 0 2048 partition)
      (decode_sized_entry-IsEntry base buf 0 2048 partition lo hi len h)
      (λ fe. entry-IsFile (u32_at buf (0 + (base - 4))) fe (u32_at-lt buf (0 + (base - 4))))

entry_of-IsFile :
    (fs : UdfFs) (icb : LongAd) (n partition : ℕ) (found : Option (ℕ × Buf))
    → IsMetadata fs icb n found
    → partition < 2 ^ 16
    → Returns IsFile (entry_of found partition)
unfolding entry_of decode_file_entry decode_ext_file_entry
entry_of-IsFile fs icb n partition none k h = tt
entry_of-IsFile fs icb n partition (some (tag, buf)) k h = elim (Bool-cases (tag == 261)) [
  | inl plain ↦
      rw plain (
        sized_entry-IsFile 176 buf partition (omega arith) (omega arith) (omega (arith, k.0, k.1))
          h)
  | inr other ↦ elim (Bool-cases (tag == 266)) [
    | inl extended ↦
        rw (other, extended)
          (sized_entry-IsFile 216 buf partition (omega arith) (omega arith)
            (omega (arith, k.0, k.1)) h)
    | inr neither ↦ rw (other, neither) tt
  ]
]

complete_content-Safe :
    (fs : UdfFs) (fuel : ℕ) (fe : FileEntry) (c : Content)
    → fe.length < 2 ^ 64
    → fe.file_type < 256
    → IsData fe.ad_type c
    → fe.u ≡ c
    → Safe IsFile (complete_entry fs fuel (some fe))
unfolding complete_entry
complete_content-Safe fs fuel fe (inline content) hl ht k e =
    rw (e, Safe) (hl, ht, subst (IsData fe.ad_type) (sym e) k)
complete_content-Safe fs fuel fe (ads list) hl ht k e =
    rw (e, Safe)
      (Safe-bind _ (follow_extents fs fuel fe.ad_type list) _
        (follow_extents-Safe fs fuel fe.ad_type list (k.1, k.2))
        (λ list' all. (hl, ht, (k.0, all.0, all.1))))

complete_entry-Safe :
    (fs : UdfFs) (fuel : ℕ) (fe : Option FileEntry)
    → IsFile fe
    → Safe IsFile (complete_entry fs fuel fe)
unfolding complete_entry
complete_entry-Safe fs fuel none k = tt
complete_entry-Safe fs fuel (some fe) k = complete_content-Safe fs fuel fe fe.u k.0 k.1 k.2 refl

-- `udf_read_file_entry` at any place, on any disc, stays inside its buffers; if it ends it returns
-- NULL or an entry with its lengths and all its descriptors in range, whose number has not wrapped
-- round. realloc gives no array of 46 GiB or more.
pub udf_read_file_entry-Safe :
    (fs : UdfFs) (fuel : ℕ) (icb : LongAd)
    → icb.length < 2 ^ 32
    → icb.partition < 2 ^ 16
    → Safe IsFile (udf_read_file_entry fs fuel icb)
unfolding udf_read_file_entry
udf_read_file_entry-Safe fs fuel icb hl hp =
    Safe-bind _ (read_metadata fs icb) _
      (Returns-Safe (IsMetadata fs icb (blocks_of icb.length)) (read_metadata fs icb)
        (read_metadata_lem fs icb hl) (λ r k. k))
      (λ found k.
        Safe-bind _ (entry_of found icb.partition) _
          (Returns-Safe IsFile (entry_of found icb.partition)
            (entry_of-IsFile fs icb (blocks_of icb.length) icb.partition found k hp) (λ r l. l))
          (λ fe l. complete_entry-Safe fs fuel fe l))

-- The code as it is: an allocation extent whose only descriptor points to this same extent keeps
-- the loop of `udf_read_file_entry` going for ever, however many rounds it is given.
pub follow_extents-running :
    (fs : UdfFs) (ad_type : ℕ) (front : List LongAd) (icb : LongAd)
    → icb.extent_type ≡ 3
    → read_allocation_extent fs ad_type front icb ≡ done (some (front ++ (icb ∷ [])))
    → (fuel : ℕ) → follow_extents fs fuel ad_type (front ++ (icb ∷ [])) ≡ running
unfolding follow_extents
follow_extents-running fs ad_type front icb e again zero = refl
follow_extents-running fs ad_type front icb e again (suc fuel) = ground (
  arith,
  last_ad_lem front icb,
  e,
  again,
  follow_extents-running fs ad_type front icb e again fuel,
)
