-- ===== src/Fs/Metadata.antt =====
-- What `_read_metadata` of src/udf_fs.c delivers: blocks of the partition or of its mirror.
use mathlib.Core.Path.{subst}
use libudfread.Common.{
  ℕ, zero, suc, ◌+◌, ◌-◌, ◌*◌, ◌/◌, ◌%◌, ◌^◌, ◌≤◌, ◌<◌, ◌≡◌, ◌≢◌, ◌⊎◌, refl, sym, ◌∙◌, arith, ltb,
  leb, ◌==◌, ◌&&◌, if◌then◌else◌, Bool, true, Option, none, some, Bool-cases, Option-cases, inl,
  inr, ltb_false→le, ==_false→ne, dec_lt,
}
use libudfread.Memory.{Buf, done, Returns, zeros}
use libudfread.Memory.Words.{store_lem, Returns-bind, Returns-weaken, Returns-itself}
use libudfread.Ecma.{LongAd}
use libudfread.Input.{BlockInput}
use libudfread.Volume.{read_block, read_descriptor_block}
use libudfread.Volume.Search.{HasTag, read_descriptor_block-IsBlock}
use libudfread.Partition.{Part}
use libudfread.Fs.{
  UdfFs, partition_index, or_mirror, read_first, read_following, read_rest, with_rest,
  read_metadata_blocks, blocks_of, read_metadata,
}

module _ (input : BlockInput) (p : Part) where
  -- Block `x` of the partition is block `at` of the disc, or has a mirror there.
  abbrev IsPlace : ℕ → ℕ → Type 0
  IsPlace x at =
      (at ≡ (p.lba + x) % 2 ^ 32) ⊎ ((p.mirror_lba ≢ 0) × (at ≡ (p.mirror_lba + x) % 2 ^ 32))

  abbrev pub IsFirst : ℕ → Option ℕ × Buf → Type 0
  IsFirst x (none, block) = Unit
  IsFirst x (some tag, block) = (at : ℕ) × IsPlace x at × HasTag input at tag block

  descriptor_block_at :
      (at : ℕ)
      → Returns
          (λ r. (r.1.len ≡ 2048) × (read_descriptor_block input at ≡ done r))
          (read_descriptor_block input at)
  descriptor_block_at at =
      Returns-itself _ (read_descriptor_block input at) (read_descriptor_block-IsBlock input at)

  place-IsFirst :
      (x at : ℕ) (r : Option ℕ × Buf)
      → IsPlace x at
      → read_descriptor_block input at ≡ done r
      → IsFirst x r
  place-IsFirst x at (none, block) place e = tt
  place-IsFirst x at (some tag, block) place e = (at, place, e)

  or_mirror-IsFirst :
      (x : ℕ) (r : Option ℕ × Buf)
      → (r.1.len ≡ 2048) × (read_descriptor_block input ((p.lba + x) % 2 ^ 32) ≡ done r)
      → Returns (λ r'. (r'.1.len ≡ 2048) × IsFirst x r') (or_mirror input p x r)
  unfolding or_mirror
  or_mirror-IsFirst x (some tag, block) (len, e) = (len, ((p.lba + x) % 2 ^ 32, inl refl, e))
  or_mirror-IsFirst x (none, block) (len, e) = elim (Bool-cases (p.mirror_lba == 0)) [
    | inl alone ↦ rw (alone, Returns) (len, tt)
    | inr has_mirror ↦ rw has_mirror (
        Returns-weaken _ (read_descriptor_block input ((p.mirror_lba + x) % 2 ^ 32))
          (descriptor_block_at ((p.mirror_lba + x) % 2 ^ 32))
          (λ r h. (
            h.0,
            place-IsFirst x ((p.mirror_lba + x) % 2 ^ 32) r (inr (==_false→ne _ _ has_mirror, refl))
                h.1,
          )))
  ]

  read_first-IsFirst :
      (x : ℕ) → Returns (λ r. (r.1.len ≡ 2048) × IsFirst x r) (read_first input p x)
  unfolding read_first
  read_first-IsFirst x =
      Returns-bind _ (read_descriptor_block input ((p.lba + x) % 2 ^ 32)) _
        (descriptor_block_at ((p.lba + x) % 2 ^ 32)) (or_mirror-IsFirst x)

  -- The block at `i` of the buffer is block `x` of the partition, read without an error.
  abbrev pub IsCopy : ℕ → ℕ → Buf → Type 0
  IsCopy x i buf =
      (at : ℕ) × IsPlace x at
      × ((read_block input at).0 ≡ true)
      × ((k : ℕ) → k < 2048 → buf.at (i * 2048 + k) ≡ (read_block input at).1.at k)

  abbrev IsFollowing : ℕ → Bool × Buf → Type 0
  IsFollowing x r =
      r.0 ≡ true
      → (at : ℕ) × IsPlace x at × ((read_block input at).0 ≡ true) × (r.1 ≡ (read_block input at).1)

  read_following-IsFollowing : (x : ℕ) → IsFollowing x (read_following input p x)
  unfolding read_following
  read_following-IsFollowing x = elim (Bool-cases (read_block input ((p.lba + x) % 2 ^ 32)).0) [
    | inl got ↦ rw got (λ e. ((p.lba + x) % 2 ^ 32, inl refl, got, refl))
    | inr lost ↦ elim (Bool-cases (p.mirror_lba == 0)) [
      | inl alone ↦ rw (lost, alone) (λ e. cc)
      | inr has_mirror ↦
          rw (lost, has_mirror)
            (λ e. ((p.mirror_lba + x) % 2 ^ 32, inr (==_false→ne _ _ has_mirror, refl), e, refl))
    ]
  ]

  -- -1, or the buffer with the blocks `i` to `i + rounds - 1` filled and the ones before kept
  abbrev IsRest : ℕ → ℕ → ℕ → Buf → Option Buf → Type 0
  IsRest x rounds i buf none = Unit
  IsRest x rounds i buf (some buf') =
      (buf'.len ≡ buf.len)
      × ((y : ℕ) → y < i * 2048 → buf'.at y ≡ buf.at y)
      × ((j : ℕ) → i ≤ j → j < i + rounds → IsCopy (x + j) j buf')

  abbrev filled : ℕ → ℕ → Buf → Buf
  filled x i buf = record buf {
    at = λ y.
        if leb (i * 2048) y && ltb y (i * 2048 + 2048)
        then (read_following input p (x + i)).1.at (y - i * 2048)
        else buf.at y;
  }

  filled-IsCopy :
      (x i : ℕ) (buf buf' : Buf)
      → (read_following input p (x + i)).0 ≡ true
      → ((y : ℕ) → y < (i + 1) * 2048 → buf'.at y ≡ (filled x i buf).at y)
      → IsCopy (x + i) i buf'
  filled-IsCopy x i buf buf' got kept =
      let (at, place, ok, same) = read_following-IsFollowing (x + i) got in
      (at, place, ok, λ k h. rw (sym same) (ground (arith, kept (i * 2048 + k))))

  extend-IsRest :
      (x rounds i : ℕ) (buf : Buf) (r : Option Buf)
      → (read_following input p (x + i)).0 ≡ true
      → IsRest x rounds (i + 1) (filled x i buf) r
      → IsRest x (suc rounds) i buf r
  extend-IsRest x rounds i buf none got rest = tt
  extend-IsRest x rounds i buf (some buf') got (len, kept, copies) = (
    len,
    (λ y l. ground (arith, kept y)),
    λ j lo hi. elim (dec_lt i j) [
      | yes behind ↦ copies j (omega arith) (omega arith)
      | no here ↦
          let e : i ≡ j = omega arith in
          subst (λ j'. IsCopy (x + j') j' buf') e (filled-IsCopy x i buf buf' got kept)
    ],
  )

  read_rest-IsRest :
      (x rounds i : ℕ) (buf : Buf)
      → (i + rounds) * 2048 ≤ buf.len
      → Returns (IsRest x rounds i buf) (read_rest input p x rounds i buf)
  unfolding read_rest
  read_rest-IsRest x zero i buf h = (refl, (λ y l. refl), (λ j lo hi. absurd (omega arith)))
  read_rest-IsRest x (suc rounds) i buf h =
      rw (store_lem buf (i * 2048) 2048 (read_following input p (x + i)).1.at (omega arith))
        (elim (Bool-cases (read_following input p (x + i)).0) [
          | inr lost ↦ rw lost tt
          | inl got ↦ rw got (
              Returns-weaken _ (read_rest input p x rounds (i + 1) (filled x i buf))
                (read_rest-IsRest x rounds (i + 1) (filled x i buf) (omega arith))
                (λ r rest. extend-IsRest x rounds i buf r got rest))
        ])

-- -1, or a buffer that `blocks` blocks fill, all from the one partition or its mirror, the first of
-- them with a tag that is accepted
abbrev pub IsMetadata : UdfFs → LongAd → ℕ → Option (ℕ × Buf) → Type 0
IsMetadata fs loc n none = Unit
IsMetadata fs loc n (some (tag, buf)) =
    (1 ≤ n)
    × (buf.len ≡ n * 2048)
    × ((p : Part) × (partition_index fs.part loc.partition ≡ some p)
        × ((block : Buf) × IsFirst fs.input p loc.lba (some tag, block)
            × ((k : ℕ) → k < 2048 → buf.at k ≡ block.at k))
        × ((i : ℕ) → 1 ≤ i → i < n → IsCopy fs.input p (loc.lba + i) i buf))

with_rest-IsMetadata :
    (fs : UdfFs) (p : Part) (loc : LongAd) (n : ℕ) (tag : Option ℕ) (block buf : Buf)
    → partition_index fs.part loc.partition ≡ some p
    → IsFirst fs.input p loc.lba (tag, block)
    → buf.len ≡ n * 2048
    → 1 ≤ n
    → n ≡ 1 + (loc.length + 2 ^ 32 - 1) % 2 ^ 32 / 2048
    → ((k : ℕ) → k < 2048 → buf.at k ≡ block.at k)
    → Returns (IsMetadata fs loc n) (with_rest fs.input p loc tag buf)
unfolding with_rest
with_rest-IsMetadata fs p loc n none block buf found first len lo e same = tt
with_rest-IsMetadata fs p loc n (some tag) block buf found first len lo e same =
    Returns-bind _ (read_rest fs.input p loc.lba ((loc.length + 2 ^ 32 - 1) % 2 ^ 32 / 2048) 1 buf)
      _
      (read_rest-IsRest fs.input p loc.lba ((loc.length + 2 ^ 32 - 1) % 2 ^ 32 / 2048) 1 buf
        (omega arith))
      (elim [
        | none ↦ λ h. tt
        | some buf' ↦ λ (len', kept, copies). (
          lo,
          omega arith,
          (
            p,
            found,
            (block, first, λ k h. kept k (omega arith) ∙ same k h),
            λ i lo' hi. copies i lo' (omega arith),
          ),
        )
      ])

-- `_read_metadata_blocks` for a buffer that has room for the blocks of the extent.
pub read_metadata_blocks_lem :
    (fs : UdfFs) (buf : Buf) (loc : LongAd) (n : ℕ)
    → buf.len ≡ n * 2048
    → 1 ≤ n
    → n ≡ 1 + (loc.length + 2 ^ 32 - 1) % 2 ^ 32 / 2048
    → Returns (IsMetadata fs loc n) (read_metadata_blocks fs buf loc)
unfolding read_metadata_blocks
read_metadata_blocks_lem fs buf loc n len lo e =
    elim (Option-cases (partition_index fs.part loc.partition)) [
      | inl unknown ↦ rw (unknown, Returns) tt
      | inr (p, found) ↦
          rw (found, Returns)
            (Returns-bind _ (read_first fs.input p loc.lba) _
              (read_first-IsFirst fs.input p loc.lba)
              (λ r h. rw (store_lem buf 0 2048 r.1.at (omega arith)) (
                with_rest-IsMetadata fs p loc n r.0 r.1 _ found h.1 len lo e
                  (λ k l. ground arith))))
    ]

-- `_read_metadata` of any extent, on any disc, stays inside the buffer that it allocates. If it
-- does not fail the buffer holds every block of the extent, each as it was read from the extent's
-- partition or, where this has a mirror, from the mirror, and the first has a tag that is accepted.
pub read_metadata_lem :
    (fs : UdfFs) (icb : LongAd)
    → icb.length < 2 ^ 32
    → Returns (IsMetadata fs icb (blocks_of icb.length)) (read_metadata fs icb)
unfolding read_metadata
read_metadata_lem fs icb h = elim (Bool-cases (ltb (blocks_of icb.length) 1)) [
  | inl empty ↦ rw (empty, Returns) tt
  | inr some_blocks ↦ rw some_blocks (
      read_metadata_blocks_lem fs (zeros (blocks_of icb.length * 2048 % 2 ^ 32)) icb
        (blocks_of icb.length) (omega arith) (omega (arith, ltb_false→le _ _ some_blocks))
        (omega (arith, ltb_false→le _ _ some_blocks)))
]
