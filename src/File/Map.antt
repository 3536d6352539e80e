-- ===== src/File/Map.antt =====
-- `_file_lba` of src/udfread.c: which block of the disc a block of the file is.
use libudfread.Common.{ℕ, ◌+◌, ◌-◌, ◌^◌, ◌≤◌, ◌<◌, ◌≡◌, ◌≢◌, refl, arith, List, [], ◌∷◌, ◌++◌, All}
use libudfread.Ecma.{LongAd}
use libudfread.File.{ad_blocks, extent_lba, file_lba}

-- the number of blocks in a list of extents
unfoldable pub total_blocks : List LongAd → ℕ
total_blocks [] = 0
total_blocks (ad ∷ list) = ad_blocks ad + total_blocks list

-- Block `j` of a file is looked up in the one extent that covers it, at its distance from the
-- start of that extent.
pub file_lba-append :
    (base : ℕ) (front back : List LongAd) (ad : LongAd) (j : ℕ)
    → j < ad_blocks ad
    → file_lba base (front ++ (ad ∷ back)) (total_blocks front + j) ≡ extent_lba base ad j
unfolding file_lba total_blocks
file_lba-append base [] back ad j h = ground arith
file_lba-append base (first ∷ front) back ad j h =
    ground (arith, file_lba-append base front back ad j)

-- Behind the last extent no block has an address.
pub file_lba_behind :
    (base : ℕ) (list : List LongAd) (j : ℕ) → total_blocks list ≤ j → file_lba base list j ≡ (0, 0)
unfolding file_lba total_blocks
file_lba_behind base [] j h = refl
file_lba_behind base (ad ∷ list) j h = ground (arith, file_lba_behind base list (j - ad_blocks ad))

-- The disc's addresses do not wrap round in any extent.
abbrev pub Fits : ℕ → List LongAd → Type 0
Fits base list = All (λ ad. base + ad.lba + ad_blocks ad ≤ 2 ^ 32) list

-- The blocks that follow a mapped one in its extent are mapped to the blocks that follow it.
pub file_lba-add :
    (base : ℕ) (list : List LongAd) (j d lba n : ℕ)
    → Fits base list
    → file_lba base list j ≡ (lba, n)
    → lba ≢ 0
    → d < n
    → file_lba base list (j + d) ≡ (lba + d, n - d)
unfolding file_lba extent_lba
file_lba-add base [] j d lba n fits e ne h = ground arith
file_lba-add base (ad ∷ list) j d lba n fits e ne h =
    ground (arith, file_lba-add base list (j - ad_blocks ad) d lba n fits.1)

-- A mapped block has itself and at most 2 ^ 21 - 1 blocks of its extent before it.
pub file_lba_extent :
    (base : ℕ) (list : List LongAd) (j lba n : ℕ)
    → file_lba base list j ≡ (lba, n)
    → lba ≢ 0
    → (0 < n) × (n < 2 ^ 21)
unfolding file_lba extent_lba ad_blocks
file_lba_extent base [] j lba n e ne = ground arith
file_lba_extent base (ad ∷ list) j lba n e ne =
    ground (arith, file_lba_extent base list (j - ad_blocks ad) lba n)
