-- ===== src/File/Bytes.antt =====
-- The bytes of a file, and buffers that hold them, for the reads of src/udfread.c.
use libudfread.Common.{
  ℕ, ◌+◌, ◌-◌, ◌*◌, ◌/◌, ◌%◌, ◌≤◌, ◌<◌, ◌≡◌, ◌≢◌, ◌⊎◌, refl, arith, ◌==◌, if◌then◌else◌, List, [],
  ◌∷◌, ap, le→leb, leb→le, leb, ltb, ◌&&◌, ◌^◌, not, false, Bool-cases, inl, inr,
}
use libudfread.Memory.Words.{store_lem}
use libudfread.Memory.{Buf, Returns, store, copy_to}
use libudfread.Ecma.{LongAd}
use libudfread.File.{ad_blocks, extent_lba, file_lba}
use libudfread.File.Map.{Fits, file_lba-add}

-- Byte `x` of the file whose extents are `list`, on a disc that holds `image`. The extents follow
-- each other, each a whole number of blocks; one that is recorded and has an address holds the bytes
-- at this address of a partition that starts at block `base`, and any other holds zeros.
unfoldable pub file_byte : (ℕ → ℕ) → ℕ → List LongAd → ℕ → ℕ
file_byte image base [] x = 0
file_byte image base (ad ∷ list) x =
    let size = (ad.length + 2047) % 2 ^ 32 / 2048 * 2048 in
    let behind = file_byte image base list (x - size) in
    if leb size x
    then behind
    else if ad.extent_type == 0 && not (ad.lba == 0)
    then image ((base + ad.lba) * 2048 + x)
    else 0

-- The byte at `x` in a block that `_file_lba` maps.
abbrev mapped_byte : (ℕ → ℕ) → ℕ → ℕ → ℕ
mapped_byte image lba x = if lba == 0 then 0 else image (lba * 2048 + x % 2048)

-- The bytes are those of the blocks that `_file_lba` gives.
file_byte-mapped :
    (image : ℕ → ℕ) (base : ℕ) (list : List LongAd) (x : ℕ)
    → Fits base list
    → file_byte image base list x ≡ mapped_byte image (file_lba base list (x / 2048)).0 x
unfolding file_byte file_lba extent_lba ad_blocks
file_byte-mapped image base [] x fits = refl
file_byte-mapped image base (ad ∷ list) x fits = elim (Bool-cases (leb size x)) [
  | inl behind ↦
      let le = leb→le _ _ behind in
      let test : ltb (x / 2048) (ad_blocks ad) ≡ false = ground arith in
      let at : (x - size) / 2048 ≡ x / 2048 - ad_blocks ad = omega arith in
      let low : (x - size) % 2048 ≡ x % 2048 = omega arith in
      rw (behind, test, file_byte-mapped image base list (x - size) fits.1, at, low) refl
  | inr inside ↦ ground (arith, ap image)
]
  where
    size : ℕ
    size = (ad.length + 2047) % 2 ^ 32 / 2048 * 2048

pub file_byte_hole :
    (image : ℕ → ℕ) (base : ℕ) (list : List LongAd) (j k : ℕ)
    → Fits base list
    → (file_lba base list j).0 ≡ 0
    → k < 2048
    → file_byte image base list (j * 2048 + k) ≡ 0
file_byte_hole image base list j k fits e h =
    let at : (j * 2048 + k) / 2048 ≡ j = omega arith in
    rw (file_byte-mapped image base list (j * 2048 + k) fits, at, e) refl

-- `d` blocks behind a mapped block, in the same extent
pub file_byte_extent :
    (image : ℕ → ℕ) (base : ℕ) (list : List LongAd) (j lba n k : ℕ)
    → Fits base list
    → file_lba base list j ≡ (lba, n)
    → lba ≢ 0
    → k < n * 2048
    → file_byte image base list (j * 2048 + k) ≡ image (lba * 2048 + k)
file_byte_extent image base list j lba n k fits e ne h =
    let at : (j * 2048 + k) / 2048 ≡ j + k / 2048 = omega arith in
    rw
      (
        file_byte-mapped image base list (j * 2048 + k) fits,
        at,
        file_lba-add base list j (k / 2048) lba n fits e ne (omega arith),
      )
      (ground (arith, ap image off))
  where
    off : (lba + k / 2048) * 2048 + (j * 2048 + k) % 2048 ≡ lba * 2048 + k
    off = omega arith

module _ (image : ℕ → ℕ) (base : ℕ) (list : List LongAd) where
  -- The first `n` bytes at `buf + q` are those of the file from byte `start` on, and outside
  -- `room` bytes there the buffer is what it was.
  pub record Holds (old buf : Buf) (q start n room : ℕ) : Type 0 where
    pub size : buf.len ≡ old.len
    pub bytes : (k : ℕ) → k < n → buf.at (q + k) ≡ file_byte image base list (start + k)
    pub rest : (x : ℕ) → (x < q) ⊎ (q + room ≤ x) → buf.at x ≡ old.at x

  -- Storing the file's next bytes extends what a buffer holds.
  pub store-Holds :
      (old buf : Buf) (q start n more kept room : ℕ) (src : ℕ → ℕ)
      → Holds old buf q start n room
      → n + more ≤ room
      → kept ≤ more
      → q + room ≤ old.len
      → ((k : ℕ) → k < kept → src k ≡ file_byte image base list (start + n + k))
      → Returns (λ buf'. Holds old buf' q start (n + kept) room) (store buf (q + n) more src)
  unfolding store
  store-Holds old buf q start n more kept room src held fits le inside same =
      rw (store_lem buf (q + n) more src (omega arith)) (record {
        size = held.size;
        bytes = λ k h. ground (arith, held.bytes k, same (k - n));
        rest = λ x h. ground (arith, held.rest x h, h);
      })

  pub Holds-start : (buf : Buf) (q start room : ℕ) → Holds buf buf q start 0 room
  Holds-start buf q start room = record {
    size = refl;
    bytes = λ k h. absurd (omega arith);
    rest = λ x h. refl;
  }

  pub copy_to-Holds :
      (buf : Buf) (q : ℕ) (src : Buf) (off n start room : ℕ)
      → off + n ≤ src.len
      → n ≤ room
      → q + room ≤ buf.len
      → ((k : ℕ) → k < n → src.at (off + k) ≡ file_byte image base list (start + k))
      → Returns (λ buf'. Holds buf buf' q start n room) (copy_to buf q src off n)
  unfolding copy_to
  copy_to-Holds buf q src off n start room fits le inside same =
      rw (le→leb _ _ fits, store_lem buf q n (λ i. src.at (off + i)) (omega arith))
        (record {
          size = refl;
          bytes = λ k h. ground (arith, same k);
          rest = λ x h. ground (arith, h);
        })

  -- What is stored behind the first `n` bytes adds to them.
  pub Holds-trans :
      (old mid buf : Buf) (q start n : ℕ) {at : ℕ} (more room : ℕ)
      → Holds old mid q start n room
      → Holds mid buf at (start + n) more (room - n)
      → at ≡ q + n
      → n ≤ room
      → Holds old buf q start (n + more) room
  Holds-trans old mid buf q start n more room first then' e le = record {
    size = omega (arith, first.size, then'.size);
    bytes = λ k h. ground (arith, first.bytes k, then'.rest (q + k), then'.bytes (k - n));
    rest = λ x h. ground (arith, first.rest x, then'.rest x, h);
  }

  pub Holds-weaken :
      (old buf : Buf) (q : ℕ) {start n room : ℕ} (start' n' room' : ℕ)
      → Holds old buf q start n room
      → start ≡ start'
      → n' ≤ n
      → room ≤ room'
      → Holds old buf q start' n' room'
  Holds-weaken old buf q start' n' room' held same less more = record {
    size = held.size;
    bytes = λ k h. ground (arith, held.bytes k);
    rest = λ x h. ground (arith, held.rest x, h);
  }
