-- ===== src/Ecma/Tag.antt =====
-- What `decode_descriptor_tag` of src/ecma167.c accepts, and which corruptions it detects.
use libudfread.Common.{
  ℕ, zero, suc, ◌+◌, ◌%◌, ◌≤◌, ◌<◌, ◌≡◌, ◌≢◌, ◌⊎◌, inl, inr, refl, dec_lt, ap, arith, ◌==◌,
  if◌then◌else◌, none, some,
}
use libudfread.Memory.{Buf, done}
use libudfread.Memory.Words.{u8_at, u16_at, u8_at-lt, get_u8_lem, get_u16_lem}
use libudfread.Ecma.{add_bytes, decode_descriptor_tag}

-- the sum of the `n` bytes from `p` on
unfoldable pub byte_sum : Buf → ℕ → ℕ → ℕ
byte_sum b p zero = 0
byte_sum b p (suc n) = u8_at b p + byte_sum b (p + 1) n

-- The tag checksum as ECMA 167 3/7.2.3 defines it: bytes 0 to 3 and 5 to 15, modulo 256.
unfoldable pub tag_checksum : Buf → ℕ → ℕ
tag_checksum b p = (byte_sum b p 4 + byte_sum b (p + 5) 11) % 256

add_bytes_lem :
    (b : Buf) (n p c : ℕ)
    → c < 256
    → p + n ≤ b.len
    → add_bytes b p n c ≡ done ((c + byte_sum b p n) % 256)
unfolding add_bytes byte_sum
add_bytes_lem b zero p c hc h = ground arith
add_bytes_lem b (suc n) p c hc h =
    ground (arith, get_u8_lem b p, add_bytes_lem b n (p + 1) ((c + u8_at b p) % 256))

-- Inside the buffer a tag is read with no fault: its identifier is returned exactly when the
-- stored checksum is the sum that ECMA 167 defines.
pub decode_descriptor_tag_lem :
    (b : Buf) (p : ℕ)
    → p + 16 ≤ b.len
    → decode_descriptor_tag b p
      ≡ done (if tag_checksum b p == u8_at b (p + 4) then some (u16_at b p) else none)
unfolding decode_descriptor_tag tag_checksum
decode_descriptor_tag_lem b p h =
    let head = byte_sum b p 4 % 256 in
    ground (
      arith,
      get_u16_lem b p,
      add_bytes_lem b 4 p 0,
      add_bytes_lem b 11 (p + 5) head,
      get_u8_lem b (p + 4),
    )

module _ (b c : Buf) (k : ℕ) (same : (j : ℕ) → j ≢ k → u8_at c j ≡ u8_at b j) where
  byte_sum_apart : (n p : ℕ) → (k < p) ⊎ (p + n ≤ k) → byte_sum c p n ≡ byte_sum b p n
  unfolding byte_sum
  byte_sum_apart zero p h = refl
  byte_sum_apart (suc n) p h =
      omega (arith, same p (omega arith), byte_sum_apart n (p + 1) (omega arith))

  byte_sum_change :
      (n p : ℕ) → p ≤ k → k < p + n → byte_sum c p n + u8_at b k ≡ byte_sum b p n + u8_at c k
  unfolding byte_sum
  byte_sum_change zero p lo hi = absurd (omega arith)
  byte_sum_change (suc n) p lo hi = elim (dec_lt p k) [
    | yes h ↦
        omega (arith, same p (omega arith), byte_sum_change n (p + 1) (omega arith) (omega arith))
    | no h ↦
        let e : p ≡ k = omega arith in
        rw e (omega (arith, byte_sum_apart n (k + 1) (inl (omega arith))))
  ]

  checksum_change :
      (p : ℕ)
      → p ≤ k
      → k < p + 16
      → u8_at c k ≢ u8_at b k
      → tag_checksum b p ≡ u8_at b (p + 4)
      → tag_checksum c p ≢ u8_at c (p + 4)
  unfolding tag_checksum
  checksum_change p lo hi diff e = elim (dec_lt k (p + 4)) [
    | yes h ↦ omega (
      arith,
      byte_sum_change 4 p lo h,
      byte_sum_apart 11 (p + 5) (inl (omega arith)),
      same (p + 4) (omega arith),
      u8_at-lt b k,
      u8_at-lt c k,
    )
    | no h ↦ elim (dec_lt (p + 4) k) [
      | yes g ↦ omega (
        arith,
        byte_sum_apart 4 p (inr (omega arith)),
        byte_sum_change 11 (p + 5) (omega arith) (omega arith),
        same (p + 4) (omega arith),
        u8_at-lt b k,
        u8_at-lt c k,
      )
      | no g ↦
          let at : p + 4 ≡ k = omega arith in
          omega (
            arith,
            byte_sum_apart 4 p (inr (omega arith)),
            byte_sum_apart 11 (p + 5) (inl (omega arith)),
            ap (u8_at c) at,
            ap (u8_at b) at,
          )
    ]
  ]

accepted_checksum :
    (b : Buf) (p id : ℕ)
    → p + 16 ≤ b.len
    → decode_descriptor_tag b p ≡ done (some id)
    → tag_checksum b p ≡ u8_at b (p + 4)
accepted_checksum b p id h e = ground (arith, decode_descriptor_tag_lem b p h)

-- A tag that is accepted is rejected once any one of its sixteen bytes is changed.
pub tag_detects_change :
    (b c : Buf) (p i id : ℕ)
    → p + 16 ≤ b.len
    → p + 16 ≤ c.len
    → i < 16
    → u8_at c (p + i) ≢ u8_at b (p + i)
    → ((j : ℕ) → j ≢ p + i → u8_at c j ≡ u8_at b j)
    → decode_descriptor_tag b p ≡ done (some id)
    → decode_descriptor_tag c p ≡ done none
tag_detects_change b c p i id hb hc hi diff same e =
    let ne : tag_checksum c p ≢ u8_at c (p + 4) =
      checksum_change b c (p + i) same p (omega arith) (omega arith) diff
        (accepted_checksum b p id hb e) in
    ground (arith, decode_descriptor_tag_lem c p hc, ne)
