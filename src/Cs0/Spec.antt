-- ===== src/Cs0/Spec.antt =====
-- Modified UTF-8 as the header src/udf_fs.h names it, and its decoder.
use libudfread.Common.{
  ℕ, zero, suc, ◌+◌, ◌/◌, ◌%◌, ◌<◌, ◌≡◌, refl, arith, ltb, ◌==◌, ◌&&◌, if◌then◌else◌, List, [], ◌∷◌,
  ◌++◌, bit_or, Bool, true,
}

-- The encoding of a 16-bit code unit: U+0000 takes two bytes.
unfoldable pub unit_bytes : ℕ → List ℕ
unit_bytes ch =
    if ch == 0
    then 0xc0 ∷ 0x80 ∷ []
    else if ltb ch 0x80
    then ch ∷ []
    else if ltb ch 0x800
    then (0xc0 + ch / 64) ∷ (0x80 + ch % 64) ∷ []
    else (0xe0 + ch / 4096) ∷ (0x80 + ch / 64 % 64) ∷ (0x80 + ch % 64) ∷ []

unfoldable pub encode : List ℕ → List ℕ
encode [] = []
encode (ch ∷ rest) = unit_bytes ch ++ encode rest

-- a table of bit operations, checked by evaluation
agree_below : ℕ → (ℕ → ℕ) → (ℕ → ℕ) → Bool
agree_below zero f g = true
agree_below (suc n) f g = (f n == g n) && agree_below n f g

agree_below_sound : (n : ℕ) (f g : ℕ → ℕ) (x : ℕ) → agree_below n f g ≡ true → x < n → f x ≡ g x
unfolding agree_below
agree_below_sound zero f g x e h = absurd (omega arith)
agree_below_sound (suc n) f g x e h = ground (arith, agree_below_sound n f g x)

pub lead_two : (x : ℕ) → x < 32 → bit_or 0xc0 x ≡ 0xc0 + x
unfolding agree_below
lead_two x h = agree_below_sound 32 (bit_or 0xc0) (λ y. 0xc0 + y) x refl h

pub lead_three : (x : ℕ) → x < 16 → bit_or 0xe0 x ≡ 0xe0 + x
unfolding agree_below
lead_three x h = agree_below_sound 16 (bit_or 0xe0) (λ y. 0xe0 + y) x refl h

pub trail : (x : ℕ) → x < 64 → bit_or 0x80 x ≡ 0x80 + x
unfolding agree_below
trail x h = agree_below_sound 64 (bit_or 0x80) (λ y. 0x80 + y) x refl h
