-- ===== src/Volume/Blocks.antt =====
-- What the blocks of a recognised volume have, as udf_probe_volume of src/udf_volume.c looks at them.
use mathlib.Core.Path.{subst}
use libudfread.Common.{
  ℕ, suc, ◌+◌, ◌≤◌, ◌<◌, ◌≡◌, ◌⊎◌, refl, arith, ◌==◌, ◌&&◌, ◌||◌, Bool, true, false, List, [], ◌∷◌,
  length, Bool-cases, inl, inr, dec_lt, ==→eq,
}
use libudfread.Memory.{Buf, done}
use libudfread.Memory.Words.{u8_at, get_u8_lem}
use libudfread.Input.{BlockInput}
use libudfread.Volume.{read_block, mem_eq, bea, nsr_02, nsr_03, tea, nul}

-- the text stands at `p`
unfoldable pub starts : Buf → ℕ → List ℕ → Bool
starts b p [] = true
starts b p (x ∷ text) = u8_at b p == x && starts b (p + 1) text

pub mem_eq_lem :
    (b : Buf) (p : ℕ) (text : List ℕ)
    → p + length text ≤ b.len
    → mem_eq b p text ≡ done (starts b p text)
unfolding mem_eq starts
mem_eq_lem b p [] h = refl
mem_eq_lem b p (x ∷ text) h =
    rw (get_u8_lem b p (omega arith), mem_eq_lem b (p + 1) text (omega arith)) refl

second : (b : Buf) (x y : ℕ) (text : List ℕ) → starts b 0 (x ∷ y ∷ text) ≡ true → u8_at b 1 ≡ y
unfolding starts
second b x y text e = ==→eq (u8_at b 1) y (ground arith)

module _ (input : BlockInput) where
  -- Block `lba` is read, and the text stands at its start.
  abbrev pub HasText : ℕ → List ℕ → Type 0
  HasText lba text =
      ((read_block input lba).0 ≡ true) × (starts (read_block input lba).1 0 text ≡ true)

  -- Block `lba`, if it is read, does not end the recognition.
  abbrev pub IsPassed : ℕ → Type 0
  IsPassed lba =
      (read_block input lba).0 ≡ true
      → (starts (read_block input lba).1 0 tea || starts (read_block input lba).1 0 nul) ≡ false

  -- One of `n` blocks from `lo` on is an NSR descriptor, a BEA descriptor has been seen there or
  -- stands at `lo` or behind it but no later, and no block in between ends the recognition.
  abbrev pub Recognised : ℕ → ℕ → Bool → Type 0
  Recognised lo n seen =
      (lba : ℕ) × (lo ≤ lba)
      × (lba < lo + n)
      × (HasText lba nsr_02 ⊎ HasText lba nsr_03)
      × ((seen ≡ true) ⊎ ((k : ℕ) × (lo ≤ k) × (k ≤ lba) × HasText k bea))
      × ((j : ℕ) → lo ≤ j → j < lba → IsPassed j)

  pub earlier :
      (lo n : ℕ) (seen seen' : Bool)
      → IsPassed lo
      → (seen' ≡ true → (seen ≡ true) ⊎ HasText lo bea)
      → Recognised (lo + 1) n seen'
      → Recognised lo (suc n) seen
  earlier lo n seen seen' passed from (lba, h₁, h₂, nsr, sight, between) = (
    lba,
    omega arith,
    omega arith,
    nsr,
    elim sight [
      | inl e ↦ elim (from e) [
        | inl e' ↦ inl e'
        | inr here ↦ inr (lo, omega arith, omega arith, here)
      ]
      | inr (k, l, u, has) ↦ inr (k, omega arith, u, has)
    ],
    λ j l u. elim (dec_lt lo j) [
      | yes behind ↦ between j (omega arith) u
      | no here ↦ let e : lo ≡ j = omega arith in subst IsPassed e passed
    ],
  )

  pub at_once :
      (lo n : ℕ) (seen : Bool)
      → (read_block input lo).0 ≡ true
      → (seen || starts (read_block input lo).1 0 bea) ≡ true
      → (starts (read_block input lo).1 0 nsr_02 || starts (read_block input lo).1 0 nsr_03) ≡ true
      → Recognised lo (suc n) seen
  at_once lo n seen got sight nsr = (
    lo,
    omega arith,
    omega arith,
    elim (Bool-cases (starts (read_block input lo).1 0 nsr_02)) [
      | inl two ↦ inl (got, two)
      | inr not_two ↦ inr (got, cc)
    ],
    elim (Bool-cases seen) [
      | inl e ↦ inl e
      | inr unseen ↦ inr (lo, omega arith, omega arith, (got, cc))
    ],
    λ j l u. absurd (omega arith),
  )

  abbrev pub HasNsr : ℕ → Type 0
  HasNsr lba = HasText lba nsr_02 ⊎ HasText lba nsr_03

  abbrev pub Sighted : ℕ → Bool → Type 0
  Sighted lo seen = (seen ≡ true) ⊎ HasText lo bea

  at_block : (i j : ℕ) → i ≡ j → HasNsr i → HasNsr j
  at_block i j e has = subst HasNsr e has

  -- Behind a block that does not end the search, the search goes on for the same descriptor.
  pub later :
      (lo n : ℕ) (seen seen' : Bool)
      → (Sighted lo seen → HasNsr lo → ⊥)
      → (Sighted lo seen → seen' ≡ true)
      → Recognised lo (suc n) seen
      → Recognised (lo + 1) n seen'
  later lo n seen seen' not_here keeps (lba, l, u, nsr, sight, between) = elim (dec_lt lo lba) [
    | yes behind ↦ (
      lba,
      omega arith,
      omega arith,
      nsr,
      elim sight [
        | inl e ↦ inl (keeps (inl e))
        | inr (k, l', u', has) ↦ elim (dec_lt lo k) [
          | yes after ↦ inr (k, omega arith, u', has)
          | no at ↦ inl (keeps (inr (subst (λ i. HasText i bea) (omega arith) has)))
        ]
      ],
      λ j l' u'. between j (omega arith) u',
    )
    | no at ↦ absurd (
        not_here
          (elim sight [
            | inl e ↦ inl e
            | inr (k, l', u', has) ↦ inr (subst (λ i. HasText i bea) (omega arith) has)
          ])
          (at_block lba lo (omega arith) nsr))
  ]

  -- An NSR descriptor does not end the area.
  HasNsr-IsPassed : (lba : ℕ) → HasNsr lba → IsPassed lba
  HasNsr-IsPassed lba nsr got =
      let b = (read_block input lba).1 in
      let letter : u8_at b 1 ≡ 78 = elim nsr [
        | inl (h, text) ↦ second b 0 78 _ text
        | inr (h, text) ↦ second b 0 78 _ text
      ] in
      elim (Bool-cases (starts b 0 tea)) [
        | inl e ↦ absurd (let other : u8_at b 1 ≡ 84 = second b 0 84 _ e in omega arith)
        | inr not_tea ↦ elim (Bool-cases (starts b 0 nul)) [
          | inl e ↦ absurd (let other : u8_at b 1 ≡ 0 = second b 0 0 _ e in omega arith)
          | inr not_nul ↦ rw (not_tea, not_nul) refl
        ]
      ]

  -- Behind a block that ends the area nothing is recognised.
  pub ended : (lo n : ℕ) (seen : Bool) → (IsPassed lo → ⊥) → Recognised lo n seen → ⊥
  ended lo n seen ends (lba, l, u, nsr, sight, between) = elim (dec_lt lo lba) [
    | yes behind ↦ ends (between lo (omega arith) behind)
    | no at ↦ ends (HasNsr-IsPassed lo (at_block lba lo (omega arith) nsr))
  ]
