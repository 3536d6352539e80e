-- ===== src/Volume/Recognition.antt =====
-- `udf_probe_volume` of src/udf_volume.c on any disc.
use libudfread.Common.{
  ℕ, zero, suc, ◌+◌, ◌≡◌, ◌⊎◌, refl, arith, ◌&&◌, ◌||◌, if◌then◌else◌, Bool, true, false,
  Bool-cases, inl, inr,
}
use libudfread.Memory.{Buf, done, Returns}
use libudfread.Memory.Words.{Returns-weaken}
use libudfread.Input.{BlockInput}
use libudfread.Volume.{
  read_block, bea, nsr_02, nsr_03, tea, nul, Probe, refused, recognised, search_on, probe_block,
  probe_loop, udf_probe_volume,
}
use libudfread.Volume.Blocks.{
  starts, mem_eq_lem, IsPassed, Recognised, HasNsr, Sighted, earlier, at_once, later, ended,
}

abbrev outcome : Buf → Bool → Probe
outcome b seen =
    if starts b 0 tea || starts b 0 nul
    then refused
    else if (seen || starts b 0 bea) && (starts b 0 nsr_02 || starts b 0 nsr_03)
    then recognised
    else search_on (seen || starts b 0 bea)

probe_block_lem :
    (b : Buf) (seen : Bool) → b.len ≡ 2048 → probe_block b seen ≡ done (outcome b seen)
unfolding probe_block
probe_block_lem b seen e =
    rw
      (
        mem_eq_lem b 0 tea (omega arith),
        mem_eq_lem b 0 nul (omega arith),
        mem_eq_lem b 0 bea (omega arith),
        mem_eq_lem b 0 nsr_02 (omega arith),
        mem_eq_lem b 0 nsr_03 (omega arith),
      )
      refl

module _ (input : BlockInput) where
  read_block_len : (lba : ℕ) → (read_block input lba).1.len ≡ 2048
  unfolding read_block
  read_block_len lba = refl

  -- The result is true exactly if the blocks are recognised.
  abbrev pub Decides : ℕ → ℕ → Bool → Bool → Type 0
  Decides lo n seen r =
      (r ≡ true → Recognised input lo n seen) × (Recognised input lo n seen → r ≡ true)

  probe_loop-Decides :
      (n lo : ℕ) (seen : Bool) → Returns (Decides lo n seen) (probe_loop input n lo seen)
  unfolding probe_loop
  probe_loop-Decides zero lo seen =
      (λ e. cc, λ (lba, l, u, nsr, sight, between). absurd (omega arith))
  probe_loop-Decides (suc n) lo seen = elim (Bool-cases (read_block input lo).0) [
    | inr lost ↦
        rw (lost, Returns)
          (Returns-weaken _ (probe_loop input n (lo + 1) seen) (probe_loop-Decides n (lo + 1) seen)
            (λ r (found, finds). (
              λ e. earlier input lo n seen seen (λ got. cc) inl (found e),
              λ p.
                  finds
                    (later input lo n seen seen (λ s nsr. unread lost nsr) (λ s. still lost s) p),
            )))
    | inl got ↦
        let b = (read_block input lo).1 in
        rw (got, probe_block_lem (read_block input lo).1 seen (read_block_len lo), Returns)
          (elim (Bool-cases (starts b 0 tea || starts b 0 nul)) [
            | inl end_of_area ↦
                rw (end_of_area, Returns)
                  (
                    λ e. cc,
                    λ p.
                        absurd
                          (ended input lo (suc n) seen (λ passed. ends got end_of_area passed) p),
                  )
            | inr passed ↦
                let sight = seen || starts b 0 bea in
                let nsr = starts b 0 nsr_02 || starts b 0 nsr_03 in
                elim (Bool-cases (sight && nsr)) [
                  | inl both ↦
                      rw (passed, both, Returns)
                        (
                          λ e.
                              at_once input lo n seen got (and_left sight nsr both)
                                (and_right sight nsr both),
                          λ p. refl,
                        )
                  | inr on ↦
                      rw (passed, on, Returns)
                        (Returns-weaken _ (probe_loop input n (lo + 1) sight)
                          (probe_loop-Decides n (lo + 1) sight)
                          (λ r (found, finds). (
                            λ e.
                                earlier input lo n seen sight (λ g. passed)
                                  (seen_or seen (starts b 0 bea) got) (found e),
                            λ p. finds (
                                later input lo n seen sight (λ s has. not_here on s has)
                                  (λ s. sighted s) p),
                          )))
                ]
          ])
  ]
    where
      unread : (read_block input lo).0 ≡ false → HasNsr input lo → ⊥
      unread lost (inl (got, text)) = cc
      unread lost (inr (got, text)) = cc

      still : (read_block input lo).0 ≡ false → Sighted input lo seen → seen ≡ true
      still lost (inl e) = e
      still lost (inr (got, text)) = absurd cc

      ends :
          (read_block input lo).0 ≡ true
          → (starts (read_block input lo).1 0 tea || starts (read_block input lo).1 0 nul) ≡ true
          → IsPassed input lo
          → ⊥
      ends got e passed = let other = passed got in cc

      sighted : Sighted input lo seen → (seen || starts (read_block input lo).1 0 bea) ≡ true
      sighted (inl e) = ground (arith, e)
      sighted (inr (got, text)) = ground (arith, text)

      some_nsr :
          HasNsr input lo
          → (starts (read_block input lo).1 0 nsr_02 || starts (read_block input lo).1 0 nsr_03)
            ≡ true
      some_nsr (inl (got, text)) = rw text refl
      some_nsr (inr (got, text)) = ground (arith, text)

      not_here :
          ((seen || starts (read_block input lo).1 0 bea)
              && (starts (read_block input lo).1 0 nsr_02
                  || starts (read_block input lo).1 0 nsr_03))
            ≡ false
          → Sighted input lo seen
          → HasNsr input lo
          → ⊥
      not_here on s nsr = let l = sighted s in let r = some_nsr nsr in ground (arith, on)

      and_left : (x y : Bool) → (x && y) ≡ true → x ≡ true
      and_left x y e = ground arith

      and_right : (x y : Bool) → (x && y) ≡ true → y ≡ true
      and_right x y e = ground arith

      seen_or :
          (x y : Bool)
          → (read_block input lo).0 ≡ true
          → (x || y) ≡ true
          → (x ≡ true) ⊎ (((read_block input lo).0 ≡ true) × (y ≡ true))
      seen_or true y g e = inl refl
      seen_or false y g e = inr (g, e)

-- `udf_probe_volume` on any disc ends and stays inside its buffer. It returns 0 exactly if one of
-- the blocks 16 to 255 is an NSR descriptor, a BEA descriptor stands there or in an earlier input one of
-- them, and none before it is a TEA descriptor or starts with seven zeros.
pub udf_probe_volume_lem :
    (input : BlockInput) → Returns (Decides input 16 240 false) (udf_probe_volume input)
unfolding udf_probe_volume
udf_probe_volume_lem input = probe_loop-Decides input 240 16 false
