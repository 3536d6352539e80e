-- ===== src/Cs0/Safety.antt =====
-- `udf_cs0_to_mutf8` of src/udf_fs.c returns for every string, those with U+07FF included.
use libudfread.Common.{
  ℕ, zero, suc, ◌+◌, ◌-◌, ◌*◌, ◌/◌, ◌^◌, ◌≤◌, ◌<◌, ◌≡◌, arith, ltb, ◌==◌, List, [], length, Option,
  lt→ltb, Bool-cases, inl, inr, ltb_false→le, ==→eq, ==_false→ne,
}
use libudfread.Common.Bits.{bit_or-shifted}
use libudfread.Memory.{Buf, Returns}
use libudfread.Memory.Words.{u8_at, u8_at-lt, get_u8_lem, Returns-bind, Returns-weaken}
use libudfread.Cs0.{
  Out, emit, utf16lo_to_mutf8, utf16_to_mutf8, convert_8, convert_16, terminate, udf_cs0_to_mutf8,
}
use libudfread.Cs0.Convert.{HasRoom, lo-IsStep, unit-IsStep}
use libudfread.Cs0.Roundtrip.{last_unit-IsStep}

-- A code unit takes one byte of the free space at most.
abbrev IsGrown : Out → Out → Type 0
IsGrown o o' = o'.out_size + length o.written + 1 ≡ o.out_size + length o'.written

unit_any :
    (o : Out) (ch : ℕ) → HasRoom o 0 → ch < 2 ^ 16 → Returns (IsGrown o) (utf16_to_mutf8 o ch)
unit_any o ch h hc = elim (Bool-cases (ch == 0x7ff)) [
  | inl last ↦
      let e : ch ≡ 0x7ff = ==→eq _ _ last in
      rw e
        (Returns-weaken _ (utf16_to_mutf8 o 0x7ff) (last_unit-IsStep o (omega arith)) (λ o' r. r.1))
  | inr other ↦
      Returns-weaken _ (utf16_to_mutf8 o ch) (unit-IsStep o ch h hc (==_false→ne _ _ other))
        (λ o' r. r.1)
]

convert_8_returns :
    (cs0 : Buf) (rounds i : ℕ) (o : Out)
    → i + rounds ≤ cs0.len
    → HasRoom o rounds
    → Returns (λ o'. HasRoom o' 0) (convert_8 cs0 i rounds o)
unfolding convert_8
convert_8_returns cs0 zero i o h room = room
convert_8_returns cs0 (suc rounds) i o h room = rw (get_u8_lem cs0 i (omega arith)) (
    Returns-bind _ (utf16lo_to_mutf8 o (u8_at cs0 i)) _
      (lo-IsStep o (u8_at cs0 i) (omega arith) (omega (arith, u8_at-lt cs0 i)))
      (λ o₁ step. convert_8_returns cs0 rounds (i + 1) o₁ (omega arith) (omega (arith, step.1))))

convert_16_returns :
    (cs0 : Buf) (rounds i : ℕ) (o : Out)
    → i + 2 * rounds ≤ cs0.len
    → HasRoom o rounds
    → Returns (λ o'. HasRoom o' 0) (convert_16 cs0 i rounds o)
unfolding convert_16
convert_16_returns cs0 zero i o h room = room
convert_16_returns cs0 (suc rounds) i o h room =
    let hi = u8_at cs0 i in
    let lo = u8_at cs0 (i + 1) in
    rw
      (
        get_u8_lem cs0 (i + 1) (omega arith),
        get_u8_lem cs0 i (omega arith),
        bit_or-shifted 8 lo hi (u8_at-lt cs0 (i + 1)),
      )
      (Returns-bind _ (utf16_to_mutf8 o (lo + hi * 256)) _
        (unit_any o (lo + hi * 256) (omega arith)
          (omega (arith, u8_at-lt cs0 i, u8_at-lt cs0 (i + 1))))
        (λ o₁ step. convert_16_returns cs0 rounds (i + 2) o₁ (omega arith) (omega (arith, step))))

terminate_returns :
    (o : Out) → HasRoom o 0 → Returns (λ (r : Option (List ℕ)). Unit {0}) (terminate o)
unfolding terminate emit
terminate_returns o h = rw (lt→ltb (length o.written) o.out_size (omega arith)) tt

pub udf_cs0_to_mutf8_returns :
    (cs0 : Buf) (size : ℕ)
    → size ≤ cs0.len
    → Returns (λ (r : Option (List ℕ)). Unit {0}) (udf_cs0_to_mutf8 cs0 size)
unfolding udf_cs0_to_mutf8
udf_cs0_to_mutf8_returns cs0 size h = elim (Bool-cases (ltb size 1)) [
  | inl empty ↦ rw empty tt
  | inr some_bytes ↦
      let pos : 1 ≤ size = ltb_false→le _ _ some_bytes in
      let start : Out = record { written = []; out_size = size } in
      rw (some_bytes, get_u8_lem cs0 0 (omega arith))
        (elim (Bool-cases (u8_at cs0 0 == 8)) [
          | inl narrow ↦ rw narrow (
              Returns-bind _ (convert_8 cs0 1 (size - 1) start) _
                (convert_8_returns cs0 (size - 1) 1 start (omega arith) (omega arith))
                terminate_returns)
          | inr other ↦ elim (Bool-cases (u8_at cs0 0 == 16)) [
            | inl wide ↦
                rw (other, wide)
                  (Returns-bind _ (convert_16 cs0 1 ((size - 1) / 2) start) _
                    (convert_16_returns cs0 ((size - 1) / 2) 1 start (omega arith) (omega arith))
                    terminate_returns)
            | inr neither ↦ rw (other, neither) tt
          ]
        ])
]
