-- ===== src/Cs0/Strings.antt =====
-- `udf_cs0_to_mutf8` of src/udf_fs.c on whole strings.
use libudfread.Common.{
  ℕ, zero, suc, ◌+◌, ◌-◌, ◌*◌, ◌/◌, ◌≤◌, ◌≡◌, ◌≢◌, refl, arith, ltb, ◌==◌, if◌then◌else◌, List, [],
  ◌∷◌, ◌++◌, ==→eq, lt→ltb, All, length, Option, none, some, Bool-cases, inl, inr, sym, ap, ◌∙◌,
  ltb_false→le,
}
use libudfread.Common.Bits.{bit_or-shifted}
use mathlib.Core.List.{append_assoc, append-nil}
use libudfread.Memory.{Buf, Mem, done, Returns, ◌>>=◌}
use libudfread.Memory.Words.{
  u8_at, u8_at-lt, get_u8_lem, Returns-bind, Returns-result, Returns-weaken,
}
use libudfread.Cs0.{
  Out, emit, utf16lo_to_mutf8, utf16_to_mutf8, convert_8, convert_16, terminate, udf_cs0_to_mutf8,
}
use libudfread.Cs0.Convert.{HasRoom, IsStep, lo-IsStep, unit-IsStep}
use libudfread.Cs0.Spec.{unit_bytes, encode}

-- The code units of a CS0 string: bytes, or big-endian pairs of bytes.
unfoldable pub units_8 : Buf → ℕ → ℕ → List ℕ
units_8 cs0 i zero = []
units_8 cs0 i (suc n) = u8_at cs0 i ∷ units_8 cs0 (i + 1) n

unfoldable pub units_16 : Buf → ℕ → ℕ → List ℕ
units_16 cs0 i zero = []
units_16 cs0 i (suc n) = (u8_at cs0 (i + 1) + u8_at cs0 i * 256) ∷ units_16 cs0 (i + 2) n

-- Every unit has been encoded, and a byte is free for the final 0.
abbrev IsConverted : Out → List ℕ → Out → Type 0
IsConverted o units o' = (o'.written ≡ o.written ++ encode units) × HasRoom o' 0

abbrev pub NotLast : ℕ → Type 0
NotLast ch = ch ≢ 0x7ff

extend :
    (o o₁ o₂ : Out) (ch : ℕ) (units : List ℕ)
    → IsStep o (unit_bytes ch) o₁
    → IsConverted o₁ units o₂
    → IsConverted o (ch ∷ units) o₂
unfolding encode
extend o o₁ o₂ ch units step rest = (
  rest.0
      ∙ ap (λ l. l ++ encode units) step.0
      ∙ append_assoc o.written (unit_bytes ch) (encode units),
  rest.1,
)

convert_8_lem :
    (cs0 : Buf) (rounds i : ℕ) (o : Out)
    → i + rounds ≤ cs0.len
    → HasRoom o rounds
    → Returns (IsConverted o (units_8 cs0 i rounds)) (convert_8 cs0 i rounds o)
unfolding convert_8 units_8 encode
convert_8_lem cs0 zero i o h room = (sym (append-nil o.written), room)
convert_8_lem cs0 (suc rounds) i o h room = rw (get_u8_lem cs0 i (omega arith)) (
    Returns-bind _ (utf16lo_to_mutf8 o (u8_at cs0 i)) _
      (lo-IsStep o (u8_at cs0 i) (omega arith) (omega (arith, u8_at-lt cs0 i)))
      (λ o₁ step.
        Returns-weaken _ (convert_8 cs0 (i + 1) rounds o₁)
          (convert_8_lem cs0 rounds (i + 1) o₁ (omega arith) (omega (arith, step.1)))
          (λ o₂ rest. extend o o₁ o₂ (u8_at cs0 i) (units_8 cs0 (i + 1) rounds) step rest)))

convert_16_lem :
    (cs0 : Buf) (rounds i : ℕ) (o : Out)
    → i + 2 * rounds ≤ cs0.len
    → HasRoom o rounds
    → All NotLast (units_16 cs0 i rounds)
    → Returns (IsConverted o (units_16 cs0 i rounds)) (convert_16 cs0 i rounds o)
unfolding convert_16 units_16 encode
convert_16_lem cs0 zero i o h room ne = (sym (append-nil o.written), room)
convert_16_lem cs0 (suc rounds) i o h room ne =
    let hi = u8_at cs0 i in
    let lo = u8_at cs0 (i + 1) in
    rw (get_u8_lem cs0 (i + 1) (omega arith)) (
      rw (get_u8_lem cs0 i (omega arith)) (
        rw (bit_or-shifted 8 lo hi (u8_at-lt cs0 (i + 1))) (
          Returns-bind _ (utf16_to_mutf8 o (lo + hi * 256)) _
            (unit-IsStep o (lo + hi * 256) (omega arith)
              (omega (arith, u8_at-lt cs0 i, u8_at-lt cs0 (i + 1))) ne.0)
            (λ o₁ step.
              Returns-weaken _ (convert_16 cs0 (i + 2) rounds o₁)
                (convert_16_lem cs0 rounds (i + 2) o₁ (omega arith) (omega (arith, step.1)) ne.1)
                (λ o₂ rest.
                  extend o o₁ o₂ (lo + hi * 256) (units_16 cs0 (i + 2) rounds) step rest)))))

terminate_lem :
    (o o' : Out) (units : List ℕ)
    → o.written ≡ []
    → IsConverted o units o'
    → terminate o' ≡ done (some (encode units))
unfolding terminate emit
terminate_lem o o' units e (w, room) =
    rw (lt→ltb (length o'.written) o'.out_size (omega arith))
      (ap (λ l. done (some l)) (w ∙ ap (λ l. l ++ encode units) e))

finish :
    (o : Out) (units : List ℕ) (m : Mem Out)
    → o.written ≡ []
    → Returns (IsConverted o units) m
    → (m >>= λ o'. terminate o') ≡ done (some (encode units))
finish o units m e h =
    let (o', is_done, converted) = Returns-result m h in
    rw is_done (terminate_lem o o' units e converted)

-- What a CS0 string of `size` bytes stands for, as modified UTF-8: the first byte says how the
-- others are read, and any but 8 and 16 is an error.
unfoldable pub cs0_meaning : Buf → ℕ → Option (List ℕ)
cs0_meaning cs0 size =
    if ltb size 1
    then some []
    else if u8_at cs0 0 == 8
    then some (encode (units_8 cs0 1 (size - 1)))
    else if u8_at cs0 0 == 16
    then some (encode (units_16 cs0 1 ((size - 1) / 2)))
    else none

-- On any bytes `udf_cs0_to_mutf8` stays inside the string and inside its output buffer, and
-- returns the meaning of the string, if no 16-bit unit of it is U+07FF.
pub udf_cs0_to_mutf8_lem :
    (cs0 : Buf) (size : ℕ)
    → size ≤ cs0.len
    → (u8_at cs0 0 ≡ 16 → All NotLast (units_16 cs0 1 ((size - 1) / 2)))
    → udf_cs0_to_mutf8 cs0 size ≡ done (cs0_meaning cs0 size)
unfolding udf_cs0_to_mutf8 cs0_meaning
udf_cs0_to_mutf8_lem cs0 size h ne = elim (Bool-cases (ltb size 1)) [
  | inl empty ↦ rw empty
  | inr some_bytes ↦
      let pos : 1 ≤ size = ltb_false→le _ _ some_bytes in
      rw (some_bytes, get_u8_lem cs0 0 (omega arith))
        (elim (Bool-cases (u8_at cs0 0 == 8)) [
          | inl narrow ↦ rw narrow (
              finish (record { written = []; out_size = size }) _ _ refl
                (convert_8_lem cs0 (size - 1) 1 (record { written = []; out_size = size })
                  (omega arith) (omega arith)))
          | inr other ↦ elim (Bool-cases (u8_at cs0 0 == 16)) [
            | inl wide ↦
                rw (other, wide)
                  (finish (record { written = []; out_size = size }) _ _ refl
                    (convert_16_lem cs0 ((size - 1) / 2) 1
                      (record { written = []; out_size = size }) (omega arith) (omega arith)
                      (ne (==→eq _ _ wide))))
            | inr neither ↦ rw (other, neither)
          ]
        ])
]
