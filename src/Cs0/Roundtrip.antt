-- ===== src/Cs0/Roundtrip.antt =====
-- The strings that `udf_cs0_to_mutf8` of src/udf_fs.c returns can be read back, and hold no 0.
use libudfread.Common.{
  ℕ, zero, suc, ◌+◌, ◌-◌, ◌*◌, ◌/◌, ◌^◌, ◌≤◌, ◌<◌, ◌≡◌, ◌≢◌, refl, arith, ltb, ◌==◌, if◌then◌else◌,
  List, [], ◌∷◌, ◌++◌, All, length, some, Bool-cases, inl, inr, ap, ◌∙◌,
}
use libudfread.Memory.{Buf, done, Returns}
use libudfread.Memory.Words.{u8_at, u8_at-lt, Returns-weaken}
use libudfread.Cs0.{Out, utf16_to_mutf8, udf_cs0_to_mutf8}
use libudfread.Cs0.Convert.{IsStep, emit_three}
use libudfread.Cs0.Strings.{NotLast, units_8, units_16, cs0_meaning, udf_cs0_to_mutf8_lem}
use libudfread.Cs0.Spec.{unit_bytes, encode}

-- Reads modified UTF-8 back: `pending` trail bytes are still to come, behind the bits `acc`.
pub decode : ℕ → ℕ → List ℕ → List ℕ
decode pending acc [] = []
decode zero acc (b ∷ rest) =
    let one = decode 0 0 rest in
    let two = decode 1 (b - 0xc0) rest in
    let three = decode 2 (b - 0xe0) rest in
    if ltb b 0x80 then b ∷ one else if ltb b 0xe0 then two else three
decode (suc zero) acc (b ∷ rest) = (acc * 64 + (b - 0x80)) ∷ decode 0 0 rest
decode (suc (suc n)) acc (b ∷ rest) = decode (suc n) (acc * 64 + (b - 0x80)) rest

decode-unit :
    (ch : ℕ) (rest : List ℕ)
    → ch < 2 ^ 16
    → decode 0 0 (unit_bytes ch ++ rest) ≡ ch ∷ decode 0 0 rest
unfolding decode unit_bytes
decode-unit ch rest h = ground arith

abbrev IsUnit : ℕ → Type 0
IsUnit ch = ch < 2 ^ 16

decode-encode : (units : List ℕ) → All IsUnit units → decode 0 0 (encode units) ≡ units
unfolding encode
decode-encode [] h = unfold decode in refl
decode-encode (ch ∷ units) h =
    decode-unit ch (encode units) h.0 ∙ ap (λ l. ch ∷ l) (decode-encode units h.1)

abbrev IsNonzero : ℕ → Type 0
IsNonzero b = b ≢ 0

unit_bytes-IsNonzero :
    (ch : ℕ) (rest : List ℕ) → All IsNonzero rest → All IsNonzero (unit_bytes ch ++ rest)
unfolding unit_bytes
unit_bytes-IsNonzero ch rest h = ground arith

encode-IsNonzero : (units : List ℕ) → All IsNonzero (encode units)
unfolding encode
encode-IsNonzero [] = tt
encode-IsNonzero (ch ∷ units) = unit_bytes-IsNonzero ch (encode units) (encode-IsNonzero units)

units_8-IsUnit : (cs0 : Buf) (i n : ℕ) → All IsUnit (units_8 cs0 i n)
unfolding units_8
units_8-IsUnit cs0 i zero = tt
units_8-IsUnit cs0 i (suc n) = (omega (arith, u8_at-lt cs0 i), units_8-IsUnit cs0 (i + 1) n)

units_16-IsUnit : (cs0 : Buf) (i n : ℕ) → All IsUnit (units_16 cs0 i n)
unfolding units_16
units_16-IsUnit cs0 i zero = tt
units_16-IsUnit cs0 i (suc n) =
    (omega (arith, u8_at-lt cs0 i, u8_at-lt cs0 (i + 1)), units_16-IsUnit cs0 (i + 2) n)

-- the code units that a string's first byte says it has
pub cs0_units : Buf → ℕ → List ℕ
cs0_units cs0 size =
    if u8_at cs0 0 == 8 then units_8 cs0 1 (size - 1) else units_16 cs0 1 ((size - 1) / 2)

meaning_units :
    (cs0 : Buf) (size : ℕ) (s : List ℕ)
    → 1 ≤ size
    → cs0_meaning cs0 size ≡ some s
    → s ≡ encode (cs0_units cs0 size)
unfolding cs0_meaning cs0_units
meaning_units cs0 size s h e = ground arith

cs0_units-IsUnit : (cs0 : Buf) (size : ℕ) → All IsUnit (cs0_units cs0 size)
unfolding cs0_units
cs0_units-IsUnit cs0 size = elim (Bool-cases (u8_at cs0 0 == 8)) [
  | inl e ↦ rw e (units_8-IsUnit cs0 1 (size - 1))
  | inr e ↦ rw e (units_16-IsUnit cs0 1 ((size - 1) / 2))
]

-- A name that `udf_cs0_to_mutf8` returns decodes to exactly the code units of the string, so that
-- no two names are confused, and holds no 0 byte, so that it is a C string; no 16-bit unit of the
-- string is U+07FF.
pub udf_cs0_to_mutf8_roundtrip :
    (cs0 : Buf) (size : ℕ) (s : List ℕ)
    → 1 ≤ size
    → size ≤ cs0.len
    → (u8_at cs0 0 ≡ 16 → All NotLast (units_16 cs0 1 ((size - 1) / 2)))
    → udf_cs0_to_mutf8 cs0 size ≡ done (some s)
    → (decode 0 0 s ≡ cs0_units cs0 size) × All IsNonzero s
udf_cs0_to_mutf8_roundtrip cs0 size s pos h ne e = rw is_encoded (
  decode-encode (cs0_units cs0 size) (cs0_units-IsUnit cs0 size),
  encode-IsNonzero (cs0_units cs0 size),
)
  where
    is_meaning : cs0_meaning cs0 size ≡ some s
    is_meaning = cc (udf_cs0_to_mutf8_lem cs0 size h ne)

    is_encoded : s ≡ encode (cs0_units cs0 size)
    is_encoded = meaning_units cs0 size s pos is_meaning

pub last_unit-IsStep :
    (o : Out)
    → length o.written < o.out_size
    → Returns (IsStep o (0xe0 ∷ 0x9f ∷ 0xbf ∷ [])) (utf16_to_mutf8 o 0x7ff)
unfolding utf16_to_mutf8
last_unit-IsStep o h =
    emit_three o 0xe0 0x9f 0xbf (omega arith) (omega arith) (omega arith) (omega arith)

-- The code as it is: U+07FF, which modified UTF-8 writes in the two bytes DF BF, is written in the
-- three bytes E0 9F BF, wherever it stands.
pub last_two_byte_unit :
    (o : Out)
    → length o.written < o.out_size
    → Returns (λ o'. o'.written ≡ o.written ++ (0xe0 ∷ 0x9f ∷ 0xbf ∷ [])) (utf16_to_mutf8 o 0x7ff)
      × (unit_bytes 0x7ff ≡ 0xdf ∷ 0xbf ∷ [])
unfolding utf16_to_mutf8 unit_bytes
last_two_byte_unit o h =
    (Returns-weaken _ (utf16_to_mutf8 o 0x7ff) (last_unit-IsStep o h) (λ o' r. r.0), refl)
