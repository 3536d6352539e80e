-- ===== src/Tests/Names.antt =====
-- A name in 16-bit characters, converted.
use libudfread.Common.{ℕ, ◌-◌, ◌/◌, ◌≡◌, ◌≢◌, arith, List, [], ◌∷◌, All, some}
use libudfread.Memory.{Buf, done, buf_of}
use libudfread.Memory.Words.{u8_at}
use libudfread.Cs0.{udf_cs0_to_mutf8}
use libudfread.Cs0.Spec.{unit_bytes, encode}
use libudfread.Cs0.Strings.{units_16, NotLast, cs0_meaning, udf_cs0_to_mutf8_lem}
use libudfread.Cs0.Roundtrip.{decode, cs0_units, udf_cs0_to_mutf8_roundtrip}

-- U+3042, "A" and U+0000
abbrev name : Buf
name = buf_of (16 ∷ 0x30 ∷ 0x42 ∷ 0 ∷ 0x41 ∷ 0 ∷ 0 ∷ [])

abbrev name_bytes : List ℕ
name_bytes = 0xe3 ∷ 0x81 ∷ 0x82 ∷ 0x41 ∷ 0xc0 ∷ 0x80 ∷ []

name-NotLast : All NotLast (units_16 name 1 ((7 - 1) / 2))
unfolding units_16 u8_at
name-NotLast = ((λ e. omega arith), ((λ e. omega arith), ((λ e. omega arith), tt)))

udf_cs0_to_mutf8_lem_example : udf_cs0_to_mutf8 name 7 ≡ done (some name_bytes)
unfolding cs0_meaning encode unit_bytes units_16 u8_at
udf_cs0_to_mutf8_lem_example = udf_cs0_to_mutf8_lem name 7 (omega arith) (λ _. name-NotLast)

udf_cs0_to_mutf8_roundtrip_example :
    (decode 0 0 name_bytes ≡ cs0_units name 7) × All (λ b. b ≢ 0) name_bytes
udf_cs0_to_mutf8_roundtrip_example =
    udf_cs0_to_mutf8_roundtrip name 7 name_bytes (omega arith) (omega arith) (λ _. name-NotLast)
      udf_cs0_to_mutf8_lem_example
