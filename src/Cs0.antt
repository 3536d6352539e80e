-- ===== src/Cs0.antt =====
-- OSTA CS0 strings to modified UTF-8: `udf_cs0_to_mutf8` of src/udf_fs.c. malloc and realloc are
-- taken to succeed.
pub mod Convert
pub mod Roundtrip
pub mod Safety
pub mod Spec
pub mod Strings
use libudfread.Common.{
  ℕ, zero, suc, ◌+◌, ◌-◌, ◌*◌, ◌/◌, ◌%◌, ◌^◌, bit_or, ltb, ◌==◌, ◌&&◌, not, if◌then◌else◌, List, [],
  ◌∷◌, ◌++◌, length, Option, none, some,
}
use libudfread.Memory.{Buf, Mem, fault, done, ◌>>=◌, get_u8}

-- The output: the bytes stored so far (`out_pos` is their number), in an allocation of `out_size`.
pub record Out : Type 0 where
  pub written : List ℕ
  pub out_size : ℕ

-- `out[out_pos++] = x`
unfoldable pub emit : Out → ℕ → Mem Out
emit o x =
    if ltb (length o.written) o.out_size
    then done (record o { written = o.written ++ ((x % 256) ∷ []) })
    else fault

-- `out_size += n` with realloc
unfoldable pub grow : Out → ℕ → Out
grow o n = record o { out_size = o.out_size + n }

unfoldable pub utf16lo_to_mutf8 : Out → ℕ → Mem Out
utf16lo_to_mutf8 o ch =
    if not (ch == 0) && ltb ch 0x80
    then emit o ch
    else do o₁ ← emit (grow o 1) (bit_or 0xc0 (ch / 2 ^ 6)); emit o₁ (bit_or 0x80 (ch % 2 ^ 6))

unfoldable pub utf16_to_mutf8 : Out → ℕ → Mem Out
utf16_to_mutf8 o ch = if ltb ch 0x7ff then utf16lo_to_mutf8 o ch else do
  o₁ ← emit (grow o 2) (bit_or 0xe0 (ch / 2 ^ 12))
  o₂ ← emit o₁ (bit_or 0x80 (ch / 2 ^ 6 % 2 ^ 6))
  emit o₂ (bit_or 0x80 (ch % 2 ^ 6))

-- `for (i = 1; i < size; i++)`, by the rounds left
unfoldable pub convert_8 : Buf → ℕ → ℕ → Out → Mem Out
convert_8 cs0 i zero o = done o
convert_8 cs0 i (suc rounds) o = do
  ch ← get_u8 cs0 i
  o' ← utf16lo_to_mutf8 o ch
  convert_8 cs0 (i + 1) rounds o'

-- `for (i = 1; i < size - 1; i += 2)`, by the rounds left
unfoldable pub convert_16 : Buf → ℕ → ℕ → Out → Mem Out
convert_16 cs0 i zero o = done o
convert_16 cs0 i (suc rounds) o = do
  lo ← get_u8 cs0 (i + 1)
  hi ← get_u8 cs0 i
  o' ← utf16_to_mutf8 o (bit_or lo (hi * 2 ^ 8))
  convert_16 cs0 (i + 2) rounds o'

-- `out[out_pos] = 0`, and the string in front of it
unfoldable pub terminate : Out → Mem (Option (List ℕ))
terminate o = do ended ← emit o 0; done (some o.written)

-- The bytes of the string, without the final 0; `none` is NULL.
unfoldable pub udf_cs0_to_mutf8 : Buf → ℕ → Mem (Option (List ℕ))
udf_cs0_to_mutf8 cs0 size = if ltb size 1 then done (some []) else do
  let start : Out = record { written = []; out_size = size }
  kind ← get_u8 cs0 0
  if kind == 8
      then (do o ← convert_8 cs0 1 (size - 1) start; terminate o)
      else if kind == 16
      then (do o ← convert_16 cs0 1 ((size - 1) / 2) start; terminate o)
      else done none
