-- ===== src/Memory.antt =====
-- Memory as the library's C sources see it: byte arrays, access that faults outside them, and the
-- little-endian readers of src/ecma167.h.
pub mod Agree
pub mod Words
use libudfread.Common.{
  ℕ, ◌+◌, ◌-◌, ◌*◌, ◌%◌, ◌^◌, bit_or, ltb, leb, ◌==◌, ◌&&◌, ◌≤◌, ◌≡◌, Bool, false, if◌then◌else◌,
  List, get_or, length,
}

-- A computation that may touch memory. `fault` is a read or write outside a buffer (or another
-- act that C leaves undefined, such as the overflow of a signed integer); `running` is a loop that
-- has not ended within the rounds that it was given.
pub data Mem {ℓ} (A : Type ℓ) : Type ℓ where
  fault : Mem A
  running : Mem A
  done : A → Mem A

infixl 5 ◌>>=◌ ◌>>◌
abbrev pub ◌>>=◌ {ℓ κ} : {A : Type ℓ} {B : Type κ} → Mem A → (A → Mem B) → Mem B
fault >>= f = fault
running >>= f = running
done a >>= f = f a

abbrev pub ◌>>◌ {ℓ} : {B : Type ℓ} → Mem (Unit {0}) → Mem B → Mem B
m >> k = m >>= λ _. k

-- The computation ends with no fault, in a result for which `P` holds.
abbrev pub Returns {ℓ} : {A : Type ℓ} → (A → Type 0) → Mem A → Type 0
Returns P fault = ⊥
Returns P running = ⊥
Returns P (done a) = P a

-- The computation never faults, and if it ends `P` holds for its result.
abbrev pub Safe {ℓ} : {A : Type ℓ} → (A → Type 0) → Mem A → Type 0
Safe P fault = ⊥
Safe P running = Unit
Safe P (done a) = P a

-- An array of `len` cells of type uint8_t. Only cells below `len` may be touched.
pub record Buf : Type 0 where
  pub len : ℕ
  pub at : ℕ → ℕ

-- The memory of the C library, as far as the code depends on it: whether realloc gives an array of
-- so many bytes. It gives none of 46 GiB or more.
pub record Heap : Type 0 where
  pub gives : ℕ → Bool
  pub bounded : (n : ℕ) → 46 * 2 ^ 30 ≤ n → gives n ≡ false

abbrev pub buf_of : List ℕ → Buf
buf_of xs = record { len = length xs; at = λ i. get_or xs i 0 }

-- memset(.., 0, n) on an array of n cells
abbrev pub zeros : ℕ → Buf
zeros n = record { len = n; at = λ _. 0 }

-- `buf[i]`: a cell of a uint8_t array holds a value below 256.
unfoldable pub get_u8 : Buf → ℕ → Mem ℕ
get_u8 b i = if ltb i b.len then done (b.at i % 256) else fault

unfoldable pub get_u16 : Buf → ℕ → Mem ℕ
get_u16 b i = do lo ← get_u8 b i; hi ← get_u8 b (i + 1); done (bit_or lo (hi * 2 ^ 8))

unfoldable pub get_u32 : Buf → ℕ → Mem ℕ
get_u32 b i = do lo ← get_u16 b i; hi ← get_u16 b (i + 2); done (bit_or lo (hi * 2 ^ 16))

unfoldable pub get_u64 : Buf → ℕ → Mem ℕ
get_u64 b i = do lo ← get_u32 b i; hi ← get_u32 b (i + 4); done (bit_or lo (hi * 2 ^ 32))

-- memcpy(dst, src + off, n): both ranges must lie inside their arrays.
unfoldable pub memcpy : Buf → Buf → ℕ → ℕ → Mem Buf
memcpy dst src off n =
    if leb (off + n) src.len
    then if leb n dst.len
      then done (record dst { at = λ i. if ltb i n then src.at (off + i) else dst.at i })
      else fault
    else fault

-- `dst[i] = v` for a uint8_t array
unfoldable pub put_u8 : Buf → ℕ → ℕ → Mem Buf
put_u8 dst i v =
    if ltb i dst.len
    then done (record dst { at = λ j. if j == i then v % 256 else dst.at j })
    else fault

-- `n` bytes stored at `dst + off`, by memset or by an input that fills a buffer
unfoldable pub store : Buf → ℕ → ℕ → (ℕ → ℕ) → Mem Buf
store dst off n src =
    if leb (off + n) dst.len
    then done
        (record dst { at = λ i. if leb off i && ltb i (off + n) then src (i - off) else dst.at i })
    else fault

-- memcpy(dst + q, src + off, n)
unfoldable pub copy_to : Buf → ℕ → Buf → ℕ → ℕ → Mem Buf
copy_to dst q src off n =
    if leb (off + n) src.len then store dst q n (λ i. src.at (off + i)) else fault
