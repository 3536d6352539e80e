-- ===== src/Memory/Words.antt =====
-- What the readers of src/ecma167.h return: the little-endian number, inside the buffer only.
use libudfread.Common.{
  ltb, leb, ◌&&◌, ◌-◌, if◌then◌else◌, ℕ, ◌+◌, ◌*◌, ◌%◌, ◌^◌, ◌<◌, ◌≤◌, ◌≡◌, refl, arith,
}
use libudfread.Common.Bits.{bit_or-shifted}
use libudfread.Memory.{
  Buf, store, Mem, fault, running, done, ◌>>=◌, Returns, Safe, get_u8, get_u16, get_u32, get_u64,
}

-- The number that bytes i, i+1, .. stand for, lowest byte first.
unfoldable pub u8_at : Buf → ℕ → ℕ
u8_at b i = b.at i % 256

unfoldable pub u16_at : Buf → ℕ → ℕ
u16_at b i = u8_at b i + u8_at b (i + 1) * 2 ^ 8

unfoldable pub u32_at : Buf → ℕ → ℕ
u32_at b i = u16_at b i + u16_at b (i + 2) * 2 ^ 16

unfoldable pub u64_at : Buf → ℕ → ℕ
u64_at b i = u32_at b i + u32_at b (i + 4) * 2 ^ 32

pub u8_at-lt : (b : Buf) (i : ℕ) → u8_at b i < 256
unfolding u8_at
u8_at-lt b i = omega arith

pub u16_at-lt : (b : Buf) (i : ℕ) → u16_at b i < 2 ^ 16
unfolding u16_at
u16_at-lt b i = omega (arith, u8_at-lt b i, u8_at-lt b (i + 1))

pub u32_at-lt : (b : Buf) (i : ℕ) → u32_at b i < 2 ^ 32
unfolding u32_at
u32_at-lt b i = omega (arith, u16_at-lt b i, u16_at-lt b (i + 2))

pub u64_at-lt : (b : Buf) (i : ℕ) → u64_at b i < 2 ^ 64
unfolding u64_at
u64_at-lt b i = omega (arith, u32_at-lt b i, u32_at-lt b (i + 4))

pub get_u8_lem : (b : Buf) (i : ℕ) → i < b.len → get_u8 b i ≡ done (u8_at b i)
unfolding get_u8 u8_at
get_u8_lem b i h = ground arith

pub get_u16_lem : (b : Buf) (i : ℕ) → i + 2 ≤ b.len → get_u16 b i ≡ done (u16_at b i)
unfolding get_u16 u16_at
get_u16_lem b i h = ground (
  arith,
  get_u8_lem b i,
  get_u8_lem b (i + 1),
  bit_or-shifted 8 (u8_at b i) (u8_at b (i + 1)),
  u8_at-lt b i,
)

pub get_u32_lem : (b : Buf) (i : ℕ) → i + 4 ≤ b.len → get_u32 b i ≡ done (u32_at b i)
unfolding get_u32 u32_at
get_u32_lem b i h = ground (
  arith,
  get_u16_lem b i,
  get_u16_lem b (i + 2),
  bit_or-shifted 16 (u16_at b i) (u16_at b (i + 2)),
  u16_at-lt b i,
)

pub get_u64_lem : (b : Buf) (i : ℕ) → i + 8 ≤ b.len → get_u64 b i ≡ done (u64_at b i)
unfolding get_u64 u64_at
get_u64_lem b i h = ground (
  arith,
  get_u32_lem b i,
  get_u32_lem b (i + 4),
  bit_or-shifted 32 (u32_at b i) (u32_at b (i + 4)),
  u32_at-lt b i,
)

-- A store inside an array changes its range alone.
pub store_lem :
    (dst : Buf) (off n : ℕ) (src : ℕ → ℕ)
    → off + n ≤ dst.len
    → store dst off n src
      ≡ done (record dst {
        at = λ i. if leb off i && ltb i (off + n) then src (i - off) else dst.at i;
      })
unfolding store
store_lem dst off n src h = ground arith

-- The rules for a sequence of two computations, and for a known result.
pub Returns-bind {ℓ κ} :
    {A : Type ℓ} {B : Type κ} {P : A → Type 0} (Q : B → Type 0) (m : Mem A) (f : A → Mem B)
    → Returns P m
    → ((a : A) → P a → Returns Q (f a))
    → Returns Q (m >>= f)
Returns-bind Q fault f h k = absurd h
Returns-bind Q running f h k = absurd h
Returns-bind Q (done a) f h k = k a h

pub Returns-weaken {ℓ} :
    {A : Type ℓ} {P : A → Type 0} (Q : A → Type 0) (m : Mem A)
    → Returns P m
    → ((a : A) → P a → Q a)
    → Returns Q m
Returns-weaken Q fault h k = absurd h
Returns-weaken Q running h k = absurd h
Returns-weaken Q (done a) h k = k a h

-- A computation that returns is equal to its result.
pub Returns-result {ℓ} :
    {A : Type ℓ} {P : A → Type 0} (m : Mem A) → Returns P m → (a : A) × (m ≡ done a) × P a
Returns-result fault h = absurd h
Returns-result running h = absurd h
Returns-result (done a) h = (a, refl, h)

pub Safe-bind {ℓ κ} :
    {A : Type ℓ} {B : Type κ} {P : A → Type 0} (Q : B → Type 0) (m : Mem A) (f : A → Mem B)
    → Safe P m
    → ((a : A) → P a → Safe Q (f a))
    → Safe Q (m >>= f)
Safe-bind Q fault f h k = absurd h
Safe-bind Q running f h k = tt
Safe-bind Q (done a) f h k = k a h

pub Safe-bind_returns {ℓ κ} :
    {A : Type ℓ} {B : Type κ} {P : A → Type 0} (Q : B → Type 0) (m : Mem A) (f : A → Mem B)
    → Returns P m
    → ((a : A) → P a → Safe Q (f a))
    → Safe Q (m >>= f)
Safe-bind_returns Q fault f h k = absurd h
Safe-bind_returns Q running f h k = absurd h
Safe-bind_returns Q (done a) f h k = k a h

-- A computation that ends is safe for what it returns.
pub Returns-Safe {ℓ} :
    {A : Type ℓ} {P : A → Type 0} (Q : A → Type 0) (m : Mem A)
    → Returns P m
    → ((a : A) → P a → Q a)
    → Safe Q m
Returns-Safe Q fault h k = absurd h
Returns-Safe Q running h k = absurd h
Returns-Safe Q (done a) h k = k a h

-- The result of a computation that returns, with the equation.
pub Returns-itself :
    {A : Type 0} (P : A → Type 0) (m : Mem A) → Returns P m → Returns (λ a. P a × (m ≡ done a)) m
Returns-itself P fault h = absurd h
Returns-itself P running h = absurd h
Returns-itself P (done a) h = (h, refl)

pub Safe-itself :
    {A : Type 0} (P : A → Type 0) (m : Mem A) → Safe P m → Safe (λ a. P a × (m ≡ done a)) m
Safe-itself P fault h = absurd h
Safe-itself P running h = tt
Safe-itself P (done a) h = (h, refl)

pub Safe-both :
    {A : Type 0} (P Q : A → Type 0) (m : Mem A) → Safe P m → Safe Q m → Safe (λ a. P a × Q a) m
Safe-both P Q fault h k = absurd h
Safe-both P Q running h k = tt
Safe-both P Q (done a) h k = (h, k)

-- What a call returns satisfies its property, and is what it returns.
pub Returns-known :
    {A : Type 0} (P : A → Type 0) (m : Mem A) → Returns P m → Returns (λ x. P x × (m ≡ done x)) m
Returns-known P fault h = h
Returns-known P running h = h
Returns-known P (done x) h = (h, refl)

pub Safe-known :
    {A : Type 0} (P : A → Type 0) (m : Mem A) → Safe P m → Safe (λ x. P x × (m ≡ done x)) m
Safe-known P fault h = h
Safe-known P running h = tt
Safe-known P (done x) h = (h, refl)
