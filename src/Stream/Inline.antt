-- ===== src/Stream/Inline.antt =====
-- Reads of inline files, whose data lie in the file entry (`_read_inline` of src/udfread.c).
use libudfread.Common.{
  ℕ, ◌+◌, ◌-◌, ◌^◌, ◌≤◌, ◌<◌, ◌≡◌, refl, sym, ap, le→leb, arith, ltb, leb, ◌==◌, if◌then◌else◌,
  some, min, Bool-cases, inl, inr, ltb→lt, ltb_false→le, leb→le, leb_false→lt, lt→leb_false, ==→eq,
}
use mathlib.Core.Path.{subst}
use libudfread.Memory.{Buf, done, Returns, store, copy_to}
use libudfread.Memory.Words.{Returns-bind, store_lem}
use libudfread.FileEntry.{inline}
use libudfread.File.{Disc}
use libudfread.Stream.{UdfFile, Reply, pad_of, read_inline, clip, udfread_file_read}

-- Byte `x` of an inline file: a byte of its data, or zero behind them.
pub inline_byte : Buf → ℕ → ℕ
inline_byte content x = if ltb x content.len then content.at x else 0

-- the first `n` bytes of the file from `start` on, and the old buffer behind them
abbrev pub IsInlineRead : Buf → UdfFile → Buf → ℕ → Reply → Type 0
IsInlineRead content p old n (r, p', buf') =
    (r ≡ some n)
    × (p'.pos ≡ p.pos + n)
    × (p'.fe ≡ p.fe)
    × (buf'.len ≡ old.len)
    × ((k : ℕ) → k < n → buf'.at k ≡ inline_byte content (p.pos + k))
    × ((k : ℕ) → n ≤ k → buf'.at k ≡ old.at k)
    × (p'.block ≡ p.block)

-- zeros behind the data
abbrev IsPadded : Buf → ℕ → ℕ → Buf → Type 0
IsPadded old from n buf =
    (buf.len ≡ old.len)
    × ((k : ℕ) → from ≤ k → k < n → buf.at k ≡ 0)
    × ((k : ℕ) → n ≤ k → buf.at k ≡ old.at k)

padded :
    (old : Buf) (pad n : ℕ)
    → pad ≤ n
    → n ≤ old.len
    → Returns
        (IsPadded old (n - pad) n)
        (if pad == 0 then done old else store old (n - pad) pad (λ _. 0))
padded old pad n le inside = elim (Bool-cases (pad == 0)) [
  | inl none' ↦ rw none' (refl, (λ k lo hi. absurd (omega (arith, ==→eq _ _ none'))), (λ k h. refl))
  | inr some' ↦
      rw (some', store_lem old (n - pad) pad (λ _. 0) (omega arith))
        (refl, (λ k lo hi. ground arith), (λ k h. ground arith))
]

pad_of_lem :
    (at bytes len : ℕ)
    → at + bytes < 2 ^ 64
    → (pad_of at bytes len ≤ bytes) × (bytes - pad_of at bytes len ≡ min bytes (len - at))
unfolding pad_of
pad_of_lem at bytes len h = ground arith

-- the data, then the zeros
abbrev IsFilled : Buf → ℕ → Buf → ℕ → Buf → Type 0
IsFilled content at old n buf =
    (buf.len ≡ old.len)
    × ((k : ℕ) → k < n → buf.at k ≡ inline_byte content (at + k))
    × ((k : ℕ) → n ≤ k → buf.at k ≡ old.at k)

filled :
    (content : Buf) (at : ℕ) (old mid : Buf) (pad n : ℕ)
    → IsPadded old (n - pad) n mid
    → n - pad ≡ min n (content.len - at)
    → n ≤ old.len
    → Returns
        (IsFilled content at old n)
        (if ltb pad n then copy_to mid 0 content at (n - pad) else done mid)
unfolding copy_to inline_byte
filled content at old mid pad n (len, zeros, rest) e inside = elim (Bool-cases (ltb pad n)) [
  | inl some' ↦
      rw
        (
          some',
          le→leb (at + (n - pad)) content.len (omega (arith, ltb→lt _ _ some')),
          store_lem mid 0 (n - pad) (λ i. content.at (at + i)) (omega arith),
        )
        (
          len,
          (λ k h. ground (arith, zeros k, ap content.at (shift k))),
          (λ k h. ground (arith, rest k)),
        )
  | inr none' ↦ rw none' (len, (λ k h. ground (arith, zeros k, ltb_false→le _ _ none')), rest)
]
  where
    shift : (k : ℕ) → at + (k - 0) ≡ at + k
    shift k = omega arith

pub read_inline-IsInlineRead :
    (p : UdfFile) (content buf : Buf) (n : ℕ)
    → p.pos + n < 2 ^ 64
    → n ≤ buf.len
    → Returns (IsInlineRead content p buf n) (read_inline p content buf n)
unfolding read_inline
read_inline-IsInlineRead p content buf n h inside =
    let pad = pad_of p.pos n content.len in
    let (le, e) = pad_of_lem p.pos n content.len h in
    Returns-bind _ (if pad == 0 then done buf else store buf (n - pad) pad (λ _. 0)) _
      (padded buf pad n le inside)
      (λ mid hm.
        Returns-bind _ (if ltb pad n then copy_to mid 0 content p.pos (n - pad) else done mid) _
          (filled content p.pos buf mid pad n hm e inside)
          (λ buf' hf. (refl, omega arith, refl, hf.0, hf.1, hf.2, refl)))

pub clip_lem :
    (at bytes length : ℕ)
    → at < length
    → at + bytes < 2 ^ 64
    → clip at bytes length ≡ min bytes (length - at)
unfolding clip
clip_lem at bytes length h k = ground arith

-- `udfread_file_read` of an inline file, on any data: it stays inside the data and the buffer, and
-- returns the bytes from the position on, as many as are wanted and there; bytes of the file
-- behind its data are zeros. The position moves behind them.
pub udfread_file_read-inline :
    (disc : Disc) (fuel : ℕ) (p : UdfFile) (content buf : Buf) (bytes : ℕ)
    → p.fe.u ≡ inline content
    → p.fe.length < 2 ^ 63
    → bytes < 2 ^ 63
    → bytes ≤ buf.len
    → Returns
        (IsInlineRead content p buf (min bytes (p.fe.length - p.pos)))
        (udfread_file_read disc fuel p buf bytes)
unfolding udfread_file_read
udfread_file_read-inline disc fuel p content buf bytes e small narrow inside =
    rw (lt→leb_false bytes (2 ^ 63) narrow) (elim (Bool-cases (leb p.fe.length p.pos)) [
      | inl at_end ↦
          let none_left : min bytes (p.fe.length - p.pos) ≡ 0 = omega (arith, leb→le _ _ at_end) in
          rw at_end (
            ap some (sym none_left),
            omega arith,
            refl,
            refl,
            (λ k h. absurd (omega arith)),
            (λ k h. refl),
            refl,
          )
      | inr more ↦
          let before : p.pos < p.fe.length = leb_false→lt _ _ more in
          let n_eq = clip_lem p.pos bytes p.fe.length before (omega arith) in
          rw more (
            rw (e, Returns)
              (subst (λ m. Returns (IsInlineRead content p buf m) (read_inline p content buf n))
                n_eq
                (read_inline-IsInlineRead p content buf n (omega (arith, n_eq))
                  (omega (arith, n_eq)))))
    ])
  where
    n : ℕ
    n = clip p.pos bytes p.fe.length
