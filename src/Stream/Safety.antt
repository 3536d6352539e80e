-- ===== src/Stream/Safety.antt =====
-- `udfread_file_read` of src/udfread.c on any file entry and any disc.
use libudfread.Common.{
  ℕ, zero, suc, ◌+◌, ◌-◌, ◌^◌, ◌≤◌, ◌<◌, ◌≡◌, refl, ap, ◌∙◌, arith, ltb, leb, ◌==◌, if◌then◌else◌,
  none, some, Bool-cases, inl, inr, leb_false→lt,
}
use libudfread.Memory.{Buf, Safe, done}
use libudfread.Memory.Words.{Safe-bind, Returns-Safe}
use libudfread.FileEntry.{FileEntry, Content, ads, inline}
use libudfread.File.{Disc}
use libudfread.Stream.{
  UdfFile, Reply, read_chunk, read_chunks, clip, udfread_file_read, read_inline,
}
use libudfread.Stream.Inline.{IsInlineRead, read_inline-IsInlineRead, clip_lem}
use libudfread.File.Safety.{IsModest}
use libudfread.Stream.Pieces.{IsPiece, read_chunk-IsPiece}

-- what holds for a file between any two calls
pub record IsFileState (p : UdfFile) : Type 0 where
  pub room : p.block.len ≡ 2048
  pub in_range : p.pos < 2 ^ 63

module _ (disc : Disc) (fe : FileEntry) (small : fe.length < 2 ^ 63 - 2048)
    (modest : IsModest disc.input) where
  -- What a whole read leaves: at most `total` bytes are read.
  abbrev pub IsSafeRead : ℕ → ℕ → Reply → Type 0
  IsSafeRead len total (none, p', buf') = IsFileState p' × (p'.fe ≡ fe) × (buf'.len ≡ len)
  IsSafeRead len total (some n, p', buf') =
      (n ≤ total) × IsFileState p' × (p'.fe ≡ fe) × (buf'.len ≡ len)

  failed-IsSafeRead :
      (p : UdfFile) (buf : Buf) (q len total : ℕ)
      → IsFileState p
      → p.fe ≡ fe
      → q ≤ total
      → buf.len ≡ len
      → IsSafeRead len total (if q == 0 then none else some q, p, buf)
  failed-IsSafeRead p buf q len total h same le e = elim (Bool-cases (q == 0)) [
    | inl first ↦ rw first (h, same, e)
    | inr later ↦ rw later (le, h, same, e)
  ]

  read_chunks-Safe :
      (fuel : ℕ) (p : UdfFile) (buf : Buf) (q bytes len total : ℕ)
      → p.block.len ≡ 2048
      → p.fe ≡ fe
      → p.pos + bytes < 2 ^ 63
      → q + bytes ≤ len
      → q + bytes ≤ total
      → buf.len ≡ len
      → Safe (IsSafeRead len total) (read_chunks disc fuel p buf q bytes)
  unfolding read_chunks
  read_chunks-Safe zero p buf q bytes len total room same limit inside le e = tt
  read_chunks-Safe (suc fuel) p buf q bytes len total room same limit inside le e =
      elim (Bool-cases (ltb 0 bytes)) [
        | inr all ↦
            rw (all, Safe) (omega arith, record { room = room; in_range = omega arith }, same, e)
        | inl more ↦
            rw (more, Safe)
              (Safe-bind _ (read_chunk disc p buf q bytes) _
                (read_chunk-IsPiece disc fe small modest p buf q bytes room same limit
                  (omega arith))
                (λ a.
                  (elim a.0
                    as (λ r.
                      IsPiece disc fe small modest p buf bytes (r, a.1, a.2)
                      → Safe (IsSafeRead len total) (elim r [
                        | none ↦ done (if q == 0 then none else some q, a.1, a.2)
                        | some n ↦ read_chunks disc fuel a.1 a.2 (q + n) (bytes - n)
                      ])) [
                        | none ↦ λ k.
                            failed-IsSafeRead a.1 a.2 q len total
                              (record { room = k.1; in_range = omega (arith, k.0) }) k.2
                              (omega arith) (omega (arith, k.3))
                        | some n ↦ λ k.
                            read_chunks-Safe fuel a.1 a.2 (q + n) (bytes - n) len total k.2 k.3
                              (omega (arith, k.0, k.1)) (omega (arith, k.0)) (omega (arith, k.0))
                              (omega (arith, k.4))
                      ])))
      ]

  inline-IsSafeRead :
      (p : UdfFile) (content buf : Buf) (n bytes : ℕ) (r : Reply)
      → IsFileState p
      → p.fe ≡ fe
      → n ≤ bytes
      → p.pos + n < 2 ^ 63
      → IsInlineRead content p buf n r
      → IsSafeRead buf.len bytes r
  inline-IsSafeRead p content buf n bytes (none, p', buf') h same le limit k = absurd cc
  inline-IsSafeRead p content buf n bytes (some m, p', buf') h same le limit k =
      let m_eq : m ≡ n = cc in
      let block_len : p'.block.len ≡ p.block.len = ap (λ b. b.len) k.6 in
      (
        omega arith,
        record { room = block_len ∙ h.room; in_range = omega (arith, k.1) },
        k.2 ∙ same,
        k.3,
      )

  -- `udfread_file_read` on any disc, of a file with any content whose length is below
  -- 2 ^ 63 - 2048, stays inside the buffer and the file's own arrays, if the input never says that
  -- it has read more than it was asked for. If it ends, it returns -1 or at most as many bytes as
  -- were wanted, and what holds for the file between two calls holds again.
  pub udfread_file_read-Safe :
      (fuel : ℕ) (p : UdfFile) (buf : Buf) (bytes : ℕ)
      → IsFileState p
      → p.fe ≡ fe
      → bytes ≤ buf.len
      → Safe (IsSafeRead buf.len bytes) (udfread_file_read disc fuel p buf bytes)
  unfolding udfread_file_read
  udfread_file_read-Safe fuel p buf bytes h same inside = elim (Bool-cases (leb (2 ^ 63) bytes)) [
    | inl huge ↦ rw huge (h, same, refl)
    | inr fits ↦ rw fits (elim (Bool-cases (leb p.fe.length p.pos)) [
      | inl at_end ↦ rw at_end (omega arith, h, same, refl)
      | inr more ↦ rw more (by_content p.fe.u (leb_false→lt _ _ more) (leb_false→lt _ _ fits))
    ])
  ]
    where
      n : ℕ
      n = clip p.pos bytes p.fe.length

      same_length : p.fe.length ≡ fe.length
      same_length = ap (λ f. f.length) same

      by_content :
          (u : Content)
          → p.pos < p.fe.length
          → bytes < 2 ^ 63
          → Safe (IsSafeRead buf.len bytes) (elim u [
            | inline content ↦ read_inline p content buf n
            | ads list ↦ read_chunks disc fuel p buf 0 n
          ])
      by_content (inline content) before fits =
          let n_eq = clip_lem p.pos bytes p.fe.length before (omega (arith, h.in_range)) in
          Returns-Safe (IsSafeRead buf.len bytes) (read_inline p content buf n)
            (read_inline-IsInlineRead p content buf n (omega (arith, h.in_range, n_eq))
              (omega (arith, n_eq)))
            (λ r k.
              inline-IsSafeRead p content buf n bytes r h same (omega (arith, n_eq))
                (omega (arith, n_eq, same_length)) k)
      by_content (ads list) before fits =
          let n_eq = clip_lem p.pos bytes p.fe.length before (omega (arith, h.in_range)) in
          read_chunks-Safe fuel p buf 0 n buf.len bytes h.room same
            (omega (arith, n_eq, same_length)) (omega (arith, n_eq)) (omega (arith, n_eq)) refl
