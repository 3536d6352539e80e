-- ===== src/Stream/Pieces.antt =====
-- The pieces of a read by `udfread_file_read` of src/udfread.c, of any file and on any disc.
use libudfread.Common.{
  ℕ, ◌+◌, ◌-◌, ◌*◌, ◌/◌, ◌%◌, ◌^◌, ◌≤◌, ◌<◌, ◌≡◌, refl, arith, ltb, leb, ◌==◌, if◌then◌else◌, true,
  none, some, Bool-cases, inl, inr, leb_false→lt, le→leb,
}
use libudfread.Memory.{Buf, Returns, Safe, copy_to}
use libudfread.Memory.Words.{Safe-bind, Safe-bind_returns, store_lem}
use libudfread.FileEntry.{FileEntry}
use libudfread.File.{Disc, udfread_read_blocks}
use libudfread.Stream.{UdfFile, Reply, copy_chunk, read_middle, read_full, read_start, read_chunk}
use libudfread.File.Safety.{IsModest, blocks-Safe}

copy_to-Kept :
    (buf : Buf) (q : ℕ) (src : Buf) (off n : ℕ)
    → off + n ≤ src.len
    → q + n ≤ buf.len
    → Returns (λ b. b.len ≡ buf.len) (copy_to buf q src off n)
unfolding copy_to
copy_to-Kept buf q src off n fits inside =
    rw (le→leb _ _ fits, store_lem buf q n (λ i. src.at (off + i)) inside) refl

module _ (disc : Disc) (fe : FileEntry) (small : fe.length < 2 ^ 63 - 2048)
    (modest : IsModest disc.input) where
  file_blocks-Safe :
      (p : UdfFile) (buf : Buf) (q file_block num_blocks : ℕ)
      → p.fe ≡ fe
      → q + num_blocks * 2048 ≤ buf.len
      → Safe
          (λ r. (r.0 ≤ num_blocks) × (r.1.len ≡ buf.len))
          (udfread_read_blocks disc p.fe buf q file_block num_blocks 0)
  file_blocks-Safe p buf q file_block num_blocks same inside =
      rw same (blocks-Safe disc fe small modest buf q file_block num_blocks 0 inside)

  -- What a piece of a read leaves: no more than `bytes` bytes, inside the file.
  abbrev pub IsPiece : UdfFile → Buf → ℕ → Reply → Type 0
  IsPiece p buf bytes (none, p', buf') =
      (p'.pos ≡ p.pos) × (p'.block.len ≡ 2048) × (p'.fe ≡ fe) × (buf'.len ≡ buf.len)
  IsPiece p buf bytes (some n, p', buf') =
      (n ≤ bytes)
      × (p'.pos ≡ p.pos + n)
      × (p'.block.len ≡ 2048)
      × (p'.fe ≡ fe)
      × (buf'.len ≡ buf.len)

  copy_chunk-IsPiece :
      (p : UdfFile) (buf : Buf) (q bytes : ℕ)
      → p.block.len ≡ 2048
      → p.fe ≡ fe
      → p.pos + bytes < 2 ^ 63
      → q + bytes ≤ buf.len
      → Safe (IsPiece p buf bytes) (copy_chunk p buf q bytes)
  unfolding copy_chunk
  copy_chunk-IsPiece p buf q bytes room same limit inside =
      Safe-bind_returns _ (copy_to buf q p.block (p.pos % 2048) n) _
        (copy_to-Kept buf q p.block (p.pos % 2048) n (omega (arith, n_facts))
          (omega (arith, n_facts)))
        (λ buf' k. (n_facts.0, omega (arith, n_facts), room, same, k))
    where
      n : ℕ
      n = if ltb bytes (2048 - p.pos % 2048) then bytes else 2048 - p.pos % 2048

      n_facts : (n ≤ bytes) × (n ≤ 2048 - p.pos % 2048)
      n_facts = ground arith

  read_middle-IsPiece :
      (p : UdfFile) (buf : Buf) (q bytes : ℕ)
      → p.block.len ≡ 2048
      → p.fe ≡ fe
      → p.pos + bytes < 2 ^ 63
      → q + bytes ≤ buf.len
      → Safe (IsPiece p buf bytes) (read_middle disc p buf q bytes)
  unfolding read_middle
  read_middle-IsPiece p buf q bytes room same limit inside = elim (Bool-cases p.block_valid) [
    | inl valid ↦ simp valid (copy_chunk-IsPiece p buf q bytes room same limit inside)
    | inr stale ↦ simp stale (
        Safe-bind _ (udfread_read_blocks disc p.fe p.block 0 (p.pos / 2048 % 2 ^ 32) 1 0) _
          (file_blocks-Safe p p.block 0 (p.pos / 2048 % 2 ^ 32) 1 same (omega arith))
          (λ r k. elim (Bool-cases (r.0 == 1)) [
            | inr failed ↦ rw failed (refl, omega (arith, k.1), same, refl)
            | inl one ↦ rw one (
                copy_chunk-IsPiece (record p { block = r.1; block_valid = true }) buf q bytes
                  (omega (arith, k.1)) same limit inside)
          ]))
  ]

  read_full-IsPiece :
      (p : UdfFile) (buf : Buf) (q bytes : ℕ)
      → p.block.len ≡ 2048
      → p.fe ≡ fe
      → p.pos + bytes < 2 ^ 63
      → q + bytes ≤ buf.len
      → Safe (IsPiece p buf bytes) (read_full disc p buf q bytes)
  unfolding read_full
  read_full-IsPiece p buf q bytes room same limit inside =
      Safe-bind _
        (udfread_read_blocks disc p.fe buf q (p.pos / 2048 % 2 ^ 32) (bytes / 2048 % 2 ^ 32) 0) _
        (file_blocks-Safe p buf q (p.pos / 2048 % 2 ^ 32) (bytes / 2048 % 2 ^ 32) same
          (omega arith))
        (λ r k. elim (Bool-cases (ltb r.0 1)) [
          | inl failed ↦ rw failed (refl, room, same, k.1)
          | inr got ↦ rw got (omega (arith, k.0), omega (arith, k.0), room, same, k.1)
        ])

  read_start-IsPiece :
      (p : UdfFile) (buf : Buf) (q bytes : ℕ)
      → p.block.len ≡ 2048
      → p.fe ≡ fe
      → bytes < 2048
      → p.pos + bytes < 2 ^ 63
      → q + bytes ≤ buf.len
      → Safe (IsPiece p buf bytes) (read_start disc p buf q bytes)
  unfolding read_start
  read_start-IsPiece p buf q bytes room same part limit inside =
      Safe-bind _ (udfread_read_blocks disc p.fe p.block 0 (p.pos / 2048 % 2 ^ 32) 1 0) _
        (file_blocks-Safe p p.block 0 (p.pos / 2048 % 2 ^ 32) 1 same (omega arith))
        (λ r k. elim (Bool-cases (r.0 == 1)) [
          | inr failed ↦ rw failed (refl, omega (arith, k.1), same, refl)
          | inl one ↦ rw one (
              Safe-bind_returns _ (copy_to buf q r.1 0 bytes) _
                (copy_to-Kept buf q r.1 0 bytes (omega (arith, k.1)) inside)
                (λ buf' e. (omega arith, omega arith, omega (arith, k.1), same, e)))
        ])

  pub read_chunk-IsPiece :
      (p : UdfFile) (buf : Buf) (q bytes : ℕ)
      → p.block.len ≡ 2048
      → p.fe ≡ fe
      → p.pos + bytes < 2 ^ 63
      → q + bytes ≤ buf.len
      → Safe (IsPiece p buf bytes) (read_chunk disc p buf q bytes)
  unfolding read_chunk
  read_chunk-IsPiece p buf q bytes room same limit inside = elim (Bool-cases (p.pos % 2048 == 0)) [
    | inr mid ↦ rw mid (read_middle-IsPiece p buf q bytes room same limit inside)
    | inl aligned ↦ rw aligned (elim (Bool-cases (leb 2048 bytes)) [
      | inl whole ↦ rw whole (read_full-IsPiece p buf q bytes room same limit inside)
      | inr part ↦
          rw part (read_start-IsPiece p buf q bytes room same (leb_false→lt _ _ part) limit inside)
    ])
  ]
