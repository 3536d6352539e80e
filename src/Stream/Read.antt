-- ===== src/Stream/Read.antt =====
-- `udfread_file_read` of src/udfread.c on a file with extents returns the bytes of the file.
use mathlib.Core.Path.{subst}
use libudfread.Common.{
  ℕ, zero, suc, ◌+◌, ◌-◌, ◌%◌, ◌^◌, ◌≤◌, ◌<◌, ◌≡◌, refl, arith, ltb, leb, ◌==◌, if◌then◌else◌, List,
  none, some, min, lt→leb_false, Bool-cases, inl, inr, ltb→lt, ltb_false→le, leb→le, leb_false→lt,
  ==→eq,
}
use libudfread.Memory.{Buf, done, Returns}
use libudfread.Memory.Words.{Returns-bind}
use libudfread.Ecma.{LongAd}
use libudfread.File.{Disc}
use libudfread.File.Bytes.{Holds, Holds-start, Holds-trans, Holds-weaken}
use libudfread.File.Blocks.{IsReadable, Delivers}
use libudfread.Stream.Chunk.{IsOpen, IsReply}
use libudfread.Stream.Step.{read_chunk-IsReply}
use libudfread.Stream.{read_chunks, clip, udfread_file_read, UdfFile, Reply, read_chunk}

module _ (disc : Disc) (image : ℕ → ℕ) (list : List LongAd) (size : ℕ) where
  -- What a read of `bytes` bytes inside the file returns: -1 with nothing read, only where the
  -- input fails, or the bytes of the file from the position on, all of them unless the input
  -- fails. The position moves behind them, and the buffer is kept but for its first `bytes` bytes.
  abbrev pub HasRead : ℕ → Buf → ℕ → Reply → Type 0
  HasRead start old bytes (none, p', buf') =
      (¬ Delivers disc.input)
      × IsOpen disc image list size p'
      × (p'.pos ≡ start)
      × Holds image disc.part_lba list old buf' 0 start 0 bytes
  HasRead start old bytes (some n, p', buf') =
      (n ≤ bytes)
      × (Delivers disc.input → n ≡ bytes)
      × IsOpen disc image list size p'
      × (p'.pos ≡ start + n)
      × Holds image disc.part_lba list old buf' 0 start n bytes

module _ (disc : Disc) (image : ℕ → ℕ) (list : List LongAd) (size : ℕ)
    (good : IsReadable disc image size list) (small : size ≤ 2 ^ 43 - 2048) where
  joined :
      (here start total : ℕ) (old buf : Buf) (q n bytes : ℕ) (buf' : Buf)
      → here ≡ start + q
      → q + bytes ≡ total
      → Holds image disc.part_lba list old buf 0 start q total
      → Holds image disc.part_lba list buf buf' q here n bytes
      → Holds image disc.part_lba list old buf' 0 start (q + n) total
  joined here start total old buf q n bytes buf' at sum held more =
      Holds-trans image disc.part_lba list old buf buf' 0 start q n total held
        (Holds-weaken image disc.part_lba list buf buf' q (start + q) n (total - q) more at
          (omega arith) (omega arith))
        (omega arith) (omega arith)

  -- A failed chunk ends the loop: what was read before it is the result.
  failed_chunk :
      (p : UdfFile) (start total : ℕ) (old buf : Buf) (q bytes : ℕ) (p' : UdfFile) (buf' : Buf)
      → p.pos ≡ start + q
      → q + bytes ≡ total
      → Holds image disc.part_lba list old buf 0 start q total
      → IsReply disc image list size p.pos buf q bytes (none, p', buf')
      → HasRead disc image list size start old total (if q == 0 then none else some q, p', buf')
  failed_chunk p start total old buf q bytes p' buf' at sum held h = elim (Bool-cases (q == 0)) [
    | inl first ↦
        let e : q ≡ 0 = ==→eq _ _ first in
        rw first (
          h.0,
          h.1,
          omega (arith, h.2),
          Holds-weaken image disc.part_lba list old buf' 0 start 0 total both refl (omega arith)
              (omega arith),
        )
    | inr later ↦ rw later (
      omega arith,
      λ d. absurd (h.0 d),
      h.1,
      omega (arith, h.2),
      Holds-weaken image disc.part_lba list old buf' 0 start q total both refl (omega arith)
          (omega arith),
    )
  ]
    where
      both : Holds image disc.part_lba list old buf' 0 start (q + 0) total
      both = joined p.pos start total old buf q 0 bytes buf' at sum held h.3

  read_chunks-HasRead :
      (fuel : ℕ) (p : UdfFile) (start total : ℕ) (old buf : Buf) (q bytes : ℕ)
      → bytes < fuel
      → IsOpen disc image list size p
      → p.pos ≡ start + q
      → q + bytes ≡ total
      → Holds image disc.part_lba list old buf 0 start q total
      → start + total ≤ size
      → total < 2 ^ 32
      → total ≤ old.len
      → Returns (HasRead disc image list size start old total) (read_chunks disc fuel p buf q bytes)
  unfolding read_chunks
  read_chunks-HasRead zero p start total old buf q bytes hf open' at sum held limit narrow inside =
      absurd (omega arith)
  read_chunks-HasRead (suc fuel) p start total old buf q bytes hf open' at sum held limit narrow
        inside =
      elim (Bool-cases (ltb 0 bytes)) [
        | inl more ↦
            rw (more, Returns)
              (Returns-bind _ (read_chunk disc p buf q bytes) _
                (read_chunk-IsReply disc image list size good small p buf q bytes open'
                  (ltb→lt _ _ more) (omega arith) (omega arith) (omega (arith, held.size)))
                (λ a.
                  (elim a.0
                    as (λ r.
                      IsReply disc image list size p.pos buf q bytes (r, a.1, a.2)
                      → Returns (HasRead disc image list size start old total) (elim r [
                        | none ↦ done (if q == 0 then none else some q, a.1, a.2)
                        | some n ↦ read_chunks disc fuel a.1 a.2 (q + n) (bytes - n)
                      ])) [
                        | none ↦
                            λ h. failed_chunk p start total old buf q bytes a.1 a.2 at sum held h
                        | some n ↦ λ h.
                            read_chunks-HasRead fuel a.1 start total old a.2 (q + n) (bytes - n)
                              (omega (arith, h.0)) h.2 (omega (arith, h.3)) (omega (arith, h.1))
                              (joined p.pos start total old buf q n bytes a.2 at sum held h.4) limit
                              narrow inside
                      ])))
        | inr all ↦
            let e : q ≡ total = omega (arith, ltb_false→le _ _ all) in
            rw (all, Returns) (omega arith, λ _. e, open', at, held)
      ]

  -- `udfread_file_read` of less than 4 GiB ends, and returns the bytes of the file from the
  -- position on, as many as are wanted and there, unless the input fails; it stays in the buffer.
  -- For a request that is larger see `Stream.Wrap`.
  pub udfread_file_read_lem :
      (p : UdfFile) (buf : Buf) (bytes fuel : ℕ)
      → IsOpen disc image list size p
      → bytes < 2 ^ 32
      → bytes ≤ buf.len
      → bytes < fuel
      → Returns
          (HasRead disc image list size p.pos buf (min bytes (size - p.pos)))
          (udfread_file_read disc fuel p buf bytes)
  unfolding udfread_file_read clip
  udfread_file_read_lem p buf bytes fuel open' narrow inside hf =
      rw (lt→leb_false bytes (2 ^ 63) (omega arith)) (elim (Bool-cases (leb p.fe.length p.pos)) [
        | inl at_end ↦
            let end : size ≤ p.pos = omega (arith, leb→le _ _ at_end, open'.length) in
            rw at_end (
              omega arith,
              λ _. omega arith,
              open',
              omega arith,
              Holds-start image disc.part_lba list buf 0 _ _,
            )
        | inr more ↦
            let n_eq : n ≡ min bytes (size - p.pos) =
              ground (arith, open'.length, leb_false→lt _ _ more) in
            rw more (
              rw (open'.content, Returns)
                (subst
                  (λ m.
                    Returns (HasRead disc image list size p.pos buf m)
                      (read_chunks disc fuel p buf 0 n))
                  n_eq
                  (read_chunks-HasRead fuel p p.pos n buf buf 0 n (omega arith) open' (omega arith)
                    (omega arith) (Holds-start image disc.part_lba list buf 0 _ _)
                    (omega (arith, leb_false→lt _ _ more, open'.length)) (omega arith)
                    (omega arith))))
      ])
    where
      n : ℕ
      n = if ltb p.fe.length ((p.pos + bytes) % 2 ^ 64) then p.fe.length - p.pos else bytes
