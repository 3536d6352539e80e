-- ===== src/Stream/Seek.antt =====
-- `udfread_file_seek` and `udfread_file_tell` of src/udfread.c.
use libudfread.Common.{
  ℕ, ◌-◌, ◌^◌, ◌≤◌, ◌<◌, ◌≡◌, arith, ◌==◌, false, List, min, if◌then◌else◌, ◌⊎◌,
}
use libudfread.Common.Int.{ℤ, pos, negsuc, ◌+ℤ◌}
use libudfread.Memory.{Buf, done, Returns, ◌>>=◌}
use libudfread.Ecma.{LongAd}
use libudfread.File.{Disc}
use libudfread.File.Blocks.{IsReadable}
use libudfread.Stream.Chunk.{IsOpen}
use libudfread.Stream.Read.{HasRead, udfread_file_read_lem}
use libudfread.Stream.{
  UdfFile, signed64, udfread_file_tell, udfread_file_size, add_signed, seek_set, seek_cur, seek_end,
  seek_target, seek_to, udfread_file_seek, udfread_file_read,
}

-- where a seek counts from
abbrev pub origin : UdfFile → ℕ → ℤ
origin p whence =
    if whence == seek_cur then pos p.pos else if whence == seek_end then pos p.fe.length else pos 0

-- A seek that succeeded: the result, the position and the next tell are the target, and the block
-- buffer is dropped.
abbrev pub IsSeek : UdfFile → ℕ → ℤ × UdfFile → Type 0
IsSeek p n (r, p') =
    (r ≡ pos n)
    × (p'.pos ≡ n)
    × (udfread_file_tell p' ≡ pos n)
    × (p'.block_valid ≡ false)
    × (p'.fe ≡ p.fe)
    × (p'.block ≡ p.block)

-- `udfread_file_seek` by each `whence` to a target inside the range of int64_t.
pub udfread_file_seek_lem :
    (p : UdfFile) (offset : ℤ) (whence n : ℕ)
    → whence ≤ 2
    → p.pos < 2 ^ 63
    → p.fe.length < 2 ^ 63
    → n < 2 ^ 63
    → origin p whence +ℤ offset ≡ pos n
    → Returns (IsSeek p n) (udfread_file_seek p offset whence)
unfolding udfread_file_seek seek_target seek_to add_signed udfread_file_tell udfread_file_size
    signed64 ◌+ℤ◌
udfread_file_seek_lem p offset whence n hw hp hl hn e = ground arith

-- A seek before the start of the file, or by an unknown `whence`, returns -1 and changes nothing.
pub udfread_file_seek_refused :
    (p : UdfFile) (offset : ℤ) (whence n : ℕ)
    → p.pos < 2 ^ 63
    → p.fe.length < 2 ^ 63
    → n < 2 ^ 63
    → (origin p whence +ℤ offset ≡ negsuc n) ⊎ (2 < whence)
    → udfread_file_seek p offset whence ≡ done (negsuc 0, p)
unfolding udfread_file_seek seek_target seek_to add_signed udfread_file_tell udfread_file_size
    signed64 ◌+ℤ◌
udfread_file_seek_refused p offset whence n hp hl hn e = ground arith

seek_set_lem :
    (p : UdfFile) (n : ℕ)
    → n < 2 ^ 63
    → udfread_file_seek p (pos n) seek_set ≡ done (pos n, record p { pos = n; block_valid = false })
unfolding udfread_file_seek seek_target seek_to udfread_file_tell signed64
seek_set_lem p n hn = ground arith

-- A seek to byte `n` of a file with extents and then a read of less than 4 GiB: the bytes of the
-- file from `n` on, whatever was read before.
pub seek_then_read :
    (disc : Disc) (image : ℕ → ℕ) (list : List LongAd) (size : ℕ)
    → IsReadable disc image size list
    → size ≤ 2 ^ 43 - 2048
    → (p : UdfFile) (buf : Buf) (n bytes fuel : ℕ) → IsOpen disc image list size p
    → n < 2 ^ 63
    → bytes < 2 ^ 32
    → bytes ≤ buf.len
    → bytes < fuel
    → Returns
        (HasRead disc image list size n buf (min bytes (size - n)))
        (udfread_file_seek p (pos n) seek_set >>= λ r. udfread_file_read disc fuel r.1 buf bytes)
seek_then_read disc image list size good small p buf n bytes fuel open' hn narrow inside hf =
    rw (seek_set_lem p n hn) (
      udfread_file_read_lem disc image list size good small
        (record p { pos = n; block_valid = false }) buf bytes fuel
        (record {
          content = open'.content;
          length = open'.length;
          room = open'.room;
          cached = λ ne v. cc;
        })
        narrow inside hf)
