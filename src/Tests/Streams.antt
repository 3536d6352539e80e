-- ===== src/Tests/Streams.antt =====
-- Reads and seeks of the file on the demonstration disc.
use libudfread.Common.{ℕ, ◌-◌, ◌^◌, ◌≡◌, refl, arith, min, List, [], ◌∷◌, inl, false}
use libudfread.Common.Int.{pos, negsuc, ◌+ℤ◌}
use libudfread.Memory.{Returns, done, running, zeros, buf_of, ◌>>=◌}
use libudfread.Ecma.{LongAd}
use libudfread.FileEntry.{ads, inline}
use libudfread.File.{ad_blocks, udfread_read_blocks}
use libudfread.File.Blocks.{IsReadable}
use libudfread.File.Read.{IsServed, udfread_read_blocks_lem}
use libudfread.Stream.{UdfFile, udfread_file_read, udfread_file_seek, seek_set}
use libudfread.Stream.Chunk.{IsOpen}
use libudfread.Stream.Read.{HasRead, udfread_file_read_lem}
use libudfread.Stream.Inline.{IsInlineRead, udfread_file_read-inline}
use libudfread.Stream.Seek.{udfread_file_seek_refused, seek_then_read}
use libudfread.Stream.Wrap.{udfread_file_read-running}
use libudfread.Tests.Demo.{
  image, demo, extents, demo-IsReadable, entry, opened, opened-IsOpen, image_input-Reads,
  image_input-Delivers,
}

udfread_file_read_lem_example :
    Returns
      (HasRead demo image extents 5000 100 (zeros 4900) (min 4900 (5000 - 100)))
      (udfread_file_read demo 4901 opened (zeros 4900) 4900)
udfread_file_read_lem_example =
    udfread_file_read_lem demo image extents 5000 demo-IsReadable (omega arith) opened (zeros 4900)
      4900 4901 opened-IsOpen (omega arith) (omega arith) (omega arith)

udfread_read_blocks_lem_example :
    Returns
      (IsServed demo image entry extents (zeros 6144) 0 0 3)
      (udfread_read_blocks demo entry (zeros 6144) 0 0 3 0)
udfread_read_blocks_lem_example =
    udfread_read_blocks_lem demo image entry extents refl demo-IsReadable (zeros 6144) 0 0 3 0
      (omega arith) (omega arith) (omega arith)

-- 3 bytes of data in a file of 5
abbrev small : UdfFile
small = record {
  fe = record { length = 5; file_type = 5; ad_type = 3; u = inline (buf_of (7 ∷ 8 ∷ 9 ∷ [])) };
  pos = 1;
  block = zeros 2048;
  block_valid = false;
}

udfread_file_read-inline_example :
    Returns
      (IsInlineRead (buf_of (7 ∷ 8 ∷ 9 ∷ [])) small (zeros 10) (min 10 (5 - 1)))
      (udfread_file_read demo 0 small (zeros 10) 10)
udfread_file_read-inline_example =
    udfread_file_read-inline demo 0 small (buf_of (7 ∷ 8 ∷ 9 ∷ [])) (zeros 10) 10 refl (omega arith)
      (omega arith) (omega arith)

udfread_file_seek_refused_example :
    udfread_file_seek opened (negsuc 100) 1 ≡ done (negsuc 0, opened)
unfolding ◌+ℤ◌
udfread_file_seek_refused_example =
    udfread_file_seek_refused opened (negsuc 100) 1 0 (omega arith) (omega arith) (omega arith)
      (inl refl)

seek_then_read_example :
    Returns (HasRead demo image extents 5000 3000 (zeros 2000) (min 2000 (5000 - 3000))) (
      udfread_file_seek opened (pos 3000) seek_set >>= λ r.
      udfread_file_read demo 2001 r.1 (zeros 2000) 2000)
seek_then_read_example =
    seek_then_read demo image extents 5000 demo-IsReadable (omega arith) opened (zeros 2000) 3000
      2000 2001 opened-IsOpen (omega arith) (omega arith) (omega arith) (omega arith)

-- a file of 5368698880 bytes, in five extents
abbrev large_extent : ℕ → LongAd
large_extent lba = record { lba = lba; length = 1073739776; partition = 0; extent_type = 0 }

abbrev large_extents : List LongAd
large_extents =
    large_extent 1000
    ∷ large_extent 600000
    ∷ large_extent 1200000
    ∷ large_extent 1800000
    ∷ large_extent 2400000
    ∷ []

large-IsReadable : IsReadable demo image 5368698880 large_extents
unfolding ad_blocks
large-IsReadable = record {
  countable = omega arith;
  fits = (omega arith, (omega arith, (omega arith, (omega arith, (omega arith, tt)))));
  reads = image_input-Reads;
}

abbrev large : UdfFile
large = record {
  fe = record { length = 5368698880; file_type = 5; ad_type = 0; u = ads large_extents };
  pos = 0;
  block = zeros 2048;
  block_valid = false;
}

large-IsOpen : IsOpen demo image large_extents 5368698880 large
large-IsOpen = record { content = refl; length = refl; room = refl; cached = λ ne v. cc }

udfread_file_read-running_example :
    udfread_file_read demo 1000 large (zeros (2 ^ 32)) (2 ^ 32) ≡ running
udfread_file_read-running_example =
    udfread_file_read-running demo image large_extents 5368698880 large-IsReadable (omega arith)
      image_input-Delivers large (zeros (2 ^ 32)) (2 ^ 32) 1000 large-IsOpen (omega arith)
      (omega arith) (omega arith) (omega arith) (omega arith)
