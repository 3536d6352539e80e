-- ===== src/Tests/Programs.antt =====
-- The example programs on the disc with one file, and on one with a directory that contains itself.
use libudfread.Common.{
  ℕ, ◌≡◌, refl, arith, ◌==◌, if◌then◌else◌, List, [], ◌∷◌, some, none, false, get_or, ltb, ◌-◌,
}
use libudfread.Common.Int.{pos}
use libudfread.Memory.{
  Returns, done, running, store, memcpy, zeros, put_u8, get_u8, get_u16, get_u32, get_u64,
}
use libudfread.Ecma.{decode_descriptor_tag, add_bytes, decode_file_identifier, decode_long_ad}
use libudfread.FileEntry.{
  decode_file_entry, decode_sized_entry, decode_entry, decode_icb_tag, decode_content, make_entry,
}
use libudfread.Input.{blocks}
use libudfread.Volume.{read_block, read_descriptor_block, is_tag}
use libudfread.Partition.{no_part}
use libudfread.Cs0.{emit, grow, utf16lo_to_mutf8, convert_8, terminate, udf_cs0_to_mutf8}
use libudfread.Fs.{
  UdfFs, partition_index, read_first, or_mirror, read_following, read_rest, with_rest,
  read_metadata_blocks, read_metadata, udf_read_file_entry, entry_of, complete_entry,
}
use libudfread.Fs.Dir.{
  DirEntry, udf_read_dir, read_dir_content, parse_dir_file, is_empty_name, add_named, add_entry,
  take_identifier, dir_step, parse_loop,
}
use libudfread.Directory.{UdfDir, file_at, dirent_of, same_name}
use libudfread.Stream.{udfread_file_size, signed64}
use libudfread.Tree.{root_only, pointer_in}
use libudfread.Tree.Reading.{IsTree, read_entries, subdir_entries}
use libudfread.Path.{file_open, new_file}
use libudfread.Path.Lookup.{named}
use libudfread.Handle.{Udfread, udfread_init, held}
use libudfread.Examples.Cat.{cat_path}
use libudfread.Examples.Cat.Writes.{HasCat}
use libudfread.Examples.Cat.Program.{IsCatExit, cat_path_lem}
use libudfread.Examples.Ls.{Line, file_line, is_dot, line_of, lsdir_at}
use libudfread.Examples.Ls.Lists.{dir_named, file_named, Lists, over, shows}
use libudfread.Examples.Ls.Prints.{IsPrinted, lsdir_at_lem}
use libudfread.Examples.Ls.Cycle.{lsdir_at-running}
use libudfread.Tests.Demo.{small_heap, extents, entry}
use libudfread.Tests.Paths.{
  image, input, disc, fs, file_a, tree, place_a, path_a, tree-IsTree, disc-IsReadable, walk_a,
  entry_a,
}

-- the volume, open
abbrev udf : Udfread
udf = record (udfread_init small_heap false false) {
  input = some input;
  part = fs.part;
  root = tree;
}

cat_path_lem_example :
    Returns
      (IsCatExit (HasCat disc image extents 5000) (held udf))
      (cat_path 10 2049 5001 (zeros 2048) udf [] path_a)
unfolding udfread_init
cat_path_lem_example =
    cat_path_lem udf input 10 image extents 5000 2049 5001 (zeros 2048) [] path_a place_a file_a
      entry refl tree-IsTree walk_a refl refl entry_a refl refl disc-IsReadable (omega arith) refl
      (omega arith) (omega arith)

-- The root directory, with its file.
abbrev root : UdfDir
root = record { dir = 0; files = file_a ∷ []; current_file = 0 }

abbrev listing : List Line
listing = file_line (pos 5000) (b'/' ∷ []) (b'A' ∷ []) ∷ []

file_a_opens : file_named fs 10 (file_a ∷ []) (b'A' ∷ []) ≡ done (new_file (some entry))
unfolding file_named named same_name file_open
file_a_opens = rw entry_a refl

root-Lists : Lists fs 10 2 (file_a ∷ []) 0 (b'/' ∷ []) listing
unfolding file_at dirent_of is_dot same_name line_of new_file udfread_file_size signed64
root-Lists = shows file_a (new_file (some entry)) refl refl refl file_a_opens (over refl)

lsdir_at_lem_example :
    Returns (IsPrinted fs 10 tree listing) (lsdir_at fs 10 2 tree root (b'/' ∷ []))
lsdir_at_lem_example =
    lsdir_at_lem fs 10 2 (file_a ∷ []) 0 (b'/' ∷ []) listing root-Lists 2 (omega arith) tree root
      tree-IsTree (record { inside = omega arith; cached = refl; listed = refl; at = refl })

-- The file entry of a directory that has its own name in it, in block 3 of the partition.
abbrev head : List ℕ
head =
    5 ∷ 1 ∷ 3 ∷ 0 ∷ 9 ∷ 0 ∷ 0 ∷ 0 ∷ 0 ∷ 0 ∷ 0 ∷ 0 ∷ 0 ∷ 0 ∷ 0 ∷ 0 ∷ 0 ∷ 0 ∷ 0 ∷ 0 ∷ 4 ∷ 0 ∷ 0 ∷ 0
    ∷ 0 ∷ 0 ∷ 0 ∷ 4 ∷ 0 ∷ 0 ∷ 0 ∷ 0 ∷ 0 ∷ 0 ∷ 3 ∷ []

abbrev identifier : List ℕ
identifier =
    1 ∷ 1 ∷ 3 ∷ 0 ∷ 5 ∷ 0 ∷ 0 ∷ 0 ∷ 0 ∷ 0 ∷ 0 ∷ 0 ∷ 0 ∷ 0 ∷ 0 ∷ 0 ∷ 0 ∷ 0 ∷ 2 ∷ 2 ∷ 0 ∷ 8 ∷ 0 ∷ 0
    ∷ 3 ∷ 0 ∷ 0 ∷ 0 ∷ 0 ∷ 0 ∷ 0 ∷ 0 ∷ 0 ∷ 0 ∷ 0 ∷ 0 ∷ 0 ∷ 0 ∷ 8 ∷ b'D' ∷ []

abbrev cycle_bytes : ℕ → ℕ
cycle_bytes i =
    if i == 172 then 40 else if ltb i 176 then get_or head i 0 else get_or identifier (i - 176) 0

abbrev cycle : UdfFs
cycle = record {
  input = record { read = λ lba n flags. (blocks n, cycle_bytes); size = none };
  heap = small_heap;
  part = record {
    num_partition = 1;
    p0 = record { number = 0; lba = 16; mirror_lba = 0 };
    p1 = no_part;
  };
}

abbrev folder : DirEntry
folder = record {
  filename = b'D' ∷ [];
  icb = record { lba = 3; length = 2048; partition = 0; extent_type = 0 };
  characteristic = 2;
}

folder_itself : dir_named cycle 10 (folder ∷ []) (b'D' ∷ []) ≡ done (some (folder ∷ []))
unfolding dir_named named same_name subdir_entries read_entries udf_read_dir read_dir_content
    parse_dir_file parse_loop dir_step take_identifier add_entry add_named is_empty_name
    decode_file_identifier decode_long_ad udf_cs0_to_mutf8 convert_8 utf16lo_to_mutf8 emit grow
    terminate udf_read_file_entry read_metadata read_metadata_blocks partition_index read_first
    or_mirror with_rest read_rest read_following read_descriptor_block read_block
    decode_descriptor_tag add_bytes store memcpy decode_file_entry decode_sized_entry decode_entry
    decode_icb_tag decode_content make_entry entry_of complete_entry put_u8 get_u8 get_u16 get_u32
    get_u64 is_tag
folder_itself = refl

cycle_tree-IsTree : IsTree cycle 10 (root_only (folder ∷ []))
unfolding pointer_in
cycle_tree-IsTree = record {
  has_root = omega arith;
  forest = record { up = λ d i c p. absurd cc; unique = λ d i e j c p q. absurd cc };
  linked = λ d i c lt e. cc;
}

lsdir_at-running_example :
    lsdir_at cycle 10 1000
      (root_only (folder ∷ []))
      (record { dir = 0; files = folder ∷ []; current_file = 0 })
      (b'/' ∷ [])
    ≡ running
unfolding file_at dirent_of is_dot same_name
lsdir_at-running_example =
    lsdir_at-running cycle 10 (folder ∷ []) folder refl refl refl folder_itself 1000
      (root_only (folder ∷ [])) (record { dir = 0; files = folder ∷ []; current_file = 0 })
      (b'/' ∷ []) cycle_tree-IsTree
      (record { inside = omega arith; cached = refl; listed = refl; at = refl })

-- The disc has no recognition area.
abbrev ls_arguments : List (List ℕ)
ls_arguments = (b'l' ∷ []) ∷ path_a ∷ []
