-- ===== src/Lib.antt =====
-- libudfread reads UDF file systems (ECMA 167 with OSTA UDF) from a block device. This library
-- models its core and proves what it does, on any contents of the device.
--
-- Parts, and how they interact. A caller supplies a block input, two callbacks that read blocks
-- and tell the size of the image. The volume layer finds the anchor, searches the volume descriptor
-- sequences and reads the partition maps. The file system layer reads metadata from a partition or
-- its mirror, finds the root directory, and reads file entries and directories. An open file maps
-- its blocks to the disc through its allocation descriptors; a byte stream with a one-block buffer
-- and a position stands on the block reads. A handle ties these together: it opens a volume, keeps
-- the directories that path lookup has read in a cache that threads share, and opens directories and
-- files by path. The default block input reads an image file. All layers decode bytes with the
-- decoders of ECMA 167. Two example programs stand on the interface: one lists all directories, the
-- other writes a file to the standard output.
--
-- Files, and the code that they model:
--   Common     shared names, Boolean tests, lists, integers and bits over the native numbers
--   Memory     C memory: `Mem` has a fault (an access outside an array, or an undefined operation),
--              a loop that still runs, and a result; `Buf` is an array of uint8_t; src/ecma167.h
--              _get_u8 to _get_u64
--   Ecma       src/ecma167.c: decode_descriptor_tag, decode_primary_volume, decode_avdp, decode_vdp,
--              decode_partition, decode_logical_volume, decode_file_set_descriptor,
--              decode_file_identifier, decode_long_ad and its kin; Ecma/Tag the tag checksum
--   FileEntry  src/ecma167.c: decode_file_entry, decode_ext_file_entry, decode_allocation_extent;
--              the union of struct file_entry is the data type `Content`
--   Input      src/blockinput.h and _read_blocks of src/udfread.c; `Reads` states what the code
--              relies on of the callback
--   Cs0        src/udf_fs.c: udf_cs0_to_mutf8; Cs0/Spec and Cs0/Strings say what a string means
--   Volume     src/udf_volume.c: udf_probe_volume, _read_avdp; Volume/Vds: _search_vds,
--              udf_read_vds, udf_validate_logical_volume
--   Partition  src/udf_volume.c: _map_metadata_partition, udf_parse_partition_maps
--   Fs         src/udf_fs.c: _partition_index, _read_metadata_blocks, _read_metadata,
--              udf_find_root_dir, udf_read_file_entry; Fs/Dir: _parse_dir_file, _read_dir_file,
--              udf_read_dir
--   File       src/udfread.c: _file_lba, udfread_file_lba, udfread_read_blocks; File/Bytes says
--              what the bytes of a file are, File/Safety has block reads on any disc, with an input
--              that does not claim more blocks than it was asked for
--   Stream     src/udfread.c: udfread_file_read, _read, _read_inline, udfread_file_seek,
--              udfread_file_tell, udfread_file_size; Stream/Pieces and Stream/Safety any file and disc
--   Directory  src/udfread.c: udfread_readdir, udfread_rewinddir, _scan_dir
--   Tree       src/udfread.c: struct udf_dir and _cache_subdir, on a store of directories in which a
--              pointer is a number; Tree/Reading says what a cache must hold, Tree/Forest its shape;
--              Tree/Cleaning _clean_tree
--   Path       src/udfread.c: _find_file, udfread_opendir, udfread_opendir_at, _file_open,
--              udfread_file_open, udfread_file_openat; Path/Lookup has the walk without a cache,
--              Path/Open what is opened, Path/Tokens what strtok_r gives, Path/Safety and
--              Path/Files any disc
--   Handle     src/udfread.c: udfread_init, udfread_set_log, udfread_set_log_level,
--              udfread_select_partition, udfread_open_input (Handle/Opening), udfread_open and
--              udfread_close (Handle/Closing), which also cleans the cache,
--              udfread_get_volume_id, udfread_get_volume_set_id
--   Session    the calls of src/udfread.h in any order on one handle, with the directories and
--              files that they return; Session/State the invariants of all parts together and what a
--              program must keep to, Session/Keeps, Session/Calls and Session/Steps one call,
--              Session/Runs whole programs up to udfread_close
--   Sharing    src/udfread.c: _cache_subdir by several threads, a step for each access to shared
--              memory; Sharing/Invariant what holds between steps, Sharing/Moves and
--              Sharing/Worlds what the exchanges do, Sharing/Steps one step, Sharing/Results runs,
--              Sharing/Alone and Sharing/Call a thread that runs alone
--   DefaultInput  src/default_blockinput.c: _def_read, _def_size, _def_close, block_input_new;
--              DefaultInput/Emulated pread_impl, a step for each system call of several threads;
--              DefaultInput/Windows pread and _open_win32 on that system
--   Examples   the example programs: Examples/Ls and Examples/Ls/Main examples/udfls.c, with
--              _lsdir_at and main, Examples/Cat examples/udfcat.c, with _cat and main; what they
--              print is a list
--   Tests      small discs, and the theorems applied to them
--
-- Correspondence. Functions and fields keep the names of the source. A pointer is an array with an
-- offset; a struct is a record, passed and returned; -1 and NULL are `none` (or `false`). Arithmetic
-- of a fixed width is written out with its wrap-around. A helper that the source has no name for is
-- the body of a loop, a branch of a switch, or the rest of a function behind a test.
--
-- Fuel. Loops whose number of rounds is known at the start recurse on it. udfread_read_blocks gets
-- a round for each block and one more, _parse_dir_file and udf_parse_partition_maps one for each
-- byte and one more: each round takes a block or some bytes, so this is enough, and the theorems
-- that say these functions return include that. udfread_file_read takes its fuel as an argument,
-- with more rounds than bytes as a hypothesis. _search_vds, udf_find_root_dir and
-- udf_read_file_entry take fuel because a disc can make them run for ever, and so do the functions
-- that call them. _def_read takes fuel because each call of pread may be interrupted; a round for
-- each byte and for each interrupted call is enough. The depth of _clean_tree is at most the number
-- of directories, which udfread_close takes for its fuel. _lsdir_at takes fuel because a directory may
-- contain itself; _cat needs a round for each byte of the file and one more.
--
-- Memory. Allocation is taken to succeed, but for the realloc of a list of descriptors, whose number
-- is a 32-bit sum: `Heap` is whether realloc gives an array of some size, and its law `bounded` says
-- that it gives none of 46 GiB or more. This is what keeps the sum from wrapping round, on any disc.
--
-- Not modelled. Freeing and messages are left out, but for the directories of the cache and for what
-- the examples print. Handles are values, so calls with a NULL handle are not there, and
-- lookups are on a handle that is open. The callbacks of the block input are functions: the same
-- read gives the same answer. The memory that threads share is sequentially consistent, and calls of
-- a program are one behind the other, but for _cache_subdir and pread_impl. The other calls of free
-- in udfread_close, udfread_closedir, udfread_file_close and _def_close, the logger, the version and
-- the tests are not modelled. _def_size moves the position that pread_impl uses without its lock;
-- this is not among the steps of pread_impl.
pub mod Common
pub mod Memory
pub mod Ecma
pub mod FileEntry
pub mod Input
pub mod File
pub mod Stream
pub mod Cs0
pub mod Volume
pub mod Partition
pub mod Fs
pub mod Directory
pub mod Tree
pub mod Path
pub mod Handle
pub mod Session
pub mod Sharing
pub mod DefaultInput
pub mod Examples
pub mod Tests
