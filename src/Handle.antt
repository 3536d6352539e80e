-- ===== src/Handle.antt =====
-- The handle of src/udfread.c: `struct udfread`, its settings, opening and closing a volume, and the
-- volume's identifiers. A handle is never NULL here, and allocation is taken to succeed. Of what
-- `udfread_close` frees, the cached directories are modelled.
pub mod Closing
pub mod Descriptors
pub mod Opening
use libudfread.Common.{
  ℕ, ltb, leb, ◌==◌, if◌then◌else◌, not, Bool, true, false, List, [], ◌∷◌, Option, none, some,
}
use libudfread.Common.Int.{ℤ, pos, negsuc}
use libudfread.Memory.{Heap, Buf, Mem, fault, running, done, ◌>>=◌, memcpy, zeros}
use libudfread.Ecma.{LongAd}
use libudfread.Input.{BlockInput}
use libudfread.File.{Disc}
use libudfread.Volume.{udf_probe_volume}
use libudfread.Volume.Vds.{
  VolumeDescriptorSet, partition_first, udf_read_vds, udf_validate_logical_volume,
}
use libudfread.Partition.{Partitions, no_partitions, udf_parse_partition_maps}
use libudfread.Cs0.{udf_cs0_to_mutf8}
use libudfread.Fs.{UdfFs, udf_find_root_dir}
use libudfread.Fs.Dir.{DirEntry, udf_read_dir}
use libudfread.Tree.{DirTree, root_dir, root_only, set_cell}
use libudfread.Tree.Cleaning.{Cleaning, clean_tree}

-- A log handler: fprintf to stderr, or an application's function with its context.
pub data Handler : Type 0 where
  to_stderr : Handler
  callback : ℕ → ℕ → Handler

-- struct udfread. `level` and `handler` are in `lc_storage`; `logging` is whether `fs.ecma.lc`
-- points there or is NULL. `input` and `part` are in `fs`.
pub record Udfread : Type 0 where
  pub level : ℕ
  pub handler : Handler
  pub logging : Bool
  pub input : Option BlockInput
  pub heap : Heap
  pub part : Partitions
  pub root : DirTree
  pub volume_identifier : Option (List ℕ)
  pub volume_set_identifier : Buf
  pub partition_to_open : ℤ

-- the file system and the disc of an open handle
abbrev pub fs_of : Udfread → BlockInput → UdfFs
fs_of udf input = record { input = input; heap = udf.heap; part = udf.part }

abbrev pub disc_of : Udfread → BlockInput → Disc
disc_of udf input = record { input = input; part_lba = udf.part.p0.lba }

-- UDFREAD_LOG_ERROR, UDFREAD_LOG_INFO and UDFREAD_LOG_TRACE
abbrev pub log_error : ℕ
log_error = 1

abbrev pub log_info : ℕ
log_info = 2

abbrev pub log_trace : ℕ
log_trace = 3

-- The flags are whether UDFREAD_TRACE and UDFREAD_LOG are in the environment.
unfoldable pub udfread_init : Heap → Bool → Bool → Udfread
udfread_init heap trace log = record {
  level = if trace then log_trace else if log then log_info else log_error;
  handler = to_stderr;
  logging = true;
  input = none;
  heap = heap;
  part = no_partitions;
  root = root_only [];
  volume_identifier = none;
  volume_set_identifier = zeros 128;
  partition_to_open = partition_first;
}

unfoldable pub handler_of : ℕ → Option ℕ → Handler
handler_of ctx none = to_stderr
handler_of ctx (some logger) = callback logger ctx

unfoldable pub is_open : Udfread → Bool
is_open udf = elim udf.input [ none ↦ false | some input ↦ true ]

-- The first component of a result is whether the call returns 0, and not -1.
unfoldable pub udfread_set_log : Udfread → ℕ → Option ℕ → Bool × Udfread
udfread_set_log udf ctx logger =
    if is_open udf then (false, udf) else (true, record udf { handler = handler_of ctx logger })

unfoldable pub udfread_set_log_level : Udfread → ℤ → Bool × Udfread
udfread_set_log_level udf (negsuc n) = (false, udf)
udfread_set_log_level udf (pos level) =
    if ltb log_trace level
    then (false, udf)
    else if level == 0
    then (true, record udf { logging = false })
    else (true, record udf { level = level; logging = true })

-- `partition < UDFREAD_PARTITION_LAST`
unfoldable pub is_below_last : ℤ → Bool
is_below_last (pos n) = false
is_below_last (negsuc n) = ltb 1 n

unfoldable pub udfread_select_partition : Udfread → ℤ → Bool × Udfread
udfread_select_partition udf partition =
    if is_open udf
    then (false, udf)
    else if is_below_last partition
    then (false, udf)
    else (true, record udf { partition_to_open = partition })

-- `root_dir.entries`, and a handle with other ones
abbrev pub root_entries : Udfread → List DirEntry
root_entries udf = (udf.root.cells root_dir).entries

abbrev pub set_root_entries : Udfread → List DirEntry → Udfread
set_root_entries udf entries = record udf {
  root = set_cell udf.root root_dir (record (udf.root.cells root_dir) { entries = entries });
}

-- After `udf_read_dir` on the root directory: `entries` are what it leaves, also where it fails.
unfoldable pub keep_root : Udfread → BlockInput → Bool × List DirEntry → Bool × Udfread
keep_root udf input (true, entries) =
    (true, record (set_root_entries udf entries) { input = some input })
keep_root udf input (false, entries) =
    (false, record (set_root_entries udf entries) { input = none })

-- From `udf->fs.input = input` on.
unfoldable pub open_root : ℕ → Udfread → BlockInput → LongAd → Mem (Bool × Udfread)
open_root fuel udf input fsd_location =
    let fs : UdfFs = record { input = input; heap = udf.heap; part = udf.part } in
    do
      root_icb ← udf_find_root_dir fs fuel fsd_location
      elim root_icb [
        | none ↦ done (false, record udf { input = none })
        | some icb ↦ do
          r ← udf_read_dir fs fuel icb (root_entries udf)
          done (keep_root udf input r)
      ]

-- From the Volume Identifier on.
unfoldable pub open_logical_volume :
    ℕ → Udfread → BlockInput → VolumeDescriptorSet → LongAd → Mem (Bool × Udfread)
open_logical_volume fuel udf input vds fsd_location = do
  identifier ← udf_cs0_to_mutf8 vds.pvd.volume_identifier vds.pvd.volume_identifier_length
  set_identifier ← memcpy udf.volume_set_identifier vds.pvd.volume_set_identifier 0 128
  (mapped, part) ← udf_parse_partition_maps input vds.pd vds.lvd udf.part
  let udf' : Udfread = record udf {
    part = part;
    volume_identifier = identifier;
    volume_set_identifier = set_identifier;
  }
  elim mapped [ false ↦ done (false, udf') | true ↦ open_root fuel udf' input fsd_location ]

unfoldable pub open_volume :
    ℕ → Udfread → BlockInput → Option VolumeDescriptorSet → Mem (Bool × Udfread)
open_volume fuel udf input none = done (false, udf)
open_volume fuel udf input (some vds) = do
  location ← udf_validate_logical_volume vds.lvd
  elim location [
    | none ↦ done (false, udf)
    | some fsd_location ↦ open_logical_volume fuel udf input vds fsd_location
  ]

-- `fuel` bounds the rounds of each search on the disc.
unfoldable pub udfread_open_input : ℕ → Udfread → BlockInput → Mem (Bool × Udfread)
udfread_open_input fuel udf input = elim udf.input [
  | some already ↦ done (false, udf)
  | none ↦ do
    known ← udf_probe_volume input
    elim known [
      | false ↦ done (false, udf)
      | true ↦ do
        vds ← udf_read_vds input udf.partition_to_open fuel
        open_volume fuel udf input vds
    ]
]

-- The result of `udfread_open`, with the inputs that it closes.
pub record Opened : Type 0 where
  pub ok : Bool
  pub udf : Udfread
  pub closed : List BlockInput

abbrev pub closed_unless : BlockInput → Bool × Udfread → Opened
closed_unless input (true, udf) = record { ok = true; udf = udf; closed = [] }
closed_unless input (false, udf) = record { ok = false; udf = udf; closed = input ∷ [] }

-- `block_input_new` is what it returns for the path, with a `close` function; NULL is `none`.
unfoldable pub udfread_open : (List ℕ → Option BlockInput) → ℕ → Udfread → List ℕ → Mem Opened
udfread_open block_input_new fuel udf [] = done (record { ok = false; udf = udf; closed = [] })
udfread_open block_input_new fuel udf (ch ∷ path) = elim (block_input_new (ch ∷ path)) [
  | none ↦ done (record { ok = false; udf = udf; closed = [] })
  | some input ↦ do r ← udfread_open_input fuel udf input; done (closed_unless input r)
]

-- the input that the handle has
abbrev pub held : Udfread → List BlockInput
held udf = elim udf.input [ none ↦ [] | some input ↦ input ∷ [] ]

-- The inputs that `udfread_close` closes, and the directories of the cache that it frees.
pub record Closed : Type 0 where
  pub closed : List BlockInput
  pub freed : List ℕ

-- The depth of the cache is at most the number of its directories.
unfoldable pub udfread_close : Udfread → Mem Closed
udfread_close udf = do
  cleaned ← clean_tree udf.root.used (record { tree = udf.root; freed = [] }) root_dir
  done (record { closed = held udf; freed = cleaned.freed })

unfoldable pub udfread_get_volume_id : Udfread → Option (List ℕ)
udfread_get_volume_id udf = udf.volume_identifier

-- `size` bytes, or the 128 that there are, into `buffer`; the result is the size of the array.
unfoldable pub udfread_get_volume_set_id : Udfread → Buf → ℕ → Mem (ℕ × Buf)
udfread_get_volume_set_id udf buffer size = do
  let n = if ltb udf.volume_set_identifier.len size then udf.volume_set_identifier.len else size
  buffer' ← memcpy buffer udf.volume_set_identifier 0 n
  done (udf.volume_set_identifier.len, buffer')
