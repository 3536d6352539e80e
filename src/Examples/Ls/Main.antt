-- ===== src/Examples/Ls/Main.antt =====
-- `main` of examples/udfls.c.
use libudfread.Common.{ℕ, Bool, if◌then◌else◌, List, [], ◌∷◌, ◌++◌, Option, none, some}
use libudfread.Common.Int.{ℤ, pos, negsuc, leb_ℤ}
use libudfread.Memory.{Heap, Mem, fault, done, ◌>>=◌}
use libudfread.Input.{BlockInput}
use libudfread.Directory.{UdfDir, same_name}
use libudfread.Tree.{DirTree}
use libudfread.Path.{udfread_opendir}
use libudfread.Handle.{
  Udfread, Opened, fs_of, udfread_init, udfread_select_partition, udfread_open, udfread_close,
  udfread_get_volume_id,
}
use libudfread.Examples.{Exit}
use libudfread.Examples.Ls.{Line, lsdir_at}

-- What it prints: the volume identifier, if the volume opens, and the lines, unless the root
-- directory cannot be opened.
pub record Report : Type 0 where
  pub volume : Option (List ℕ)
  pub lines : Option (List Line)

abbrev pub no_report : Report
no_report = record { volume = none; lines = none }

-- The arguments: the number behind -p (or -1), and argv[1], which is NULL where there is no more.
pub record Arguments : Type 0 where
  pub partition : ℤ
  pub path : Option (List ℕ)

unfoldable pub first_of : List (List ℕ) → Option (List ℕ)
first_of [] = none
first_of (arg ∷ more) = some arg

-- `none` is the usage message. `atoi` is the function of the C library.
unfoldable pub arguments : (List ℕ → ℤ) → List (List ℕ) → Option Arguments
arguments atoi [] = none
arguments atoi (program ∷ []) = none
arguments atoi (program ∷ arg ∷ []) = some (record { partition = negsuc 0; path = some arg })
arguments atoi (program ∷ arg ∷ number ∷ more) =
    if same_name arg (b'-' ∷ b'p' ∷ [])
    then some (record { partition = atoi number; path = first_of more })
    else some (record { partition = negsuc 0; path = some arg })

-- `if (partition != -1)`
unfoldable pub select : Udfread → ℤ → Udfread
select udf partition =
    if leb_ℤ partition (negsuc 0)
    then if leb_ℤ (negsuc 0) partition then udf else (udfread_select_partition udf partition).1
    else (udfread_select_partition udf partition).1

-- udfread_close, and the exit
unfoldable pub close_and_exit : ℤ → Report → List BlockInput → Udfread → Mem (Exit Report)
close_and_exit code report closed udf = do
  c ← udfread_close udf
  done (record { code = code; printed = report; closed = closed ++ c.closed })

-- what is listed, and the cache behind it
unfoldable pub list_root :
    ℕ → ℕ → Udfread → BlockInput → Option UdfDir × DirTree → Mem (Option (List Line) × DirTree)
list_root fuel rounds udf input (none, t) = done (none, t)
list_root fuel rounds udf input (some root, t) = do
  r ← lsdir_at (fs_of udf input) fuel rounds t root (b'/' ∷ [])
  done (some r.0, r.1)

-- What `%s` prints. It is undefined for NULL.
unfoldable pub print_string : Option (List ℕ) → Mem (List ℕ)
print_string none = fault
print_string (some text) = done text

-- udfread_open with NULL fails, as with an empty path.
unfoldable pub path_or_empty : Option (List ℕ) → List ℕ
path_or_empty none = []
path_or_empty (some path) = path

module _ (block_input_new : List ℕ → Option BlockInput) (fuel rounds : ℕ) where
  -- From the volume identifier on. A handle that is open has an input.
  unfoldable pub list_volume : Opened → Mem (Exit Report)
  list_volume o = do
    name ← print_string (udfread_get_volume_id o.udf)
    elim o.udf.input [
      | none ↦ close_and_exit (pos 1) (record { volume = some name; lines = none }) o.closed o.udf
      | some input ↦ do
        root ← udfread_opendir (fs_of o.udf input) fuel o.udf.root (b'/' ∷ [])
        listed ← list_root fuel rounds o.udf input root
        close_and_exit (pos 1) (record { volume = some name; lines = listed.0 }) o.closed
            (record o.udf { root = listed.1 })
    ]

  -- The message has argv[1].
  unfoldable pub open_failed : Opened → Option (List ℕ) → Mem (Exit Report)
  open_failed o path = do
    name ← print_string path
    close_and_exit (negsuc 0) no_report o.closed o.udf

  unfoldable pub run_ls : Udfread → Arguments → Mem (Exit Report)
  run_ls new args = do
    o ← udfread_open block_input_new fuel (select new args.partition) (path_or_empty args.path)
    if o.ok then list_volume o else open_failed o args.path

  -- `trace` and `log` are the environment's. It returns 1 where the volume could be opened.
  unfoldable pub main_ls : Heap → Bool → Bool → (List ℕ → ℤ) → List (List ℕ) → Mem (Exit Report)
  main_ls heap trace log atoi argv = elim (arguments atoi argv) [
    | none ↦ done (record { code = negsuc 0; printed = no_report; closed = [] })
    | some args ↦ run_ls (udfread_init heap trace log) args
  ]
