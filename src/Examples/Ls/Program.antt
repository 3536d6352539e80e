-- ===== src/Examples/Ls/Program.antt =====
-- The program examples/udfls.c as a whole, on any disc.
use libudfread.Common.{ℕ, ◌≡◌, ◌≢◌, true, List, [], Option, none, some}
use libudfread.Common.Int.{ℤ}
use libudfread.Memory.{done}
use libudfread.Input.{BlockInput}
use libudfread.File.Safety.{IsModest}
use libudfread.Path.Safety.{Every}
use libudfread.Handle.{Udfread, Opened, udfread_open}
use libudfread.Handle.Closing.{inputs_made}
use libudfread.Session.{Session}
use libudfread.Examples.{Exit}
use libudfread.Examples.Ls.Main.{Report, Arguments, arguments, select, path_or_empty}

-- an exit that has closed these inputs
abbrev pub HasClosed : List BlockInput → Exit Report → Type 0
HasClosed closed e = e.closed ≡ closed

-- the inputs that are made for the arguments
unfoldable pub inputs_for :
    (List ℕ → Option BlockInput) → (List ℕ → ℤ) → List (List ℕ) → List BlockInput
inputs_for block_input_new atoi argv = elim (arguments atoi argv) [
  | none ↦ []
  | some args ↦ inputs_made block_input_new (path_or_empty args.path)
]

module _ (block_input_new : List ℕ → Option BlockInput) (fuel rounds : ℕ)
    (all_modest : (path : List ℕ) → Every IsModest (block_input_new path)) where
  -- The volume that is opened for the arguments, if there is one, has an identifier that could be
  -- converted.
  abbrev pub IsNamed : Udfread → Arguments → Type 0
  IsNamed new args =
      (o : Opened)
      → udfread_open block_input_new fuel (select new args.partition) (path_or_empty args.path)
        ≡ done o
      → o.ok ≡ true
      → o.udf.volume_identifier ≢ none
