-- ===== src/Examples.antt =====
-- The example programs of the repository.
pub mod Cat
pub mod Ls
use libudfread.Common.{List}
use libudfread.Common.Int.{ℤ}
use libudfread.Input.{BlockInput}

-- How a program ends: its exit code, what it has printed, and the inputs that it has closed.
pub record Exit (A : Type 0) : Type 0 where
  pub code : ℤ
  pub printed : A
  pub closed : List BlockInput
