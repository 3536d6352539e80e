-- ===== src/Tests/Sessions.antt =====
-- A program that has made two calls on a new handle.
use libudfread.Common.{ℕ, refl, arith, List, Option, some, false}
use libudfread.Common.Int.{pos}
use libudfread.Memory.{Returns, Safe, zeros}
use libudfread.Input.{BlockInput, count}
use libudfread.Tests.Demo.{small_heap, demo, entry, opened, image_input}
use libudfread.Stream.{udfread_file_read}
use libudfread.File.Safety.{IsModest}
use libudfread.Stream.Safety.{IsFileState, IsSafeRead, udfread_file_read-Safe}
use libudfread.Handle.{
  is_open, is_below_last, udfread_init, udfread_select_partition, udfread_close,
}
use libudfread.Session.{Session, select_partition, call_opendir, step, new_session}
use libudfread.Session.Runs.{Run, ready, called, IsClosing, calls_then_close}

abbrev new_input : List ℕ → Option BlockInput
new_input path = some image_input

input-IsModest : IsModest image_input
unfolding count
input-IsModest lba n flags = omega arith

-- partition 1 is selected, and a directory is opened too early
abbrev session : Session
session = record (new_session small_heap false false) {
  udf = record (udfread_init small_heap false false) { partition_to_open = pos 1 };
}

session-Run : Run new_input 10 (new_session small_heap false false) session
unfolding step new_session udfread_init udfread_select_partition is_open is_below_last call_opendir
session-Run = called (select_partition (pos 1)) ready tt refl

calls_then_close_example : Returns (IsClosing session.udf) (udfread_close session.udf)
calls_then_close_example =
    calls_then_close new_input 10 (λ path. input-IsModest) small_heap false false session
      session-Run

opened-IsFileState : IsFileState opened
opened-IsFileState = record { room = refl; in_range = omega arith }

udfread_file_read-Safe_example :
    Safe
      (IsSafeRead demo entry (omega arith) input-IsModest 4900 4900)
      (udfread_file_read demo 4901 opened (zeros 4900) 4900)
udfread_file_read-Safe_example =
    udfread_file_read-Safe demo entry (omega arith) input-IsModest 4901 opened (zeros 4900) 4900
      opened-IsFileState refl (omega arith)
