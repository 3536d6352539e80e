-- ===== src/Tests/Handles.antt =====
-- Opening a volume on a new handle.
use libudfread.Common.{refl, arith, false, [], ◌∷◌, some}
use libudfread.Memory.{Safe}
use libudfread.Tree.{pointer_in}
use libudfread.Handle.{Udfread, udfread_init, udfread_open}
use libudfread.Handle.Opening.{IsHandle}
use libudfread.Handle.Closing.{IsBalanced, inputs_made, udfread_open-IsBalanced}
use libudfread.Tests.Volumes.{udf_input}
use libudfread.Tests.Demo.{small_heap}

abbrev handle : Udfread
handle = udfread_init small_heap false false

handle-IsHandle : IsHandle handle
unfolding udfread_init pointer_in
handle-IsHandle = record {
  room = refl;
  parts = omega arith;
  bare = λ e. record { alone = refl; empty = λ i. refl };
}

udfread_open-IsBalanced_example :
    Safe
      (IsBalanced (λ path. some udf_input) 1000 handle (udf_input ∷ []))
      (udfread_open (λ path. some udf_input) 1000 handle (b'a' ∷ []))
unfolding inputs_made
udfread_open-IsBalanced_example =
    udfread_open-IsBalanced (λ path. some udf_input) 1000 handle (b'a' ∷ []) handle-IsHandle
