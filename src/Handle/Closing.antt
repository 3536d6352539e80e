-- ===== src/Handle/Closing.antt =====
-- The inputs that `udfread_open` and `udfread_close` of src/udfread.c close.
use libudfread.Common.{ℕ, ◌≡◌, refl, Bool, true, false, List, [], ◌∷◌, ◌++◌, Option, none, some}
use libudfread.Memory.{Safe, done, ◌>>=◌}
use libudfread.Memory.Words.{Safe-bind}
use libudfread.Input.{BlockInput}
use libudfread.Handle.{Udfread, Opened, closed_unless, udfread_open_input, udfread_open, held}
use libudfread.Handle.Opening.{IsHandle, IsOpening, udfread_open_input-Safe}

abbrev as_list : Option BlockInput → List BlockInput
as_list none = []
as_list (some input) = input ∷ []

-- the inputs that `block_input_new` makes for `udfread_open`
unfoldable pub inputs_made : (List ℕ → Option BlockInput) → List ℕ → List BlockInput
inputs_made block_input_new [] = []
inputs_made block_input_new (ch ∷ path) = as_list (block_input_new (ch ∷ path))

module _ (block_input_new : List ℕ → Option BlockInput) (fuel : ℕ) where
  -- All inputs, of the handle and new ones, are closed when the handle is.
  abbrev pub IsBalanced : Udfread → List BlockInput → Opened → Type 0
  IsBalanced udf made o = o.closed ++ held o.udf ≡ made ++ held udf

  closed_unless-IsBalanced :
      (udf : Udfread) (input : BlockInput) (r : Bool × Udfread)
      → IsOpening fuel input udf r
      → IsBalanced udf (input ∷ []) (closed_unless input r)
  closed_unless-IsBalanced udf input (false, udf') h = rw (h.kept refl) refl
  closed_unless-IsBalanced udf input (true, udf') h =
      let (was_closed, holds, some_part, app, tree) = h.opened refl in rw (was_closed, holds) refl

  made_lem :
      (udf : Udfread) (made : Option BlockInput)
      → IsHandle udf
      → Safe (IsBalanced udf (as_list made)) (elim made [
        | none ↦ done (record { ok = false; udf = udf; closed = [] })
        | some input ↦ do r ← udfread_open_input fuel udf input; done (closed_unless input r)
      ])
  made_lem udf none h = refl
  made_lem udf (some input) h =
      Safe-bind _ (udfread_open_input fuel udf input) _ (udfread_open_input-Safe fuel input udf h)
        (λ r k. closed_unless-IsBalanced udf input r k)

  -- On a handle whose invariants hold, what `udfread_open` closes and the input that the handle has
  -- then, which `udfread_close` closes, are together the input that `block_input_new` has made, once,
  -- and the input that the handle had before, if there is one: a failure leaks no input, and none is
  -- closed twice. realloc gives no array of 46 GiB or more.
  pub udfread_open-IsBalanced :
      (udf : Udfread) (path : List ℕ)
      → IsHandle udf
      → Safe
          (IsBalanced udf (inputs_made block_input_new path))
          (udfread_open block_input_new fuel udf path)
  unfolding udfread_open inputs_made
  udfread_open-IsBalanced udf [] h = refl
  udfread_open-IsBalanced udf (ch ∷ path) h = made_lem udf (block_input_new (ch ∷ path)) h
