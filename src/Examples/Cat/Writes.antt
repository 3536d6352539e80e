-- ===== src/Examples/Cat/Writes.antt =====
-- `_cat` of examples/udfcat.c writes the bytes of the file.
use libudfread.Common.{
  ℕ, zero, suc, ◌+◌, ◌-◌, ◌%◌, ◌^◌, ◌≤◌, ◌<◌, ◌≡◌, ◌⊎◌, refl, sym, ap, ◌∙◌, arith, ◌==◌, true,
  false, Bool-cases, List, [], ◌∷◌, ◌++◌, none, some, min, inl, inr, subst, lt→leb_false, ==→eq,
  ==_false→ne,
}
use libudfread.Common.Int.{pos}
use libudfread.Memory.{Buf, Returns, done, ◌>>=◌}
use libudfread.Memory.Words.{u8_at, get_u8_lem, Returns-bind}
use libudfread.Ecma.{LongAd}
use libudfread.File.{Disc}
use libudfread.File.Bytes.{Holds, file_byte}
use libudfread.File.Blocks.{IsReadable, Delivers}
use libudfread.Stream.{
  UdfFile, Reply, udfread_file_read, udfread_file_tell, udfread_file_size, signed64,
}
use libudfread.Stream.Chunk.{IsOpen}
use libudfread.Stream.Read.{HasRead, udfread_file_read_lem}
use libudfread.Examples.Cat.{read_failed, wrote, Output, finish_cat, fwrite, add_got, cat_loop, cat}

-- `n` bytes from index `i` on
unfoldable pub bytes_of : (ℕ → ℕ) → ℕ → ℕ → List ℕ
bytes_of at i zero = []
bytes_of at i (suc n) = at i % 256 ∷ bytes_of at (i + 1) n

bytes_of-append :
    (at : ℕ → ℕ) (i m n : ℕ) → bytes_of at i (m + n) ≡ bytes_of at i m ++ bytes_of at (i + m) n
unfolding bytes_of
bytes_of-append at i zero n =
    let none_left : 0 + n ≡ n = omega arith in
    let here : i + 0 ≡ i = omega arith in rw (none_left, here) refl
bytes_of-append at i (suc m) n =
    let count : suc m + n ≡ suc (m + n) = omega arith in
    let here : i + suc m ≡ i + 1 + m = omega arith in
    rw (count, here) (ap (λ l. at i % 256 ∷ l) (bytes_of-append at (i + 1) m n))

bytes_of-same :
    (f g : ℕ → ℕ) (i j n : ℕ)
    → ((k : ℕ) → k < n → f (i + k) ≡ g (j + k))
    → bytes_of f i n ≡ bytes_of g j n
unfolding bytes_of
bytes_of-same f g i j zero h = refl
bytes_of-same f g i j (suc n) h =
    let first : f i ≡ g j = ground (arith, h 0) in
    let rest = bytes_of-same f g (i + 1) (j + 1) n (λ k lt. ground (arith, h (k + 1))) in
    rw (first, rest) refl

fwrite_lem : (buf : Buf) (i n : ℕ) → i + n ≤ buf.len → fwrite buf i n ≡ done (bytes_of buf.at i n)
unfolding fwrite bytes_of u8_at
fwrite_lem buf i zero h = refl
fwrite_lem buf i (suc n) h =
    rw (get_u8_lem buf i (omega arith), fwrite_lem buf (i + 1) n (omega arith)) refl

add_got_lem : (got n : ℕ) → got + n < 2 ^ 63 → add_got got n ≡ done (got + n)
unfolding add_got
add_got_lem got n h = rw (lt→leb_false (got + n) (2 ^ 63) h) refl

module _ (disc : Disc) (image : ℕ → ℕ) (list : List LongAd) (size : ℕ) where
  abbrev byte : ℕ → ℕ
  byte = file_byte image disc.part_lba list

  -- `_cat` has written the first `got` bytes of the file, and says so. It has written all of them,
  -- unless a read has failed at that position or has given nothing, both only where the input
  -- fails.
  abbrev pub HasCat : Output → Type 0
  HasCat o =
      (o.got ≤ size)
      × (o.out ≡ bytes_of byte 0 o.got)
      × (Delivers disc.input → o.got ≡ size)
      × ((o.messages ≡ wrote o.got (pos size) ∷ [])
          ⊎ ((¬ Delivers disc.input)
              × (o.messages ≡ read_failed (pos o.got) ∷ wrote o.got (pos size) ∷ [])))

  signed64_lem : (n : ℕ) → n < 2 ^ 63 → signed64 n ≡ pos n
  unfolding signed64
  signed64_lem n h = ground arith

  module _ (good : IsReadable disc image size list) (small : size ≤ 2 ^ 43 - 2048) where
    tell_lem : (p : UdfFile) (n : ℕ) → p.pos ≡ n → n ≤ size → udfread_file_tell p ≡ pos n
    unfolding udfread_file_tell
    tell_lem p n e le = ap signed64 e ∙ signed64_lem n (omega arith)

    size_lem : (p : UdfFile) → IsOpen disc image list size p → udfread_file_size p ≡ pos size
    unfolding udfread_file_size
    size_lem p h = ap signed64 h.length ∙ signed64_lem size (omega arith)

    finish_cat-HasCat :
        (p : UdfFile) (got : ℕ) (out : List ℕ)
        → IsOpen disc image list size p
        → got ≤ size
        → out ≡ bytes_of byte 0 got
        → (Delivers disc.input → got ≡ size)
        → HasCat (finish_cat [] p got out)
    finish_cat-HasCat p got out h le e all =
        (le, e, all, inl (ap (λ s. wrote got s ∷ []) (size_lem p h)))

    failed-HasCat :
        (p : UdfFile) (got : ℕ) (out : List ℕ)
        → IsOpen disc image list size p
        → p.pos ≡ got
        → got ≤ size
        → out ≡ bytes_of byte 0 got
        → ¬ Delivers disc.input
        → HasCat (finish_cat (read_failed (udfread_file_tell p) ∷ []) p got out)
    failed-HasCat p got out h at le e fails =
        (le, e, λ d. absurd (fails d), inr (fails, rw (size_lem p h, tell_lem p got at le) refl))

    -- what the buffer holds, behind what has been written
    joined_bytes :
        (old buf : Buf) (got n room : ℕ)
        → Holds image disc.part_lba list old buf 0 got n room
        → bytes_of byte 0 got ++ bytes_of buf.at 0 n ≡ bytes_of byte 0 (got + n)
    joined_bytes old buf got n room held =
        let here : got ≡ 0 + got = omega arith in
        ap (λ l. bytes_of byte 0 got ++ l) (bytes_of-same buf.at byte 0 got n held.bytes)
        ∙ (ap (λ i. bytes_of byte 0 got ++ bytes_of byte i n) here
            ∙ sym (bytes_of-append byte 0 got n))

    -- One read, where the loop goes on only behind more bytes.
    after_read :
        (fuel rounds : ℕ) (buf : Buf) (start got : ℕ) (out : List ℕ)
        → start ≡ got
        → got ≤ size
        → buf.len ≡ 2048
        → out ≡ bytes_of byte 0 got
        → ((p' : UdfFile) (buf' : Buf) (got' : ℕ) (out' : List ℕ)
            → got < got'
            → IsOpen disc image list size p'
            → p'.pos ≡ got'
            → got' ≤ size
            → buf'.len ≡ 2048
            → out' ≡ bytes_of byte 0 got'
            → Returns HasCat (cat_loop disc rounds fuel p' buf' got' out'))
        → (r : Reply) → HasRead disc image list size start buf (min 2048 (size - start)) r
        → Returns HasCat (elim r.0 [
          | none ↦ done (finish_cat (read_failed (udfread_file_tell r.1) ∷ []) r.1 got out)
          | some n ↦ elim (n == 0) [
            | true ↦ done (finish_cat [] r.1 got out)
            | false ↦ do
              bytes ← fwrite r.2 0 n
              got' ← add_got got n
              cat_loop disc rounds fuel r.1 r.2 got' (out ++ bytes)
          ]
        ])
    after_read fuel rounds buf start got out at le room e further (none, p', buf') r =
        failed-HasCat p' got out r.1 (r.2 ∙ at) le e r.0
    after_read fuel rounds buf start got out at le room e further (some n, p', buf') r =
        elim (Bool-cases (n == 0)) [
          | inl end ↦
              rw end
                (finish_cat-HasCat p' got out r.2 le e (λ d. omega (arith, r.1 d, ==→eq n 0 end)))
          | inr more ↦
              rw
                (
                  more,
                  fwrite_lem buf' 0 n (omega (arith, r.0, r.4.size)),
                  add_got_lem got n (omega (arith, r.0)),
                )
                (further p' buf' (got + n) (out ++ bytes_of buf'.at 0 n)
                  (omega (arith, ==_false→ne n 0 more)) r.2 (omega (arith, r.3))
                  (omega (arith, r.0)) (omega (arith, r.4.size))
                  (ap (λ l. l ++ bytes_of buf'.at 0 n) e
                    ∙ joined_bytes buf buf' got n _ (
                        subst
                          (λ x. Holds image disc.part_lba list buf buf' 0 x n (min 2048 (size - x)))
                          at r.4)))
        ]

    cat_loop-HasCat :
        (fuel rounds : ℕ) (p : UdfFile) (buf : Buf) (got : ℕ) (out : List ℕ)
        → size < fuel + got
        → 2048 < rounds
        → IsOpen disc image list size p
        → p.pos ≡ got
        → got ≤ size
        → buf.len ≡ 2048
        → out ≡ bytes_of byte 0 got
        → Returns HasCat (cat_loop disc rounds fuel p buf got out)
    unfolding cat_loop
    cat_loop-HasCat zero rounds p buf got out hf hr h at le room e = absurd (omega arith)
    cat_loop-HasCat (suc fuel) rounds p buf got out hf hr h at le room e =
        Returns-bind _ (udfread_file_read disc rounds p buf 2048) _
          (udfread_file_read_lem disc image list size good small p buf 2048 rounds h (omega arith)
            (omega arith) hr)
          (λ r h'.
            after_read fuel rounds buf p.pos got out at le room e
              (λ p' buf' got' out' more k at' le' room' e'.
                cat_loop-HasCat fuel rounds p' buf' got' out' (omega (arith, more)) hr k at' le'
                  room' e')
              r h')

    -- `_cat` of a file that is open at its start, of at most 8 TiB on a disc that can be read, ends
    -- with no fault, however the input fails. What it has written to the standard output are the
    -- first `got` bytes of the file, and it says so; they are the whole file unless the input
    -- fails, and a message that a read has failed names this position.
    pub cat_lem :
        (rounds fuel : ℕ) (buf : Buf) (p : UdfFile)
        → IsOpen disc image list size p
        → p.pos ≡ 0
        → buf.len ≡ 2048
        → 2048 < rounds
        → size < fuel
        → Returns HasCat (cat disc rounds fuel buf p)
    unfolding cat bytes_of
    cat_lem rounds fuel buf p h start room hr hf =
        cat_loop-HasCat fuel rounds p buf 0 [] (omega arith) hr h start (omega arith) room refl
