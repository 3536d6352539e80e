-- ===== src/DefaultInput/Reading.antt =====
-- What `_def_read` of src/default_blockinput.c reads, with short reads and interrupted calls.
use libudfread.Common.{
  ℕ, zero, suc, ◌+◌, ◌-◌, ◌*◌, ◌/◌, ◌%◌, ◌^◌, ◌≤◌, ◌<◌, ◌≡◌, ◌≢◌, ◌⊎◌, inl, inr, refl, ap, ◌∙◌,
  arith, ltb, leb, ◌==◌, if◌then◌else◌, true, false, Bool-cases, ltb→lt, ltb_false→le, ==→eq,
  ==_false→ne, leb→le, ◌&&◌,
}
use libudfread.Memory.{Buf, Mem, Returns, fault, running, done, ◌>>=◌, store, zeros}
use libudfread.Memory.Words.{store_lem}
use libudfread.Input.{Status, blocks, failed, count, Reads}
use libudfread.DefaultInput.{
  Pread, stored, interrupted, broken, OpenFile, to_int, finished, read_pieces, def_read, answer,
  def_input,
}

-- What POSIX says of `pread` on a file with the bytes `disc`: it stores no more than is asked for,
-- and what it stores is in the file there. From call `limit` on, no signal interrupts it.
pub record IsPread (file : OpenFile) (disc : ℕ → ℕ) (limit : ℕ) : Type 0 where
  pub at_most :
      (call offset n k : ℕ) (content : ℕ → ℕ) → file.pread call offset n ≡ stored k content → k ≤ n
  pub bytes :
      (call offset n k : ℕ) (content : ℕ → ℕ)
      → file.pread call offset n ≡ stored k content
      → (i : ℕ) → i < k
      → content i ≡ disc (offset + i)
  pub patient : (call offset n : ℕ) → limit ≤ call → file.pread call offset n ≢ interrupted

module _ (file : OpenFile) (disc : ℕ → ℕ) (limit : ℕ) (good : IsPread file disc limit) where
  -- A call for bytes between `pos` and `pos + bytes` that has given none.
  abbrev pub IsStop : ℕ → ℕ → Type 0
  IsStop pos bytes =
      (call : ℕ) × (offset : ℕ) × (n : ℕ) × (pos ≤ offset)
      × (offset + n ≡ pos + bytes)
      × (0 < n)
      × ((file.pread call offset n ≡ broken)
          ⊎ ((content : ℕ → ℕ) × (file.pread call offset n ≡ stored 0 content)))

  -- The blocks that a read returns are those of the file, and all that were wanted unless a call
  -- gave nothing; an error is returned only then.
  abbrev pub IsRead : ℕ → ℕ → ℕ → Status × Buf → Type 0
  IsRead pos nblocks room (failed, buf) =
      (buf.len ≡ room) × (nblocks < 2 ^ 31 → IsStop pos (nblocks * 2048))
  IsRead pos nblocks room (blocks m, buf) =
      (buf.len ≡ room)
      × (m ≤ nblocks)
      × ((k : ℕ) → k < m * 2048 → buf.at k ≡ disc (pos + k))
      × (nblocks < 2 ^ 31 → (m ≡ nblocks) ⊎ IsStop pos (nblocks * 2048))

  -- the bytes read so far
  abbrev IsSoFar : ℕ → ℕ → Buf → Type 0
  IsSoFar pos got buf = (k : ℕ) → k < got → buf.at k ≡ disc (pos + k)

  to_int-IsRead :
      (pos nblocks got room : ℕ) (buf : Buf)
      → got ≤ nblocks * 2048
      → buf.len ≡ room
      → IsSoFar pos got buf
      → (got ≡ nblocks * 2048) ⊎ IsStop pos (nblocks * 2048)
      → IsRead pos nblocks room (to_int (got / 2048), buf)
  unfolding to_int
  to_int-IsRead pos nblocks got room buf le len held why =
      elim (Bool-cases (ltb (got / 2048 % 2 ^ 32) (2 ^ 31))) [
        | inr big ↦ rw big (len, λ small. absurd (omega (arith, ltb_false→le _ _ big)))
        | inl fits ↦ rw fits (
          len,
          omega arith,
          (λ k lt. held k (omega arith)),
          (λ small. elim why [ inl all ↦ inl (omega arith) | inr stop ↦ inr stop ]),
        )
      ]

  -- a call that has given nothing
  stopped-IsRead :
      (pos nblocks got room : ℕ) (buf : Buf) (status : Status)
      → got ≤ nblocks * 2048
      → buf.len ≡ room
      → IsSoFar pos got buf
      → (status ≡ failed) ⊎ (status ≡ blocks 0)
      → IsStop pos (nblocks * 2048)
      → Returns
          (IsRead pos nblocks room)
          (if ltb got 2048 then done (status, buf) else finished got buf)
  stopped-IsRead pos nblocks got room buf status le len held which stop =
      elim (Bool-cases (ltb got 2048)) [
        | inr full ↦ rw full (to_int-IsRead pos nblocks got room buf le len held (inr stop))
        | inl none' ↦ elim which [
          | inl e ↦ rw (none', e) (len, λ small. stop)
          | inr e ↦
              rw (none', e) (len, omega arith, (λ k lt. absurd (omega arith)), λ small. inr stop)
        ]
      ]

  -- the bytes that a call has stored, behind those before
  so_far :
      (pos got n offset : ℕ) (content : ℕ → ℕ) (buf : Buf)
      → offset ≡ pos + got
      → IsSoFar pos got buf
      → ((i : ℕ) → i < n → content i ≡ disc (offset + i))
      → IsSoFar pos (got + n) (record buf {
        at = λ i. if leb got i && ltb i (got + n) then content (i - got) else buf.at i;
      })
  so_far pos got n offset content buf at held new k lt = elim (Bool-cases (leb got k)) [
    | inr below ↦ ground (arith, held k)
    | inl behind ↦
        let there : offset + (k - got) ≡ pos + k = omega (arith, leb→le _ _ behind) in
        ground (arith, new (k - got), ap disc there)
  ]

  module _ (call pos nblocks got : ℕ) (buf : Buf) where
    -- the loop with the answer to the next call
    abbrev go_on : ℕ → Pread → Mem (Status × Buf)
    go_on fuel interrupted = read_pieces file fuel (call + 1) pos (nblocks * 2048) got buf
    go_on fuel broken = if ltb got 2048 then done (failed, buf) else finished got buf
    go_on fuel (stored n content) = elim (n == 0) [
      | true ↦ if ltb got 2048 then done (blocks 0, buf) else finished got buf
      | false ↦ do
        buf' ← store buf got n content
        read_pieces file fuel (call + 1) pos (nblocks * 2048) (got + n) buf'
    ]

    go_on-IsRead :
        (fuel : ℕ) (r : Pread)
        → file.pread call (pos + got) (nblocks * 2048 - got) ≡ r
        → got < nblocks * 2048
        → (limit - call) + (nblocks * 2048 - got) ≤ fuel
        → nblocks * 2048 ≤ buf.len
        → IsSoFar pos got buf
        → ((got' : ℕ) (buf' : Buf)
            → (limit - (call + 1)) + (nblocks * 2048 - got') < fuel
            → got' ≤ nblocks * 2048
            → nblocks * 2048 ≤ buf'.len
            → IsSoFar pos got' buf'
            → Returns
                (IsRead pos nblocks buf'.len)
                (read_pieces file fuel (call + 1) pos (nblocks * 2048) got' buf'))
        → Returns (IsRead pos nblocks buf.len) (go_on fuel r)
    go_on-IsRead fuel interrupted e more enough room held again =
        elim (Bool-cases (ltb call limit)) [
          | inl early ↦ again got buf (omega (arith, ltb→lt _ _ early)) (omega arith) room held
          | inr late ↦
              absurd
                (good.patient call (pos + got) (nblocks * 2048 - got) (ltb_false→le _ _ late) e)
        ]
    go_on-IsRead fuel broken e more enough room held again =
        stopped-IsRead pos nblocks got buf.len buf failed (omega arith) refl held (inl refl)
          (call, pos + got, nblocks * 2048 - got, omega arith, omega arith, omega arith, inl e)
    go_on-IsRead fuel (stored n content) e more enough room held again =
        elim (Bool-cases (n == 0)) [
          | inl nothing ↦
              let is_zero : n ≡ 0 = ==→eq _ _ nothing in
              rw (nothing, Returns)
                (stopped-IsRead pos nblocks got buf.len buf (blocks 0) (omega arith) refl held
                  (inr refl)
                  (
                    call,
                    pos + got,
                    nblocks * 2048 - got,
                    omega arith,
                    omega arith,
                    omega arith,
                    inr (content, e ∙ ap (λ n. stored n content) is_zero),
                  ))
          | inr some' ↦
              let at_most = good.at_most call (pos + got) (nblocks * 2048 - got) n content e in
              let pos_n : n ≢ 0 = ==_false→ne n 0 some' in
              rw (some', store_lem buf got n content (omega arith), Returns)
                (again (got + n) _ (omega arith) (omega arith) room (
                  so_far pos got n (pos + got) content buf refl held
                    (good.bytes call (pos + got) (nblocks * 2048 - got) n content e)))
        ]

  read_pieces-IsRead :
      (fuel call pos nblocks got : ℕ) (buf : Buf)
      → (limit - call) + (nblocks * 2048 - got) < fuel
      → got ≤ nblocks * 2048
      → nblocks * 2048 ≤ buf.len
      → IsSoFar pos got buf
      → Returns
          (IsRead pos nblocks buf.len)
          (read_pieces file fuel call pos (nblocks * 2048) got buf)
  unfolding read_pieces
  read_pieces-IsRead zero call pos nblocks got buf enough le room held = absurd (omega arith)
  read_pieces-IsRead (suc fuel) call pos nblocks got buf enough le room held =
      elim (Bool-cases (ltb got (nblocks * 2048))) [
        | inr all ↦
            rw (all, Returns)
              (to_int-IsRead pos nblocks got buf.len buf le refl held
                (inl (omega (arith, ltb_false→le _ _ all))))
        | inl more ↦
            rw (more, Returns)
              (go_on-IsRead call pos nblocks got buf fuel
                (file.pread call (pos + got) (nblocks * 2048 - got)) refl (ltb→lt _ _ more)
                (omega arith) room held
                (λ got' buf' m l r h.
                  read_pieces-IsRead fuel (call + 1) pos nblocks got' buf' m l r h))
      ]

  -- `_def_read` ends, however short the reads are and however many calls are interrupted, if at
  -- some point none is, within a round for each byte, one for each call that may be interrupted, and
  -- one more. It stays in the caller's buffer. What it returns are blocks of the file,
  -- and, for less than 2^31 blocks, all of them unless a call gave an error or no bytes; it returns
  -- an error only then.
  pub def_read-IsRead :
      (fuel lba nblocks : ℕ) (buf : Buf)
      → limit + nblocks * 2048 < fuel
      → nblocks * 2048 ≤ buf.len
      → Returns (IsRead (lba * 2048) nblocks buf.len) (def_read file fuel lba nblocks buf)
  unfolding def_read
  def_read-IsRead fuel lba nblocks buf enough room =
      read_pieces-IsRead fuel 0 (lba * 2048) nblocks 0 buf (omega arith) (omega arith) room
        (λ k lt. absurd (omega arith))

  answer-Reads :
      (lba nblocks room : ℕ) (m : Mem (Status × Buf))
      → Returns (IsRead (lba * 2048) nblocks room) m
      → (count (answer m).0 ≤ nblocks)
        × ((k : ℕ) → k < count (answer m).0 * 2048 → (answer m).1 k ≡ disc (lba * 2048 + k))
  unfolding answer count
  answer-Reads lba nblocks room fault h = absurd h
  answer-Reads lba nblocks room running h = absurd h
  answer-Reads lba nblocks room (done (failed, buf)) h = (omega arith, λ k lt. absurd (omega arith))
  answer-Reads lba nblocks room (done (blocks m, buf)) (len, le, held, why) = (le, held)

  -- The default block input serves the bytes of its file: the blocks that a read returns are at most
  -- those asked for and hold the bytes of the file at their place. An error, which is a negative
  -- number, counts as none. `pread` stores bytes of the file, no more than it is asked for, and is
  -- not interrupted from call number `limit` on.
  pub def_input-Reads : (fuel : ℕ) → limit < fuel → Reads (def_input fuel file) disc
  unfolding def_input
  def_input-Reads fuel enough = record {
    at_most = λ lba n flags. (reads lba n).0;
    bytes = λ lba n flags k lt. (reads lba n).1 k lt;
  }
    where
      reads :
          (lba n : ℕ)
          → (count (answer (def_read file (fuel + n * 2048) lba n (zeros (n * 2048)))).0 ≤ n)
            × ((k : ℕ)
                → k
                  < count (answer (def_read file (fuel + n * 2048) lba n (zeros (n * 2048)))).0
                    * 2048
                → (answer (def_read file (fuel + n * 2048) lba n (zeros (n * 2048)))).1 k
                  ≡ disc (lba * 2048 + k))
      reads lba n =
          answer-Reads lba n (n * 2048) (def_read file (fuel + n * 2048) lba n (zeros (n * 2048)))
            (def_read-IsRead (fuel + n * 2048) lba n (zeros (n * 2048)) (omega arith) (omega arith))
