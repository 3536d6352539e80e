-- ===== src/DefaultInput/Emulated/File.antt =====
-- `pread_impl` of src/default_blockinput.c as a `pread`, where the system has none.
use libudfread.Common.{
  ℕ, ◌+◌, ◌==◌, ◌≡◌, ◌≢◌, ◌≤◌, ◌<◌, sym, if◌then◌else◌, Bool, true, false, Option, none, some,
}
use libudfread.DefaultInput.{Pread, stored, interrupted, broken, OpenFile}
use libudfread.DefaultInput.Reading.{IsPread}
use libudfread.DefaultInput.Emulated.{Request, Descriptor, pread_impl}

-- What POSIX says of read on a file with the bytes `disc`, at a position.
pub record IsDescriptor (fd : Descriptor) (disc : ℕ → ℕ) (limit : ℕ) : Type 0 where
  pub at_most :
      (call position n k : ℕ) (content : ℕ → ℕ) → fd.read call position n ≡ stored k content → k ≤ n
  pub bytes :
      (call position n k : ℕ) (content : ℕ → ℕ)
      → fd.read call position n ≡ stored k content
      → (i : ℕ) → i < k
      → content i ≡ disc (position + i)
  pub patient : (call position n : ℕ) → limit ≤ call → fd.read call position n ≢ interrupted

abbrev pub emulated_file : Descriptor → Option ℕ → OpenFile
emulated_file fd end = record {
  pread = λ call offset n. pread_impl fd (record { call = call; offset = offset; wanted = n });
  end = end;
}

module _ (fd : Descriptor) where
  -- An answer that is not an error is that of read.
  impl_answer :
      (r : Request) (result : Pread)
      → result ≢ broken
      → pread_impl fd r ≡ result
      → fd.read r.call r.offset r.wanted ≡ result
  unfolding pread_impl
  impl_answer r result ne e = by_lseek (fd.lseek r.offset) e
    where
      by_test :
          (b : Bool)
          → (if b then fd.read r.call r.offset r.wanted else broken) ≡ result
          → fd.read r.call r.offset r.wanted ≡ result
      by_test true e = e
      by_test false e = absurd (ne (sym e))

      by_lseek :
          (p : Option ℕ)
          → (elim p [
            | none ↦ broken
            | some p' ↦ if p' == r.offset then fd.read r.call r.offset r.wanted else broken
          ])
            ≡ result
          → fd.read r.call r.offset r.wanted ≡ result
      by_lseek none e = absurd (ne (sym e))
      by_lseek (some p) e = by_test (p == r.offset) e

  -- Where read does what POSIX says, pread_impl is a pread as POSIX has it.
  pub pread_impl-IsPread :
      (disc : ℕ → ℕ) (limit : ℕ) (end : Option ℕ)
      → IsDescriptor fd disc limit
      → IsPread (emulated_file fd end) disc limit
  pread_impl-IsPread disc limit end h = record {
    at_most = λ call offset n k content e. h.at_most call offset n k content (
        impl_answer (record { call = call; offset = offset; wanted = n }) (stored k content)
          (λ b. cc) e);
    bytes = λ call offset n k content e. h.bytes call offset n k content (
        impl_answer (record { call = call; offset = offset; wanted = n }) (stored k content)
          (λ b. cc) e);
    patient = λ call offset n le e.
        h.patient call offset n le (
          impl_answer (record { call = call; offset = offset; wanted = n }) interrupted (λ b. cc)
            e);
  }
