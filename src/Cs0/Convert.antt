-- ===== src/Cs0/Convert.antt =====
-- `udf_cs0_to_mutf8` of src/udf_fs.c stays inside its buffers and encodes every code unit.
use libudfread.Common.{
  ℕ, ◌+◌, ◌/◌, ◌%◌, ◌^◌, ◌≤◌, ◌<◌, ◌≡◌, ◌≢◌, refl, arith, ltb, ◌==◌, List, [], ◌∷◌, ◌++◌, ==→eq,
  lt→ltb, length, length-append, Bool-cases, inl, inr, sym, ap, ◌∙◌, ltb→lt, ltb_false→le,
  ne→==_false, le→ltb_false,
}
use mathlib.Core.List.{append_assoc, append-nil}
use libudfread.Memory.{done, Returns, ◌>>=◌}
use libudfread.Memory.Words.{Returns-bind, Returns-weaken}
use libudfread.Cs0.{Out, emit, grow, utf16lo_to_mutf8, utf16_to_mutf8}
use libudfread.Cs0.Spec.{unit_bytes, lead_two, lead_three, trail}

abbrev pub HasRoom : Out → ℕ → Type 0
HasRoom o n = length o.written + n < o.out_size

emit_lem :
    (o : Out) (x : ℕ)
    → HasRoom o 0
    → x < 256
    → emit o x ≡ done (record o { written = o.written ++ (x ∷ []) })
unfolding emit
emit_lem o x h hx =
    let e : x % 256 ≡ x = omega arith in rw (lt→ltb (length o.written) o.out_size (omega arith), e)

-- One code unit: its bytes are appended, and the free space shrinks by one byte at most.
abbrev pub IsStep : Out → List ℕ → Out → Type 0
IsStep o bytes o' =
    (o'.written ≡ o.written ++ bytes)
    × (o'.out_size + length o.written + 1 ≡ o.out_size + length o'.written)

emit_one : (o : Out) (x : ℕ) → HasRoom o 0 → x < 256 → Returns (IsStep o (x ∷ [])) (emit o x)
emit_one o x h hx = rw (emit_lem o x h hx) (refl, omega (arith, length-append o.written (x ∷ [])))

-- a lead byte and `rest` behind it, where the allocation has grown by `k`
abbrev IsPart : Out → ℕ → List ℕ → Out → Type 0
IsPart o k bytes o' = (o'.written ≡ o.written ++ bytes) × (o'.out_size ≡ o.out_size + k)

emit_next :
    (o o₁ : Out) (k : ℕ) (bytes : List ℕ) (x : ℕ)
    → IsPart o k bytes o₁
    → length bytes ≤ k
    → HasRoom o 0
    → x < 256
    → Returns (IsPart o k (bytes ++ (x ∷ []))) (emit o₁ x)
emit_next o o₁ k bytes x (w, s) le h hx =
    rw (emit_lem o₁ x (omega (arith, ap length w, length-append o.written bytes)) hx)
      (ap (λ l. l ++ (x ∷ [])) w ∙ append_assoc o.written bytes (x ∷ []), s)

part-IsStep :
    (o o' : Out) (k : ℕ) (bytes : List ℕ)
    → IsPart o k bytes o'
    → length bytes ≡ k + 1
    → IsStep o bytes o'
part-IsStep o o' k bytes (w, s) e = (w, omega (arith, ap length w, length-append o.written bytes))

emit_two :
    (o : Out) (x y : ℕ)
    → HasRoom o 0
    → x < 256
    → y < 256
    → Returns (IsStep o (x ∷ y ∷ [])) (emit (grow o 1) x >>= λ o₁. emit o₁ y)
unfolding grow
emit_two o x y h hx hy =
    Returns-bind _ (emit (record o { out_size = o.out_size + 1 }) x) _
      (emit_next o (record o { out_size = o.out_size + 1 }) 1 [] x
        (sym (append-nil o.written), refl) (omega arith) h hx)
      (λ o₁ p.
        Returns-weaken _ (emit o₁ y) (emit_next o o₁ 1 (x ∷ []) y p (omega arith) h hy)
          (λ o₂ r. part-IsStep o o₂ 1 (x ∷ y ∷ []) r refl))

pub emit_three :
    (o : Out) (x y z : ℕ)
    → HasRoom o 0
    → x < 256
    → y < 256
    → z < 256
    → Returns
        (IsStep o (x ∷ y ∷ z ∷ []))
        (emit (grow o 2) x >>= λ o₁. emit o₁ y >>= λ o₂. emit o₂ z)
unfolding grow
emit_three o x y z h hx hy hz =
    Returns-bind _ (emit (record o { out_size = o.out_size + 2 }) x) _
      (emit_next o (record o { out_size = o.out_size + 2 }) 2 [] x
        (sym (append-nil o.written), refl) (omega arith) h hx)
      (λ o₁ p.
        Returns-bind _ (emit o₁ y) _ (emit_next o o₁ 2 (x ∷ []) y p (omega arith) h hy) (λ o₂ p₂.
          Returns-weaken _ (emit o₂ z) (emit_next o o₂ 2 (x ∷ y ∷ []) z p₂ (omega arith) h hz)
            (λ o₃ r. part-IsStep o o₃ 2 (x ∷ y ∷ z ∷ []) r refl)))

-- a unit below U+0800 through `utf16lo_to_mutf8`
pub lo-IsStep :
    (o : Out) (ch : ℕ)
    → HasRoom o 0
    → ch < 0x800
    → Returns (IsStep o (unit_bytes ch)) (utf16lo_to_mutf8 o ch)
unfolding utf16lo_to_mutf8 unit_bytes
lo-IsStep o ch h hc = elim (Bool-cases (ch == 0)) [
  | inl nul ↦
      let e : ch ≡ 0 = ==→eq _ _ nul in rw e (emit_two o 0xc0 0x80 h (omega arith) (omega arith))
  | inr other ↦ elim (Bool-cases (ltb ch 0x80)) [
    | inl ascii ↦ rw (other, ascii) (emit_one o ch h (omega (arith, ltb→lt _ _ ascii)))
    | inr wide ↦
        rw
          (
            other,
            wide,
            lt→ltb ch 0x800 hc,
            lead_two (ch / 64) (omega arith),
            trail (ch % 64) (omega arith),
          )
          (emit_two o (0xc0 + ch / 64) (0x80 + ch % 64) h (omega arith) (omega arith))
  ]
]

-- Any unit but U+07FF, which the code takes for one of three bytes.
pub unit-IsStep :
    (o : Out) (ch : ℕ)
    → HasRoom o 0
    → ch < 2 ^ 16
    → ch ≢ 0x7ff
    → Returns (IsStep o (unit_bytes ch)) (utf16_to_mutf8 o ch)
unfolding utf16_to_mutf8 unit_bytes
unit-IsStep o ch h hc ne = elim (Bool-cases (ltb ch 0x7ff)) [
  | inl lo ↦ rw lo (lo-IsStep o ch h (omega (arith, ltb→lt _ _ lo)))
  | inr hi ↦
      let le : 0x800 ≤ ch = omega (arith, ltb_false→le _ _ hi) in
      rw
        (
          hi,
          ne→==_false ch 0 (omega arith),
          le→ltb_false ch 0x80 (omega arith),
          le→ltb_false ch 0x800 le,
          lead_three (ch / 4096) (omega arith),
          trail (ch / 64 % 64) (omega arith),
          trail (ch % 64) (omega arith),
        )
        (emit_three o (0xe0 + ch / 4096) (0x80 + ch / 64 % 64) (0x80 + ch % 64) h (omega arith)
          (omega arith) (omega arith))
]
