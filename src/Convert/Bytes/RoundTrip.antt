-- ===== src/Convert/Bytes/RoundTrip.antt =====
-- About reading numbers from buffers that they were written to, and about bounds.
use native.Mathlib.Nat.{div-add-mod', one-le-pow, mul-mod_left, lt-div-mul-add}
use oscam_vdr.Base.{
  ℕ, zero, suc, ◌+◌, ◌*◌, ◌/◌, ◌%◌, ◌^◌, ◌≤◌, ◌<◌, ◌≡◌, ◌≢◌, refl, ◌∙◌, List, [], ◌∷◌, ◌==◌, true,
  nonzero, ltb, ◌||◌, not, if◌then◌else◌, length, arith, or_add, and_low,
}
use oscam_vdr.Convert.Bytes.{at, b2i, byte_of, i2b_buf, boundary, filled_loop, check_filled}

abbrev pub IsByte : ℕ → Type 0
IsByte x = x < 256

byte_of_lem : (i k : ℕ) → byte_of i k ≡ i / 2 ^ k % 256
byte_of_lem i k = and_low 8 (i / 2 ^ k)

b2i_two_sum : (b0 b1 : ℕ) (rest : List ℕ) → b1 < 256 → b2i 2 (b0 ∷ b1 ∷ rest) ≡ b0 * 256 + b1
unfolding b2i
b2i_two_sum b0 b1 rest h1 = or_add 8 (b0 * 256) b1 (omega arith) h1

b2i_three_sum :
    (b0 b1 b2 : ℕ) (rest : List ℕ)
    → b1 < 256
    → b2 < 256
    → b2i 3 (b0 ∷ b1 ∷ b2 ∷ rest) ≡ b0 * 65536 + b1 * 256 + b2
unfolding b2i
b2i_three_sum b0 b1 b2 rest h1 h2 =
    rw (or_add 16 (b0 * 65536) (b1 * 256) (omega arith) (omega arith))
      (or_add 8 (b0 * 65536 + b1 * 256) b2 (omega arith) h2)

b2i_four_sum :
    (b0 b1 b2 b3 : ℕ) (rest : List ℕ)
    → b0 < 256
    → b1 < 256
    → b2 < 256
    → b3 < 256
    → b2i 4 (b0 ∷ b1 ∷ b2 ∷ b3 ∷ rest) ≡ b0 * 16777216 + b1 * 65536 + b2 * 256 + b3
unfolding b2i
b2i_four_sum b0 b1 b2 b3 rest h0 h1 h2 h3 =
    rw (or_add 24 (b0 * 16777216) (b1 * 65536) (omega arith) (omega arith)) (
      rw (or_add 16 (b0 * 16777216 + b1 * 65536) (b2 * 256) (omega arith) (omega arith)) (
        rw (or_add 8 (b0 * 16777216 + b1 * 65536 + b2 * 256) b3 (omega arith) h3)
          (rw (and_low 32 (b0 * 16777216 + b1 * 65536 + b2 * 256 + b3)) (omega arith))))

-- Reading two or four bytes that `i2b_buf` wrote into a buffer with room for them gives the number
-- back, up to the bits that do not fit.
pub b2i-i2b_buf :
    (i b0 b1 b2 b3 : ℕ) (rest : List ℕ)
    → let b = b0 ∷ b1 ∷ b2 ∷ b3 ∷ rest in
      (b2i 2 (i2b_buf 2 i b) ≡ i % 65536) × (b2i 4 (i2b_buf 4 i b) ≡ i % 4294967296)
unfolding i2b_buf
b2i-i2b_buf i b0 b1 b2 b3 rest = (
  b2i_two_sum (byte_of i 8) (byte_of i 0) (b2 ∷ b3 ∷ rest) (omega (arith, byte_of_lem i 0))
      ∙ omega (arith, byte_of_lem i 8, byte_of_lem i 0),
  b2i_four_sum (byte_of i 24) (byte_of i 16) (byte_of i 8) (byte_of i 0) rest
        (omega (arith, byte_of_lem i 24)) (omega (arith, byte_of_lem i 16))
        (omega (arith, byte_of_lem i 8)) (omega (arith, byte_of_lem i 0))
      ∙ omega (arith, byte_of_lem i 24, byte_of_lem i 16, byte_of_lem i 8, byte_of_lem i 0),
)

-- `i2b_buf` for three bytes writes four, those of the case 4: a number read back from them has
-- lost its low byte, and the byte behind the three is overwritten.
pub i2b_buf_three :
    (i b0 b1 b2 b3 : ℕ) (rest : List ℕ)
    → let b = b0 ∷ b1 ∷ b2 ∷ b3 ∷ rest in
      (i2b_buf 3 i b ≡ i2b_buf 4 i b)
      × (b2i 3 (i2b_buf 3 i b) ≡ i / 256 % 16777216)
      × (at (i2b_buf 3 i b) 3 ≡ i % 256)
unfolding i2b_buf
i2b_buf_three i b0 b1 b2 b3 rest = (
  refl,
  b2i_three_sum (byte_of i 24) (byte_of i 16) (byte_of i 8) (byte_of i 0 ∷ rest)
        (omega (arith, byte_of_lem i 16)) (omega (arith, byte_of_lem i 8))
      ∙ omega (arith, byte_of_lem i 24, byte_of_lem i 16, byte_of_lem i 8),
  omega (arith, byte_of_lem i 0),
)

-- `boundary` is the least multiple of 2^exp that is not below n: the one less than 2^exp above it.
pub boundary_least :
    (exp n : ℕ)
    → (boundary exp n % 2 ^ exp ≡ 0) × (n ≤ boundary exp n) × (boundary exp n < n + 2 ^ exp)
unfolding boundary
boundary_least exp zero = (omega arith, omega arith, omega (arith, one-le-pow exp 2 (omega arith)))
boundary_least exp (suc n) = (
  mul-mod_left (n / 2 ^ exp + 1) (2 ^ exp),
  omega (arith, lt-div-mul-add {a = n} (one-le-pow exp 2 (omega arith))),
  omega (arith, div-add-mod' n (2 ^ exp)),
)

-- The length without the zeros at the end, from the end.
filled : List ℕ → ℕ
filled [] = 0
filled (v ∷ vs) =
    let rest = filled vs in if nonzero rest then suc rest else if nonzero v then 1 else 0

filled_loop-filled :
    (vs : List ℕ) (i j : ℕ) → filled_loop vs i j ≡ (if filled vs == 0 then j else i + filled vs)
unfolding filled_loop filled
filled_loop-filled [] i j = refl
filled_loop-filled (v ∷ vs) i j =
    ground (arith, filled_loop-filled vs (i + 1) (if nonzero v then i + 1 else j))

filled-le : (vs : List ℕ) → filled vs ≤ length vs
unfolding filled
filled-le [] = omega arith
filled-le (v ∷ vs) = ground (arith, filled-le vs)

filled_zeros : (vs : List ℕ) (i : ℕ) → filled vs ≤ i → at vs i ≡ 0
unfolding filled
filled_zeros [] i h = refl
filled_zeros (v ∷ vs) zero h = ground arith
filled_zeros (v ∷ vs) (suc i) h = ground (arith, filled_zeros vs i)

filled_hit : (vs : List ℕ) (i : ℕ) → filled vs ≡ suc i → at vs i ≢ 0
unfolding filled
filled_hit [] i h = absurd (omega arith)
filled_hit (v ∷ vs) zero h = ground arith
filled_hit (v ∷ vs) (suc i) h = ground (arith, filled_hit vs i)

check_filled-filled : (vs : List ℕ) → check_filled vs ≡ filled vs
unfolding check_filled
check_filled-filled vs = ground (arith, filled_loop-filled vs 0 0)

-- `check_filled` returns the length without the zeros at the end: what lies behind is 0, and the
-- byte before is not.
pub check_filled_last :
    (value : List ℕ) (i : ℕ)
    → (check_filled value ≤ length value)
      × ((ltb i (check_filled value) || at value i == 0) ≡ true)
      × ((not (check_filled value == suc i) || nonzero (at value i)) ≡ true)
check_filled_last value i =
    rw (check_filled-filled value)
      (filled-le value, ground (arith, filled_zeros value i), ground (arith, filled_hit value i))
