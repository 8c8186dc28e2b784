-- ===== src/Convert/Bytes.antt =====
-- `b2i`, `b2ll`, `i2b_buf`, `boundary` and `check_filled` of oscam-simples.c.
pub mod RoundTrip
use oscam_vdr.Base.{
  ℕ, zero, suc, ◌+◌, ◌-◌, ◌*◌, ◌/◌, ◌%◌, ◌^◌, bit_and, bit_or, List, [], ◌∷◌, ◌==◌, nonzero,
  if◌then◌else◌, get_or, set, u8,
}

abbrev pub at : List ℕ → ℕ → ℕ
at b i = get_or b i 0

-- Big-endian. Any other `n` than 2, 3 and 4 is logged, and the result is 0.
unfoldable pub b2i : ℕ → List ℕ → ℕ
b2i n b =
    if n == 2
    then bit_or (at b 0 * 2 ^ 8) (at b 1)
    else if n == 3
    then bit_or (bit_or (at b 0 * 2 ^ 16) (at b 1 * 2 ^ 8)) (at b 2)
    else if n == 4
    then bit_and
        (bit_or (bit_or (bit_or (at b 0 * 2 ^ 24) (at b 1 * 2 ^ 16)) (at b 2 * 2 ^ 8)) (at b 3))
        0xffff_ffff
    else 0

-- `for(i=0; i<n; k+=b[i++]) k<<=8;` in 64 bits.
unfoldable pub b2ll_loop : ℕ → ℕ → List ℕ → ℕ → ℕ
b2ll_loop zero i b k = k
b2ll_loop (suc left) i b k = b2ll_loop left (i + 1) b ((k * 2 ^ 8 % 2 ^ 64 + at b i) % 2 ^ 64)

unfoldable pub b2ll : ℕ → List ℕ → ℕ
unfolding b2ll_loop
b2ll n b = b2ll_loop n 0 b 0

-- `(i >> k) & 0xff`
abbrev pub byte_of : ℕ → ℕ → ℕ
byte_of i k = bit_and (i / 2 ^ k) 0xff

-- The case 4 of `i2b_buf`.
unfoldable pub i2b_four : ℕ → List ℕ → List ℕ
i2b_four i b =
    let b0 = set b 0 (byte_of i 24) in
    let b1 = set b0 1 (byte_of i 16) in let b2 = set b1 2 (byte_of i 8) in set b2 3 (byte_of i 0)

-- The case 3 has no `break` and runs on into the case 4.
unfoldable pub i2b_buf : ℕ → ℕ → List ℕ → List ℕ
unfolding i2b_four
i2b_buf n i b =
    if n == 2
    then set (set b 0 (byte_of i 8)) 1 (byte_of i 0)
    else if n == 3
    then i2b_four i (set (set (set b 0 (byte_of i 16)) 1 (byte_of i 8)) 2 (byte_of i 0))
    else if n == 4
    then i2b_four i b
    else b

-- `((((n-1)>>exp)+1)<<exp)` for n from 0 on; at 0 the arithmetic shift keeps the -1.
unfoldable pub boundary : ℕ → ℕ → ℕ
boundary exp zero = 0
boundary exp (suc n) = (n / 2 ^ exp + 1) * 2 ^ exp

-- The loop of `check_filled` from position `i` on, with the last hit `j`.
unfoldable pub filled_loop : List ℕ → ℕ → ℕ → ℕ
filled_loop [] i j = j
filled_loop (v ∷ vs) i j = filled_loop vs (i + 1) (if nonzero v then i + 1 else j)

unfoldable pub check_filled : List ℕ → ℕ
unfolding filled_loop
check_filled value = filled_loop value 0 0
