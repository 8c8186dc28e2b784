-- ===== src/Convert/Hex/Digits.antt =====
-- About writing bytes as digits and reading them.
use oscam_vdr.Base.{
  ℕ, zero, suc, ◌+◌, ◌*◌, ◌/◌, ◌^◌, ◌≤◌, ◌<◌, ◌≡◌, refl, ap₂, sym, ◌∙◌, inl, inr, bit_and, bit_or,
  Bool, true, false, ◌&&◌, ◌||◌, not, List, [], ◌∷◌, ◌==◌, ==_iff, ltb, nonzero, if◌then◌else◌, set,
  length, u8, u32, to_int, All, arith, Bool-cases, all_below, all_below_sound, length-set,
  get_or-set_ne, get_or-set_self,
}
use native.Mathlib.Nat.{mod-eq_of_lt}
use oscam_vdr.Convert.Bytes.{at}
use oscam_vdr.Convert.Hex.{minus_one, gethexval, hex_pair, atob_loop, cs_atob, to_hex, char_to_hex}

pair_table : all_below 256 (λ b. hex_pair (to_hex (b / 16)) (to_hex (bit_and b 15)) == b) ≡ true
unfolding all_below hex_pair gethexval to_hex
pair_table = refl

-- The two digits of a byte read back as the byte.
pub hex_pair-to_hex : (b : ℕ) → b < 256 → hex_pair (to_hex (b / 16)) (to_hex (bit_and b 15)) ≡ b
hex_pair-to_hex b h = (==_iff _ b).0 (all_below_sound 256 _ b pair_table h)

-- A digit value, or -1 at 16.
abbrev digit_or : ℕ → ℕ
digit_or k = if ltb k 16 then k else minus_one

abbrev pub is_hex : ℕ → Bool
is_hex c = not (gethexval c == minus_one)

abbrev index_of : ℕ → ℕ
index_of c = if is_hex c then gethexval c else 16

gethexval-digit :
    (c : ℕ)
    → (index_of c < 17)
      × (gethexval c ≡ digit_or (index_of c))
      × (is_hex c ≡ not (index_of c == 16))
unfolding gethexval
gethexval-digit c = ground arith

error_table :
    all_below 17 (λ a. all_below 17 (λ b.
      to_int (nonzero (bit_and (bit_or (u32 (digit_or a * 2 ^ 4)) (digit_or b)) 0x100))
      == to_int (a == 16 || b == 16)))
    ≡ true
unfolding all_below
error_table = refl

to_int_injective : (a b : Bool) → to_int a ≡ to_int b → a ≡ b
to_int_injective a b h = ground arith

not_and : (a b : Bool) → (a || b) ≡ not (not a && not b)
not_and a b = ground arith

error_at :
    (a b : ℕ)
    → a < 17
    → b < 17
    → nonzero (bit_and (bit_or (u32 (digit_or a * 2 ^ 4)) (digit_or b)) 0x100)
      ≡ (a == 16 || b == 16)
error_at a b h k =
    to_int_injective _ _
      ((==_iff _ _).0 (all_below_sound 17 _ b (all_below_sound 17 _ a error_table h) k))

error_of :
    (x y a b : ℕ)
    → a < 17
    → b < 17
    → x ≡ digit_or a
    → y ≡ digit_or b
    → nonzero (bit_and (bit_or (u32 (x * 2 ^ 4)) y) 0x100) ≡ (a == 16 || b == 16)
error_of x y a b h k p q =
    ap₂ (λ (s t : ℕ). nonzero (bit_and (bit_or (u32 (s * 2 ^ 4)) t) 0x100)) p q ∙ error_at a b h k

-- The test `& 0x100` finds exactly the pairs with a bad digit.
pub hex_pair_error : (c d : ℕ) → nonzero (bit_and (hex_pair c d) 0x100) ≡ not (is_hex c && is_hex d)
unfolding hex_pair
hex_pair_error c d =
    let hc = gethexval-digit c in
    let hd = gethexval-digit d in
    error_of (gethexval c) (gethexval d) (index_of c) (index_of d) hc.0 hd.0 hc.1 hd.1
    ∙ not_and (index_of c == 16) (index_of d == 16)
    ∙ ap₂ (λ (s t : Bool). not (s && t)) (sym hc.2) (sym hd.2)

-- The digits of byte `i`.
at-char_to_hex :
    (bs : List ℕ) (i : ℕ)
    → i < length bs
    → (at (char_to_hex bs) (2 * i) ≡ to_hex (at bs i / 16))
      × (at (char_to_hex bs) (2 * i + 1) ≡ to_hex (bit_and (at bs i) 15))
unfolding char_to_hex
at-char_to_hex [] i h = absurd (omega arith)
at-char_to_hex (b ∷ bs) zero h = (refl, refl)
at-char_to_hex (b ∷ bs) (suc i) h =
    let e : 2 * suc i ≡ suc (suc (2 * i)) = omega arith in
    let f : 2 * suc i + 1 ≡ suc (suc (2 * i + 1)) = omega arith in
    rw (f, e) (at-char_to_hex bs i (omega arith))

-- `n` rounds from `i` on that write the bytes of `bs`.
copy_from : ℕ → ℕ → List ℕ → List ℕ → List ℕ
copy_from zero i bs buf = buf
copy_from (suc left) i bs buf = copy_from left (i + 1) bs (set buf i (at bs i))

at-copy_from :
    (left i j : ℕ) (bs buf : List ℕ)
    → i + left ≤ length buf
    → ((j < i) → at (copy_from left i bs buf) j ≡ at buf j)
      × (i ≤ j → j < i + left → at (copy_from left i bs buf) j ≡ at bs j)
      × (i + left ≤ j → at (copy_from left i bs buf) j ≡ at buf j)
unfolding copy_from
at-copy_from zero i j bs buf h = (λ p. refl, λ p q. absurd (omega arith), λ p. refl)
at-copy_from (suc left) i j bs buf h =
    let next =
      at-copy_from left (i + 1) j bs (set buf i (at bs i))
        (rw (length-set buf i (at bs i)) (omega arith)) in
    (
      λ p. next.0 (omega arith) ∙ get_or-set_ne buf i j (at bs i) 0 (λ e. omega arith),
      λ p q. elim (Bool-cases (i == j)) [
        | inl e ↦
            let same : i ≡ j = ground arith in
            next.0 (omega arith) ∙ rw (← same) (get_or-set_self buf i (at bs i) 0 (omega arith))
        | inr e ↦ next.1 (ground arith) (omega arith)
      ],
      λ p. next.2 (omega arith) ∙ get_or-set_ne buf i j (at bs i) 0 (λ e. omega arith),
    )

at-byte : (bs : List ℕ) (i : ℕ) → All (λ x. x < 256) bs → at bs i < 256
at-byte [] i h = omega arith
at-byte (b ∷ bs) zero h = h.0
at-byte (b ∷ bs) (suc i) h = at-byte bs i h.1

clear_table : all_below 256 (λ b. to_int (nonzero (bit_and b 0x100)) == to_int false) ≡ true
unfolding all_below
clear_table = refl

no_error : (b : ℕ) → b < 256 → nonzero (bit_and b 0x100) ≡ false
no_error b h = (to_int_injective _ _ ((==_iff _ _).0 (all_below_sound 256 _ b clear_table h)))

atob_loop-copy :
    (left i n : ℕ) (bs buf : List ℕ)
    → All (λ x. x < 256) bs
    → i + left ≤ length bs
    → atob_loop left i buf (char_to_hex bs) n ≡ (n, copy_from left i bs buf)
unfolding atob_loop copy_from
atob_loop-copy zero i n bs buf h fit = refl
atob_loop-copy (suc left) i n bs buf h fit =
    let b = at bs i in
    let small = at-byte bs i h in
    let digits = at-char_to_hex bs i (omega arith) in
    rw (digits.0, digits.1, hex_pair-to_hex b small, no_error b small, atob_loop)
      (rw (digits.0, digits.1, hex_pair-to_hex b small, mod-eq_of_lt small)
        (atob_loop-copy left (i + 1) n bs (set buf i b) h (omega arith)))

-- Reading the digits that `char_to_hex` wrote, into a buffer with room for them, returns the
-- number of bytes and writes those bytes, and nothing behind them.
pub cs_atob-char_to_hex :
    (bs buf : List ℕ) (j : ℕ)
    → All (λ x. x < 256) bs
    → length bs ≤ length buf
    → let (rc, out) = cs_atob buf (char_to_hex bs) (length bs) in
      (rc ≡ length bs) × (at out j ≡ (if ltb j (length bs) then at bs j else at buf j))
unfolding cs_atob
cs_atob-char_to_hex bs buf j h fit =
    rw (atob_loop-copy (length bs) 0 (length bs) bs buf h (omega arith)) (
      refl,
      ground (
        arith,
        (at-copy_from (length bs) 0 j bs buf (omega arith)).1,
        (at-copy_from (length bs) 0 j bs buf (omega arith)).2,
      ),
    )

-- The pairs of digits from number `i` on, `left` of them, are hexadecimal.
abbrev pub pairs_hex : ℕ → ℕ → List ℕ → Bool
pairs_hex zero i asc = true
pairs_hex (suc left) i asc =
    (is_hex (at asc (2 * i)) && is_hex (at asc (2 * i + 1))) && pairs_hex left (i + 1) asc

atob_loop-pairs_hex :
    (left i n : ℕ) (buf asc : List ℕ)
    → (atob_loop left i buf asc n).0 ≡ (if pairs_hex left i asc then n else minus_one)
unfolding atob_loop
atob_loop-pairs_hex zero i n buf asc = refl
atob_loop-pairs_hex (suc left) i n buf asc = ground (
  arith,
  hex_pair_error (at asc (2 * i)) (at asc (2 * i + 1)),
  atob_loop-pairs_hex left (i + 1) n
      (set buf i (u8 (hex_pair (at asc (2 * i)) (at asc (2 * i + 1))))) asc,
)

-- `cs_atob` returns its argument `n` exactly when the first 2 n bytes are hexadecimal digits, and
-- -1 otherwise.
pub cs_atob-pairs_hex :
    (n : ℕ) (buf asc : List ℕ)
    → (cs_atob buf asc n).0 ≡ (if pairs_hex n 0 asc then n else minus_one)
unfolding cs_atob
cs_atob-pairs_hex n buf asc = atob_loop-pairs_hex n 0 n buf asc
