-- ===== src/Base/Bits.antt =====
-- Laws of `^`, `&` and `|` at variables, from the recursion on binary digits that they stand for.
use Prim.Native.Nat.{
  ℕ, zero, suc, ◌+◌, ◌-◌, ◌*◌, ◌^◌, ◌/◌, ◌%◌, ◌≤◌, ◌<◌, min, max, differ, digits, bitwise, bit_and,
  bit_or, bit_xor,
}
use Prim.Native.Nat.{bit_and-bitwise, bit_or-bitwise, bit_xor-bitwise}
use mathlib.Core.Path.{◌≡◌, refl, ap, ap₂, sym, ◌∙◌}
use native.Mathlib.Nat.{
  pow-suc, one-le-pow, mul-add-mod_self_right, mod-eq_of_lt, mod-lt, div-add-mod', mod-zero,
}
use native.Mathlib.Omega.{arith}

differ-eq : (x y : ℕ) → x < 2 → y < 2 → differ x y ≡ (x + y) % 2
differ-eq zero zero h k = refl
differ-eq zero (suc zero) h k = refl
differ-eq zero (suc (suc y)) h k = absurd (omega arith)
differ-eq (suc zero) zero h k = refl
differ-eq (suc zero) (suc zero) h k = refl
differ-eq (suc zero) (suc (suc y)) h k = absurd (omega arith)
differ-eq (suc (suc x)) y h k = absurd (omega arith)

module _ (z : ℕ → ℕ) (f : ℕ → ℕ → ℕ) where
  -- More digits than the first number has make no difference.
  digits_enough : (n a b : ℕ) → a ≤ n → digits z f (suc n) a b ≡ digits z f n a b
  digits_enough zero zero b h = refl
  digits_enough zero (suc a) b h = absurd (omega arith)
  digits_enough (suc n) zero b h = refl
  digits_enough (suc n) (suc a) b h =
      ap (λ (t : ℕ). t * 2 + f (suc a % 2) (b % 2))
        (digits_enough n (suc a / 2) (b / 2) (omega arith))

  digits_from : (k n a b : ℕ) → n ≡ k + a → digits z f n a b ≡ digits z f a a b
  digits_from zero n a b e = ap (λ (t : ℕ). digits z f t a b) (omega arith)
  digits_from (suc k) zero a b e = absurd (omega arith)
  digits_from (suc k) (suc n) a b e =
      digits_enough n a b (omega arith) ∙ digits_from k n a b (omega arith)

  bitwise_step :
      (a b : ℕ)
      → bitwise z f (suc a) b ≡ bitwise z f (suc a / 2) (b / 2) * 2 + f (suc a % 2) (b % 2)
  bitwise_step a b =
      ap (λ (t : ℕ). t * 2 + f (suc a % 2) (b % 2))
        (digits_from (a - suc a / 2) a (suc a / 2) (b / 2) (omega arith))

pub bit_xor_step : (x y : ℕ) → bit_xor x y ≡ bit_xor (x / 2) (y / 2) * 2 + (x % 2 + y % 2) % 2
bit_xor_step zero y = simp bit_xor-bitwise (omega arith)
bit_xor_step (suc x) y =
    simp bit_xor-bitwise
      (omega (arith, bitwise_step (λ t. t) differ x y, differ-eq (suc x % 2) (y % 2)))

pub bit_and_step : (x y : ℕ) → bit_and x y ≡ bit_and (x / 2) (y / 2) * 2 + min (x % 2) (y % 2)
bit_and_step zero y = simp bit_and-bitwise (omega arith)
bit_and_step (suc x) y = simp bit_and-bitwise (bitwise_step (λ t. 0) min x y)

pub bit_or_step : (x y : ℕ) → bit_or x y ≡ bit_or (x / 2) (y / 2) * 2 + max (x % 2) (y % 2)
bit_or_step zero y = simp bit_or-bitwise (omega arith)
bit_or_step (suc x) y = simp bit_or-bitwise (bitwise_step (λ t. t) max x y)

-- Induction on a bound in place of the halving.
bit_xor_undo_below : (n a b : ℕ) → a ≤ n → b ≤ n → bit_xor (bit_xor a b) b ≡ a
bit_xor_undo_below zero a b h k =
    let p : a ≡ 0 = omega arith in let q : b ≡ 0 = omega arith in rw (p, q)
bit_xor_undo_below (suc n) a b h k = omega (
  arith,
  bit_xor_step (bit_xor a b) b,
  bit_xor_step a b,
  half,
  bit_xor_undo_below n (a / 2) (b / 2) (omega arith) (omega arith),
)
  where
    half : bit_xor (bit_xor a b / 2) (b / 2) ≡ bit_xor (bit_xor (a / 2) (b / 2)) (b / 2)
    half = ap (λ (t : ℕ). bit_xor t (b / 2)) (omega (arith, bit_xor_step a b))

-- `^` with the same number undoes it.
pub bit_xor_undo : (a b : ℕ) → bit_xor (bit_xor a b) b ≡ a
bit_xor_undo a b = bit_xor_undo_below (a + b) a b (omega arith) (omega arith)

bit_xor_below : (k a b : ℕ) → a < 2 ^ k → b < 2 ^ k → bit_xor a b < 2 ^ k
bit_xor_below zero a b h l =
    let p : a ≡ 0 = omega arith in let q : b ≡ 0 = omega arith in rw (p, q) (omega arith)
bit_xor_below (suc k) a b h l = omega (
  arith,
  bit_xor_step a b,
  pow-suc 2 k,
  bit_xor_below k (a / 2) (b / 2) (omega (arith, pow-suc 2 k)) (omega (arith, pow-suc 2 k)),
)

-- The operands' width bounds the result.
pub bit_xor-byte : (a b : ℕ) → a < 256 → b < 256 → bit_xor a b < 256
bit_xor-byte a b h l = bit_xor_below 8 a b h l

bit_xor_comm_below : (n a b : ℕ) → a ≤ n → b ≤ n → bit_xor a b ≡ bit_xor b a
bit_xor_comm_below zero a b h k =
    let p : a ≡ 0 = omega arith in let q : b ≡ 0 = omega arith in rw (p, q)
bit_xor_comm_below (suc n) a b h k = omega (
  arith,
  bit_xor_step a b,
  bit_xor_step b a,
  bit_xor_comm_below n (a / 2) (b / 2) (omega arith) (omega arith),
)

pub bit_xor_comm : (a b : ℕ) → bit_xor a b ≡ bit_xor b a
bit_xor_comm a b = bit_xor_comm_below (a + b) a b (omega arith) (omega arith)

pub zero-bit_xor : (a : ℕ) → bit_xor 0 a ≡ a
zero-bit_xor a = bit_xor-bitwise 0 a

pub bit_xor-zero : (a : ℕ) → bit_xor a 0 ≡ a
bit_xor-zero a = bit_xor_comm a 0 ∙ zero-bit_xor a

pub bit_xor_self : (a : ℕ) → bit_xor a a ≡ 0
bit_xor_self a = ap (λ (t : ℕ). bit_xor t a) (sym (zero-bit_xor a)) ∙ bit_xor_undo 0 a

or_zero_below : (n a : ℕ) → a ≤ n → bit_or a 0 ≡ a
or_zero_below n zero h = refl
or_zero_below zero (suc a) h = absurd (omega arith)
or_zero_below (suc n) (suc a) h =
    omega (arith, bit_or_step (suc a) 0, or_zero_below n (suc a / 2) (omega arith))

or_zero : (a : ℕ) → bit_or a 0 ≡ a
or_zero a = or_zero_below a a (omega arith)

and_zero_below : (n a : ℕ) → a ≤ n → bit_and a 0 ≡ 0
and_zero_below n zero h = refl
and_zero_below zero (suc a) h = absurd (omega arith)
and_zero_below (suc n) (suc a) h =
    omega (arith, bit_and_step (suc a) 0, and_zero_below n (suc a / 2) (omega arith))

double_pow : (hi k : ℕ) → hi * 2 ^ suc k ≡ hi * 2 ^ k * 2
double_pow hi k = omega (arith, ap (λ (t : ℕ). hi * t) (pow-suc 2 k))

-- `|` of a number shifted by `k` and one of `k` bits is their sum.
pub or_disjoint : (k hi lo : ℕ) → lo < 2 ^ k → bit_or (hi * 2 ^ k) lo ≡ hi * 2 ^ k + lo
or_disjoint zero hi lo h =
    let z : lo ≡ 0 = omega arith in rw z (rw (or_zero (hi * 2 ^ 0)) (omega arith))
or_disjoint (suc k) hi lo h = ground (
  arith,
  bit_or_step (hi * 2 ^ suc k) lo,
  double_pow hi k,
  pow-suc 2 k,
  or_disjoint k hi (lo / 2),
)

-- The same where the first number is known as a multiple.
pub or_add : (k a lo : ℕ) → a % 2 ^ k ≡ 0 → lo < 2 ^ k → bit_or a lo ≡ a + lo
or_add k a lo m h =
    ap (λ (t : ℕ). bit_or t lo) shape
    ∙ or_disjoint k (a / 2 ^ k) lo h
    ∙ ap (λ (t : ℕ). t + lo) (sym shape)
  where
    shape : a ≡ a / 2 ^ k * 2 ^ k
    shape = omega (arith, div-add-mod' a (2 ^ k))

half_mod : (m a : ℕ) → a % (m * 2) ≡ a / 2 % m * 2 + a % 2
half_mod zero a = omega (arith, mod-zero a, mod-zero (a / 2))
half_mod (suc m) a =
    ap (λ (t : ℕ). t % (suc m * 2)) split
    ∙ mul-add-mod_self_right (a / 2 / suc m) (suc m * 2) (a / 2 % suc m * 2 + a % 2)
    ∙ mod-eq_of_lt (omega (arith, mod-lt (a / 2) {m = suc m}))
  where
    split : a ≡ a / 2 / suc m * (suc m * 2) + (a / 2 % suc m * 2 + a % 2)
    split = omega (arith, div-add-mod' (a / 2) (suc m))

-- `&` with `k` ones is the remainder.
pub and_low : (k a : ℕ) → bit_and a (2 ^ k - 1) ≡ a % 2 ^ k
and_low zero a = and_zero_below a a (omega arith) ∙ omega arith
and_low (suc k) a = ground (
  arith,
  bit_and_step a (2 ^ suc k - 1),
  pow-suc 2 k,
  and_low k (a / 2),
  one-le-pow k 2,
  half_mod (2 ^ k) a,
)

bit_xor_swap_below :
    (n a b c : ℕ) → a ≤ n → b ≤ n → c ≤ n → bit_xor (bit_xor a b) c ≡ bit_xor (bit_xor a c) b
bit_xor_swap_below zero a b c p q r =
    let x : a ≡ 0 = omega arith in
    let y : b ≡ 0 = omega arith in let z : c ≡ 0 = omega arith in rw (x, y, z)
bit_xor_swap_below (suc n) a b c p q r = omega (
  arith,
  bit_xor_step (bit_xor a b) c,
  bit_xor_step (bit_xor a c) b,
  bit_xor_step a b,
  bit_xor_step a c,
  half b c,
  half c b,
  bit_xor_swap_below n (a / 2) (b / 2) (c / 2) (omega arith) (omega arith) (omega arith),
)
  where
    half : (x y : ℕ) → bit_xor (bit_xor a x / 2) (y / 2) ≡ bit_xor (bit_xor (a / 2) (x / 2)) (y / 2)
    half x y = ap (λ (t : ℕ). bit_xor t (y / 2)) (omega (arith, bit_xor_step a x))

-- The order of two `^` does not matter.
pub bit_xor_swap : (a b c : ℕ) → bit_xor (bit_xor a b) c ≡ bit_xor (bit_xor a c) b
bit_xor_swap a b c = bit_xor_swap_below (a + b + c) a b c (omega arith) (omega arith) (omega arith)

-- `^` works on the low bits alone.
pub bit_xor-mod : (k a b : ℕ) → bit_xor a b % 2 ^ k ≡ bit_xor (a % 2 ^ k) (b % 2 ^ k)
bit_xor-mod zero a b =
    let p : a % 2 ^ 0 ≡ 0 = omega arith in
    let q : b % 2 ^ 0 ≡ 0 = omega arith in rw (p, q) (omega arith)
bit_xor-mod (suc k) a b = omega (
  arith,
  low (bit_xor a b),
  low a,
  low b,
  bit_xor_step a b,
  bit_xor_step (a % 2 ^ suc k) (b % 2 ^ suc k),
  ap (λ (t : ℕ). t % 2 ^ k) halves,
  bit_xor-mod k (a / 2) (b / 2),
  ap₂ bit_xor (low_half a) (low_half b),
)
  where
    low : (x : ℕ) → x % 2 ^ suc k ≡ x / 2 % 2 ^ k * 2 + x % 2
    low x = ap (λ (t : ℕ). x % t) (pow-suc 2 k) ∙ half_mod (2 ^ k) x

    low_half : (x : ℕ) → x % 2 ^ suc k / 2 ≡ x / 2 % 2 ^ k
    low_half x = omega (arith, low x)

    halves : bit_xor a b / 2 ≡ bit_xor (a / 2) (b / 2)
    halves = omega (arith, bit_xor_step a b)
