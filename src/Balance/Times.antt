-- ===== src/Balance/Times.antt =====
-- About the average time of a reader, and how long a reader that failed is left alone.
use native.Mathlib.Nat.{mul-le-mul_right, div-mul-le_self, le-div_iff_mul-le, div-le_of_le-mul}
use oscam_vdr.Base.{
  ℕ, ◌+◌, ◌*◌, ◌/◌, ◌≤◌, ◌<◌, ◌≡◌, ◌≢◌, true, false, List, [], ◌∷◌, ◌==◌, if◌then◌else◌, u32, All,
  length, Bool-cases, inl, inr, arith,
}
use oscam_vdr.Balance.{
  ReaderStat, Settings, positive, time_sum, calc_stat, get_reopen_seconds, limited,
}

-- The times that count.
abbrev pub counted : List ℕ → ℕ
counted [] = 0
counted (t ∷ ts) = (if positive t then 1 else 0) + counted ts

times_suc : (a c : ℕ) → a * (c + 1) ≡ a * c + a
times_suc a c = ground arith

-- Without overflow, the sum of the times that count lies between their number of times any bounds.
time_sum-bounds :
    (lo hi : ℕ) (times : List ℕ) (t c : ℕ)
    → All (λ (x : ℕ). positive x ≡ true → (lo ≤ x) × (x ≤ hi)) times
    → lo * c ≤ t
    → t ≤ hi * c
    → t + hi * length times < 2147483648
    → ((time_sum times t c).1 ≡ c + counted times)
      × (lo * (time_sum times t c).1 ≤ (time_sum times t c).0)
      × ((time_sum times t c).0 ≤ hi * (time_sum times t c).1)
time_sum-bounds lo hi [] t c a l h b = (omega arith, l, h)
time_sum-bounds lo hi (x ∷ xs) t c a l h b =
    let e : hi * (1 + length xs) ≡ hi * length xs + hi = ground arith in
    elim (Bool-cases (positive x)) [
      | inr n ↦
          rw (n, time_sum)
            (let (k, low, high) = time_sum-bounds lo hi xs t c a.1 l h (omega arith) in
              (omega (arith, k), low, high))
      | inl p ↦
          let (at_least, at_most) = a.0 p in
          let small : u32 (t + x) ≡ t + x = omega arith in
          let (k, low, high) =
            time_sum-bounds lo hi xs (t + x) (c + 1) a.1 (omega (arith, times_suc lo c))
              (omega (arith, times_suc hi c)) (omega arith) in
          rw (p, time_sum, small) (omega (arith, k), low, high)
    ]

quotient_bounds : (lo hi t c : ℕ) → c ≢ 0 → lo * c ≤ t → t ≤ hi * c → (lo ≤ t / c) × (t / c ≤ hi)
quotient_bounds lo hi t c n l h = (
  (le-div_iff_mul-le (omega arith)).1 l,
  div-le_of_le-mul c (let e : c * hi ≡ hi * c = ground arith in omega arith),
)

-- If some time counts, then the average time lies within any bounds of the times that count, if
-- these are small enough for their sum.
pub calc_stat-bounds :
    (stat : ReaderStat) (lo hi : ℕ)
    → All (λ (x : ℕ). positive x ≡ true → (lo ≤ x) × (x ≤ hi)) stat.time_stat
    → hi * length stat.time_stat < 2147483648
    → counted stat.time_stat ≢ 0
    → (lo ≤ (calc_stat stat).time_avg) × ((calc_stat stat).time_avg ≤ hi)
unfolding calc_stat
calc_stat-bounds stat lo hi a b n =
    let (k, l, h) =
      time_sum-bounds lo hi stat.time_stat 0 0 a (omega arith) (omega arith) (omega arith) in
    let c = (time_sum stat.time_stat 0 0).1 in
    let e : (c == 0) ≡ false = ground arith in
    rw e (quotient_bounds lo hi (time_sum stat.time_stat 0 0).0 c (λ z. omega (arith, k)) l h)

product_bound : (a b c d : ℕ) → a ≤ b → b * c ≤ d → a * c ≤ d
product_bound a b c d h k = let m : a * c ≤ b * c = mul-le-mul_right c h in omega arith

-- The limit on the fail factor keeps its product with the seconds from overflowing, and does not
-- raise it. This is so for every fail factor that is not negative.
pub reopen_seconds_small :
    (cfg : Settings) (stat : ReaderStat)
    → cfg.lb_reopen_seconds ≢ 0
    → cfg.lb_reopen_seconds < 2147483648
    → stat.fail_factor < 2147483648
    → let (seconds, stat') = get_reopen_seconds cfg stat in
      (seconds < 2147483648)
      × (stat'.fail_factor ≤ stat.fail_factor)
      × (stat'.fail_factor * cfg.lb_reopen_seconds ≤ seconds)
unfolding get_reopen_seconds
reopen_seconds_small cfg stat n b f =
    let max = 2147483647 / cfg.lb_reopen_seconds in
    let factor = limited max stat.fail_factor in
    let at_most : factor ≤ max = ground arith in
    let product : factor * cfg.lb_reopen_seconds ≤ 2147483647 =
      product_bound factor max cfg.lb_reopen_seconds 2147483647 at_most
        (div-mul-le_self 2147483647 cfg.lb_reopen_seconds) in
    elim (Bool-cases (factor == 0)) [
      | inr z ↦ rw z (omega arith, ground arith, omega arith)
      | inl z ↦
          let e : factor ≡ 0 = ground arith in rw z (omega arith, ground arith, rw e (omega arith))
    ]
