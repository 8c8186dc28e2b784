-- ===== src/Balance/Choice/Order.antt =====
-- About the order in which readers are taken, and how many.
use mathlib.Core.Path.{subst}
use oscam_vdr.Base.{
  ℕ, zero, suc, ◌+◌, ◌≤◌, ◌<◌, ◌≡◌, ◌≢◌, sym, true, false, Option, none, some, List, [], ◌∷◌,
  nonzero, if◌then◌else◌, Bool-cases, Option-cases, inl, inr, arith,
}
use oscam_vdr.Balance.Choice.{
  StatValue, Limits, Kind, primary, fallback, Pick, eligible, best_of, taken, less_one, take_best,
  no_more, choose,
}
use oscam_vdr.Balance.Choice.Best.{
  pending_values, NotBelow, Occurs, Best, Best-Best, taken-NotBelow, pending_values-taken_lt,
}

-- The readers that count against the limits.
abbrev pub counting : List Pick → ℕ
counting [] = 0
counting (p ∷ ps) = (if p.chosen.timeout then 0 else 1) + counting ps

abbrev pub primaries : List Pick → ℕ
primaries [] = 0
primaries (p ∷ ps) = (elim p.kind [ primary ↦ 1 | fallback ↦ 0 ]) + primaries ps

abbrev pub total_of : Limits → ℕ
total_of lim = lim.nlocal_readers + lim.nbest_readers + lim.nfb_readers

abbrev pub AtMost : ℕ → Option ℕ → Type 0
AtMost k none = Unit
AtMost k (some n) = k ≤ n

abbrev pub TakesOne : Limits → StatValue → Option (Kind × Limits) → Type 0
TakesOne lim best none = Unit
TakesOne lim best (some (kind, lim')) =
    ((if best.timeout then 0 else 1) + total_of lim' ≤ total_of lim)
    × ((k : ℕ)
        → AtMost k lim'.nreaders
        → no_more lim.nreaders ≡ false
        → AtMost ((elim kind [ primary ↦ 1 | fallback ↦ 0 ]) + k) lim.nreaders)
    × (lim.nlocal_readers ≡ 0 → lim'.nlocal_readers ≡ 0)

one_less : (o : Option ℕ) (k : ℕ) → AtMost k (less_one o) → no_more o ≡ false → AtMost (1 + k) o
one_less none k h n = tt
one_less (some m) k h n = ground (arith, h, n)

as_before : (o : Option ℕ) (k : ℕ) → AtMost k o → AtMost (0 + k) o
as_before none k h = tt
as_before (some m) k h = omega (arith, h)

take_best-TakesOne : (lim : Limits) (best : StatValue) → TakesOne lim best (take_best lim best)
unfolding take_best
take_best-TakesOne lim best = elim (Bool-cases (nonzero lim.nlocal_readers)) [
  | inl a ↦ rw a (ground arith, one_less lim.nreaders, λ z. absurd (ground arith))
  | inr a ↦ rw a (elim (Bool-cases (nonzero lim.nbest_readers)) [
    | inl b ↦ rw b (ground arith, one_less lim.nreaders, λ z. z)
    | inr b ↦ rw b (elim (Bool-cases (nonzero lim.nfb_readers)) [
      | inl c ↦ rw c (ground arith, λ k h n. as_before lim.nreaders k h, λ z. z)
      | inr c ↦ rw c tt
    ])
  ])
]

-- The loop ended, within the limits.
abbrev pub Limited : Limits → Option (List Pick × List StatValue) → Type 0
Limited lim none = ⊥
Limited lim (some (picks, rest)) =
    (counting picks ≤ total_of lim) × AtMost (primaries picks) lim.nreaders

-- From a bound on, the values do not fall, and those left open are not below the last.
abbrev pub Ascending : ℕ → List Pick → List StatValue → Type 0
Ascending lo [] rest = NotBelow 0 lo rest
Ascending lo (p ∷ ps) rest = (lo ≤ p.chosen.value) × Ascending p.chosen.value ps rest

abbrev pub Ordered : ℕ → Option (List Pick × List StatValue) → Type 0
Ordered lo none = ⊥
Ordered lo (some (picks, rest)) = Ascending lo picks rest

AtMost-zero : (o : Option ℕ) → AtMost 0 o
AtMost-zero none = tt
AtMost-zero (some n) = omega arith

abbrev pub with_pick :
    StatValue → Kind → Option (List Pick × List StatValue) → Option (List Pick × List StatValue)
with_pick best kind none = none
with_pick best kind (some x) = some (record { chosen = best; kind = kind } ∷ x.0, x.1)

eligible-ne_zero : (nl : ℕ) (b : StatValue) → eligible nl b ≡ true → b.value ≢ 0
eligible-ne_zero nl b e = ground arith

-- A property of what the loop ends with holds if it holds where the loop stops, and each reader
-- that is taken keeps it.
module _ (Q : Limits → List StatValue → Option (List Pick × List StatValue) → Type 0)
    (stops : (lim : Limits) (vs : List StatValue) → Q lim vs (some ([], vs)))
    (goes_on : (lim lim' : Limits) (vs : List StatValue) (best : StatValue) (kind : Kind)
        (r : Option (List Pick × List StatValue))
      → no_more lim.nreaders ≡ false
      → eligible lim.nlocal_readers best ≡ true
      → NotBelow lim.nlocal_readers best.value vs
      → Occurs best vs
      → TakesOne lim best (some (kind, lim'))
      → Q lim' (taken best.rdr vs) r
      → Q lim vs (with_pick best kind r)) where
  pub choose-induct :
      (rounds : ℕ) (lim : Limits) (vs : List StatValue)
      → pending_values vs < rounds
      → Q lim vs (choose rounds lim vs)
  unfolding choose
  choose-induct zero lim vs b = absurd (omega arith)
  choose-induct (suc rounds) lim vs b = elim (Bool-cases (no_more lim.nreaders)) [
    | inl d ↦ rw (d, choose) (stops lim vs)
    | inr d ↦
        rw (d, choose)
          (elim (Option-cases (best_of lim.nlocal_readers vs none)) [
            | inl e ↦ rw (e, choose) (stops lim vs)
            | inr (best, e) ↦
                rw (e, choose)
                  (let h : Best lim.nlocal_readers vs none (some best) =
                      subst (Best lim.nlocal_readers vs none) e (Best-Best lim.nlocal_readers vs) in
                    elim (Option-cases (take_best lim best)) [
                      | inl f ↦ rw (f, choose) (stops lim vs)
                      | inr (x, f) ↦
                          rw (f, choose)
                            (goes_on lim x.1 vs best x.0 (choose rounds x.1 (taken best.rdr vs)) d
                              h.0 h.1 h.3
                              (subst (TakesOne lim best) f (take_best-TakesOne lim best))
                              (choose-induct rounds x.1 (taken best.rdr vs) (
                                let q =
                                  pending_values-taken_lt best vs
                                    (eligible-ne_zero lim.nlocal_readers best h.0) h.3 in
                                omega arith)))
                    ])
          ])
  ]

Limited-more :
    (lim lim' : Limits) (best : StatValue) (kind : Kind) (r : Option (List Pick × List StatValue))
    → TakesOne lim best (some (kind, lim'))
    → no_more lim.nreaders ≡ false
    → Limited lim' r
    → Limited lim (with_pick best kind r)
Limited-more lim lim' best kind none t n h = h
Limited-more lim lim' best kind (some (picks, rest)) t n h =
    (omega (arith, t.0, h.0), t.1 (primaries picks) h.1 n)

Ordered-more :
    (lo : ℕ) (best : StatValue) (kind : Kind) (r : Option (List Pick × List StatValue))
    → lo ≤ best.value
    → Ordered best.value r
    → Ordered lo (with_pick best kind r)
Ordered-more lo best kind none l h = h
Ordered-more lo best kind (some (picks, rest)) l h = (l, h)

Occurs-NotBelow :
    (nl lo : ℕ) (b : StatValue) (vs : List StatValue)
    → Occurs b vs
    → NotBelow nl lo vs
    → eligible nl b ≡ true
    → lo ≤ b.value
Occurs-NotBelow nl lo b [] m h e = absurd m
Occurs-NotBelow nl lo b (v ∷ vs) (inl p) h e =
    subst (λ (x : StatValue). lo ≤ x.value) p
      (h.0 (subst (λ (x : StatValue). eligible nl x ≡ true) (sym p) e))
Occurs-NotBelow nl lo b (v ∷ vs) (inr m) h e = Occurs-NotBelow nl lo b vs m h.1 e

-- The loop ends in one round more than there are values that are not 0. Of the readers taken, those
-- that did not time out are not more than the limits together, and those that are not fallbacks
-- not more than `nreaders`.
pub choose-Limited :
    (rounds : ℕ) (lim : Limits) (vs : List StatValue)
    → pending_values vs < rounds
    → Limited lim (choose rounds lim vs)
choose-Limited =
    choose-induct (λ lim vs r. Limited lim r) (λ lim vs. (omega arith, AtMost-zero lim.nreaders))
      (λ lim lim' vs best kind r n e b m t h. Limited-more lim lim' best kind r t n h)

zero_bound : (vs : List StatValue) → NotBelow 0 0 vs
zero_bound [] = tt
zero_bound (v ∷ vs) = (λ n. omega arith, zero_bound vs)

-- Where no local readers are preferred, the readers are taken from the lowest value up, and each
-- value that is left and is not 0 is at least that of the last reader taken.
pub choose-Ordered :
    (rounds : ℕ) (lim : Limits) (vs : List StatValue)
    → pending_values vs < rounds
    → lim.nlocal_readers ≡ 0
    → Ordered 0 (choose rounds lim vs)
choose-Ordered rounds lim vs b z =
    choose-induct (λ lim vs r. lim.nlocal_readers ≡ 0 → (lo : ℕ) → NotBelow 0 lo vs → Ordered lo r)
      (λ lim vs z lo h. h)
      (λ lim lim' vs best kind r n e b m t h z lo k.
        let e0 : eligible 0 best ≡ true = subst (λ (j : ℕ). eligible j best ≡ true) z e in
        let b0 : NotBelow 0 best.value vs = subst (λ (j : ℕ). NotBelow j best.value vs) z b in
        Ordered-more lo best kind r (Occurs-NotBelow 0 lo best vs m k e0)
          (h (t.2 z) best.value (taken-NotBelow 0 best.value best.rdr vs b0)))
      rounds lim vs b z 0 (zero_bound vs)
