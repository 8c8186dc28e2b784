-- ===== src/Balance/Choice/Best.antt =====
-- About the inner loop: the best of the values, and what taking it leaves.
use oscam_vdr.Base.{
  ℕ, ◌+◌, ◌≤◌, ◌<◌, ◌≡◌, ◌≢◌, refl, true, false, Option, none, some, List, [], ◌∷◌, ltb, ◌==◌,
  ==_refl, nonzero, if◌then◌else◌, All, Bool-cases, ◌⊎◌, inl, inr, arith,
}
use oscam_vdr.Balance.Choice.{StatValue, eligible, best_of, taken}

-- The number of values that are not 0.
abbrev pub pending_values : List StatValue → ℕ
pending_values [] = 0
pending_values (v ∷ vs) = (if nonzero v.value then 1 else 0) + pending_values vs

-- No value that the inner loop looks at is below this one.
abbrev pub NotBelow : ℕ → ℕ → List StatValue → Type 0
NotBelow nlocal lo = All λ (v : StatValue). eligible nlocal v ≡ true → lo ≤ v.value

abbrev pub Occurs : StatValue → List StatValue → Type 0
Occurs b [] = ⊥
Occurs b (v ∷ vs) = (v ≡ b) ⊎ Occurs b vs

abbrev pub Among : StatValue → Option StatValue → List StatValue → Type 0
Among b none vs = Occurs b vs
Among b (some b0) vs = (b0 ≡ b) ⊎ Occurs b vs

abbrev pub Upto : ℕ → Option StatValue → Type 0
Upto k none = Unit
Upto k (some b) = k ≤ b.value

abbrev Good : ℕ → Option StatValue → Type 0
Good nlocal none = Unit
Good nlocal (some b) = eligible nlocal b ≡ true

-- What the inner loop ends with, from a best so far.
abbrev pub Best : ℕ → List StatValue → Option StatValue → Option StatValue → Type 0
Best nlocal vs best none = best ≡ none
Best nlocal vs best (some b) =
    (eligible nlocal b ≡ true) × NotBelow nlocal b.value vs × Upto b.value best × Among b best vs

Best-new :
    (nl : ℕ) (v : StatValue) (vs : List StatValue) (r : Option StatValue)
    → Best nl vs (some v) r
    → Best nl (v ∷ vs) none r
Best-new nl v vs none h = absurd (ground (arith, h))
Best-new nl v vs (some b) h = (h.0, (λ n. h.2, h.1), tt, h.3)

Best-skip :
    (nl : ℕ) (v : StatValue) (vs : List StatValue) (r : Option StatValue)
    → eligible nl v ≡ false
    → Best nl vs none r
    → Best nl (v ∷ vs) none r
Best-skip nl v vs none e h = refl
Best-skip nl v vs (some b) e h = (h.0, (λ n. absurd (ground (arith, e, n)), h.1), tt, inr h.3)

Best-replace :
    (nl : ℕ) (v b0 : StatValue) (vs : List StatValue) (r : Option StatValue)
    → v.value < b0.value
    → Best nl vs (some v) r
    → Best nl (v ∷ vs) (some b0) r
Best-replace nl v b0 vs none l h = absurd (ground (arith, h))
Best-replace nl v b0 vs (some b) l h = (h.0, (λ n. h.2, h.1), omega (arith, h.2), inr h.3)

Best-keep :
    (nl : ℕ) (v b0 : StatValue) (vs : List StatValue) (r : Option StatValue)
    → (eligible nl v ≡ true → b0.value ≤ v.value)
    → Best nl vs (some b0) r
    → Best nl (v ∷ vs) (some b0) r
Best-keep nl v b0 vs none l h = absurd (ground (arith, h))
Best-keep nl v b0 vs (some b) l h = (
  h.0,
  (λ n. (let k = l n in omega (arith, h.2)), h.1),
  h.2,
  elim h.3 [ inl e ↦ inl e | inr m ↦ inr (inr m) ],
)

best_of-Best :
    (nl : ℕ) (vs : List StatValue) (best : Option StatValue)
    → Good nl best
    → Best nl vs best (best_of nl vs best)
best_of-Best nl [] none g = refl
best_of-Best nl [] (some b) g = (g, tt, omega arith, inl refl)
best_of-Best nl (v ∷ vs) none g = elim (Bool-cases (eligible nl v)) [
  | inl e ↦ rw e (Best-new nl v vs (best_of nl vs (some v)) (best_of-Best nl vs (some v) e))
  | inr e ↦ rw e (Best-skip nl v vs (best_of nl vs none) e (best_of-Best nl vs none tt))
]
best_of-Best nl (v ∷ vs) (some b) g = elim (Bool-cases (eligible nl v)) [
  | inr e ↦ rw e (
      Best-keep nl v b vs (best_of nl vs (some b)) (λ n. absurd (ground (arith, e, n)))
        (best_of-Best nl vs (some b) g))
  | inl e ↦ rw e (elim (Bool-cases (ltb v.value b.value)) [
    | inl l ↦ rw l (
        Best-replace nl v b vs (best_of nl vs (some v)) (ground arith)
          (best_of-Best nl vs (some v) e))
    | inr l ↦ rw l (
        Best-keep nl v b vs (best_of nl vs (some b)) (λ n. ground arith)
          (best_of-Best nl vs (some b) g))
  ])
]

pub taken-NotBelow :
    (nl lo rdr : ℕ) (vs : List StatValue) → NotBelow nl lo vs → NotBelow nl lo (taken rdr vs)
taken-NotBelow nl lo rdr [] h = tt
taken-NotBelow nl lo rdr (v ∷ vs) h = elim (Bool-cases (v.rdr == rdr)) [
  | inl e ↦ rw e (λ n. absurd (ground (arith, n)), taken-NotBelow nl lo rdr vs h.1)
  | inr e ↦ rw e (h.0, taken-NotBelow nl lo rdr vs h.1)
]

pending_values-taken :
    (rdr : ℕ) (vs : List StatValue) → pending_values (taken rdr vs) ≤ pending_values vs
pending_values-taken rdr [] = omega arith
pending_values-taken rdr (v ∷ vs) = ground (arith, pending_values-taken rdr vs)

-- Taking a value that is not 0 leaves fewer of these.
pub pending_values-taken_lt :
    (b : StatValue) (vs : List StatValue)
    → b.value ≢ 0
    → Occurs b vs
    → pending_values (taken b.rdr vs) < pending_values vs
pending_values-taken_lt b [] n m = absurd m
pending_values-taken_lt b (v ∷ vs) n (inl e) =
    rw (e, ==_refl b.rdr)
      (let o : nonzero b.value ≡ true = ground arith in
        rw o (omega (arith, pending_values-taken b.rdr vs)))
pending_values-taken_lt b (v ∷ vs) n (inr m) = ground (arith, pending_values-taken_lt b vs n m)

-- What the best of all is for a list of values: a lowest one that the loop looks at.
pub Best-Best : (nl : ℕ) (vs : List StatValue) → Best nl vs none (best_of nl vs none)
Best-Best nl vs = best_of-Best nl vs none tt
