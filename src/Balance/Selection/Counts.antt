-- ===== src/Balance/Selection/Counts.antt =====
-- About how often a reader is in a list.
use oscam_vdr.Base.{
  ℕ, ◌+◌, ◌≤◌, ◌≡◌, refl, true, false, List, [], ◌∷◌, ◌++◌, ◌==◌, if◌then◌else◌, All, arith,
}
use oscam_vdr.Balance.Selection.Candidates.{ids, Candidate}
use oscam_vdr.Balance.Selection.Reopening.{contains, without}

-- How often a reader is in a list.
abbrev pub occ : ℕ → List ℕ → ℕ
occ r [] = 0
occ r (x ∷ xs) = (if x == r then 1 else 0) + occ r xs

pub occ-append : (r : ℕ) (xs ys : List ℕ) → occ r (xs ++ ys) ≡ occ r xs + occ r ys
occ-append r [] ys = omega arith
occ-append r (x ∷ xs) ys = let ih = occ-append r xs ys in omega arith

-- Every reader of a list is among those that match.
pub listed :
    (all cs : List Candidate)
    → ((r : ℕ) → occ r (ids cs) ≤ occ r (ids all))
    → All (λ c. 1 ≤ occ c.rdr (ids all)) cs
listed all [] h = tt
listed all (c ∷ cs) h =
    let e : (c.rdr == c.rdr) ≡ true = ground arith in
    let k = rw e at (h c.rdr) in (omega (arith, k), listed all cs (λ r. let q = h r in omega arith))

pub contains-occ : (r : ℕ) (rs : List ℕ) → contains r rs ≡ false → occ r rs ≡ 0
contains-occ r [] h = refl
contains-occ r (x ∷ xs) h = ground (arith, contains-occ r xs)

pub occ-without : (r rdr : ℕ) (rs : List ℕ) → occ r (without rdr rs) ≤ occ r rs
occ-without r rdr [] = omega arith
occ-without r rdr (x ∷ xs) = ground (arith, occ-without r rdr xs)

pub occ-without_own : (rdr : ℕ) (rs : List ℕ) → occ rdr (without rdr rs) ≡ 0
occ-without_own rdr [] = refl
occ-without_own rdr (x ∷ xs) = ground (arith, occ-without_own rdr xs)
