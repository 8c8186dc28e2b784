-- ===== src/Balance/Selection/Valued.antt =====
-- About the readers that the loops of `get_best_reader` value and take.
use oscam_vdr.Base.{
  ℕ, suc, ◌+◌, ◌≤◌, ◌≡◌, refl, Bool, true, false, ◌&&◌, ◌||◌, Option, none, some, List, [], ◌∷◌,
  ◌++◌, ltb, ◌==◌, nonzero, if◌then◌else◌, length, Bool-cases, Option-cases, inl, inr, arith,
}
use oscam_vdr.Balance.{ReaderStat, Settings, negative, rc_found, get_retrylimit}
use oscam_vdr.Balance.Choice.{StatValue, Limits, Kind, Pick, eligible, taken, no_more, choose}
use oscam_vdr.Balance.Choice.Best.{pending_values, Occurs}
use oscam_vdr.Balance.Choice.Order.{with_pick, choose-induct}
use oscam_vdr.Balance.Selection.Candidates.{ids, Candidate}
use oscam_vdr.Balance.Selection.{
  Selection, append_result, current_of, adjusted, crt_cur, select, value_stat, value_round,
  value_loop, readers_of,
}
use oscam_vdr.Balance.Selection.Counts.{occ, occ-append}

-- The values of a reader that are not 0.
abbrev pub openings : ℕ → List StatValue → ℕ
openings r [] = 0
openings r (v ∷ vs) = (if (v.rdr == r) && nonzero v.value then 1 else 0) + openings r vs

openings-append :
    (r : ℕ) (xs ys : List StatValue) → openings r (xs ++ ys) ≡ openings r xs + openings r ys
openings-append r [] ys = omega arith
openings-append r (x ∷ xs) ys = let ih = openings-append r xs ys in omega arith

abbrev pub held : ℕ → Selection → ℕ
held r s = occ r s.result + openings r s.selected

abbrev pub hit : ℕ → Candidate → ℕ
hit r c = if c.rdr == r then 1 else 0

pub append_result-held :
    (r : ℕ) (c : Candidate) (s : Selection) → held r (append_result c.rdr s) ≤ held r s + hit r c
append_result-held r c s = omega (arith, occ-append r s.result (c.rdr ∷ []))

opening_one : (r : ℕ) (v : StatValue) → openings r (v ∷ []) ≤ (if v.rdr == r then 1 else 0)
opening_one r v = ground arith

pub select-held :
    (r : ℕ) (cfg : Settings) (prefer : Bool) (c : Candidate) (stat : ReaderStat) (s : Selection)
    → held r (select cfg prefer c stat s) ≤ held r s + hit r c
unfolding select
select-held r cfg prefer c stat s = elim (Option-cases (current_of cfg c stat)) [
  | inl e ↦ rw (e, select) (omega (arith, occ-append r s.result (c.rdr ∷ [])))
  | inr (current, e) ↦
      let v = crt_cur c (adjusted c current) stat in
      rw (e, select) (omega (arith, openings-append r s.selected (v ∷ []), opening_one r v))
]

pub value_round-held :
    (r : ℕ) (cfg : Settings) (prefer : Bool) (caid : ℕ) (c : Candidate) (known : Option ReaderStat)
    → (s : Selection) → held r (value_round cfg prefer caid c known s) ≤ held r s + hit r c
unfolding value_stat
value_round-held r cfg prefer caid c none s = append_result-held r c s
value_round-held r cfg prefer caid c (some stat) s =
    elim (Bool-cases (
      negative stat.ecm_count
      || (ltb cfg.lb_max_ecmcount stat.ecm_count && ltb (get_retrylimit cfg caid) stat.time_avg))) [
        | inl a ↦ rw (a, value_stat) (append_result-held r c s)
        | inr a ↦
            elim (Bool-cases (stat.rc == rc_found && ltb stat.ecm_count cfg.lb_min_ecmcount)) [
              | inl b ↦ rw (a, b, value_stat) (append_result-held r c s)
              | inr b ↦ elim (Bool-cases (stat.rc == rc_found || c.hassrvid)) [
                | inl d ↦ rw (a, b, d, value_stat) (select-held r cfg prefer c stat s)
                | inr d ↦ rw (a, b, d, value_stat) (omega arith)
              ]
            ]
      ]

pub value_loop-held :
    (r : ℕ) (cfg : Settings) (prefer : Bool) (caid : ℕ) (cs : List Candidate) (s : Selection)
    → held r (value_loop cfg prefer caid cs s) ≤ held r s + occ r (ids cs)
unfolding value_loop
value_loop-held r cfg prefer caid [] s = omega arith
value_loop-held r cfg prefer caid (c ∷ cs) s = elim (Bool-cases (no_more s.nreaders)) [
  | inl y ↦ rw (y, value_loop) (omega arith)
  | inr n ↦
      let s1 = value_round cfg prefer caid c (s.stats c.rdr) s in
      let step = value_round-held r cfg prefer caid c (s.stats c.rdr) s in
      let ih = value_loop-held r cfg prefer caid cs s1 in
      rw (n, value_loop) (omega (arith, step, ih))
]

openings-Occurs :
    (b : StatValue) (vs : List StatValue)
    → Occurs b vs
    → nonzero b.value ≡ true
    → 1 ≤ openings b.rdr vs
openings-Occurs b [] m e = absurd m
openings-Occurs b (v ∷ vs) (inl p) e = rw p (ground arith)
openings-Occurs b (v ∷ vs) (inr m) e = let ih = openings-Occurs b vs m e in omega arith

openings-taken :
    (r rdr : ℕ) (vs : List StatValue)
    → (rdr == r) ≡ false
    → openings r (taken rdr vs) ≡ openings r vs
openings-taken r rdr [] n = refl
openings-taken r rdr (v ∷ vs) n = let ih = openings-taken r rdr vs n in ground (arith, ih)

openings-taken_own : (rdr : ℕ) (vs : List StatValue) → openings rdr (taken rdr vs) ≡ 0
openings-taken_own rdr [] = refl
openings-taken_own rdr (v ∷ vs) = let ih = openings-taken_own rdr vs in ground (arith, ih)

-- No reader is taken more often than it has values.
abbrev pub Picked : ℕ → Limits → List StatValue → Option (List Pick × List StatValue) → Type 0
Picked r lim vs none = ⊥
Picked r lim vs (some (picks, rest)) = occ r (readers_of picks) ≤ openings r vs

pub Picked-more :
    (r : ℕ) (lim lim' : Limits) (vs : List StatValue) (best : StatValue) (kind : Kind)
    → (d : Option (List Pick × List StatValue)) → nonzero best.value ≡ true
    → Occurs best vs
    → Picked r lim' (taken best.rdr vs) d
    → Picked r lim vs (with_pick best kind d)
Picked-more r lim lim' vs best kind none e m h = h
Picked-more r lim lim' vs best kind (some (picks, rest)) e m h = elim (Bool-cases (best.rdr == r)) [
  | inr n ↦ rw n (omega (arith, h, openings-taken r best.rdr vs n))
  | inl y ↦
      let p : best.rdr ≡ r = ground arith in
      let own = rw p at (openings-taken_own best.rdr vs) in
      let one = rw p at (openings-Occurs best vs m e) in
      rw y (omega (arith, h, rw p at h, own, one))
]

pub pending_values-length : (vs : List StatValue) → pending_values vs ≤ length vs
pending_values-length [] = omega arith
pending_values-length (v ∷ vs) = let ih = pending_values-length vs in ground (arith, ih)

pub eligible-nonzero : (nl : ℕ) (b : StatValue) → eligible nl b ≡ true → nonzero b.value ≡ true
eligible-nonzero nl b e = ground arith

pub choose-Picked :
    (r : ℕ) (lim : Limits) (vs : List StatValue) → Picked r lim vs (choose (suc (length vs)) lim vs)
choose-Picked r lim vs =
    choose-induct (λ lim vs d. Picked r lim vs d) (λ lim vs. omega arith)
      (λ lim lim' vs best kind d n e b m t h.
        Picked-more r lim lim' vs best kind d (eligible-nonzero lim.nlocal_readers best e) m h)
      (suc (length vs)) lim vs (let q = pending_values-length vs in omega arith)
