-- ===== src/Balance/Selection/Asked.antt =====
-- About how often a reader is among those that are asked.
use oscam_vdr.Base.{
  ◌||◌, ℕ, suc, ◌+◌, ◌≤◌, ◌≡◌, Bool, false, ◌&&◌, ◌||◌, not, Option, none, some, List, [], ◌∷◌, ltb,
  ◌==◌, nonzero, if◌then◌else◌, length, All, Bool-cases, Option-cases, inl, inr, arith,
}
use oscam_vdr.Balance.{ReaderStat, Settings, rc_found, get_retrylimit, get_nbest_readers, positive}
use oscam_vdr.Balance.Choice.{StatValue, start_limits, no_more, choose}
use oscam_vdr.Balance.Selection.Candidates.{ids, Candidate, Stats}
use oscam_vdr.Balance.Selection.Reopening.{
  Reopened, contains, is_due, without, last_round, reopen_last, retry, failed_round, reopen_failed,
  wants_reopen, is_none, reopen,
}
use oscam_vdr.Balance.Selection.{
  log_only, Selection, value_loop, readers_of, finish_selection, get_best_reader,
}
use oscam_vdr.Balance.Selection.Counts.{
  occ, occ-append, contains-occ, occ-without, occ-without_own, listed,
}
use oscam_vdr.Balance.Selection.Valued.{held, value_loop-held, choose-Picked}

module _ (r bound : ℕ) where
  -- A reader that is put into the list, in which it is not, leaves the bound.
  once :
      (rdr : ℕ) (rs : List ℕ)
      → (rdr ≡ r → 1 ≤ bound)
      → occ r rs ≤ bound
      → occ rdr rs ≡ 0
      → (if rdr == r then 1 else 0) + occ r rs ≤ bound
  once rdr rs one h z = elim (Bool-cases (rdr == r)) [
    | inr n ↦ rw n (omega arith)
    | inl y ↦
        let p : rdr ≡ r = ground arith in let q = one p in let z' = rw p at z in rw y (omega arith)
  ]

  last_round-bound :
      (cfg : Settings) (now rdr : ℕ) (known : Option ReaderStat) (s : Reopened)
      → (rdr ≡ r → 1 ≤ bound)
      → occ r s.asked ≤ bound
      → occ r (last_round cfg now rdr known s).asked ≤ bound
  last_round-bound cfg now rdr none s one h = h
  last_round-bound cfg now rdr (some stat) s one h = elim (Bool-cases (positive stat.ecm_count)) [
    | inr n ↦ rw n h
    | inl y ↦
        elim (Bool-cases
          (is_due cfg now stat && (not (contains rdr s.asked) && not (no_more s.left)))) [
            | inr n ↦ rw (y, n) h
            | inl t ↦
                let absent : contains rdr s.asked ≡ false = ground arith in
                let k = once rdr s.asked one h (contains-occ rdr s.asked absent) in
                rw (y, t) (omega (arith, k, occ-append r s.asked (rdr ∷ [])))
          ]
  ]

  reopen_last-bound :
      (cfg : Settings) (now : ℕ) (cs : List Candidate) (s : Reopened)
      → All (λ c. c.rdr ≡ r → 1 ≤ bound) cs
      → occ r s.asked ≤ bound
      → occ r (reopen_last cfg now cs s).asked ≤ bound
  unfolding reopen_last
  reopen_last-bound cfg now [] s a h = h
  reopen_last-bound cfg now (c ∷ cs) s a h =
      reopen_last-bound cfg now cs (last_round cfg now c.rdr (s.known c.rdr) s) a.1
        (last_round-bound cfg now c.rdr (s.known c.rdr) s a.0 h)

  retry-bound :
      (rdr : ℕ) (s : Reopened)
      → (rdr ≡ r → 1 ≤ bound)
      → occ r s.asked ≤ bound
      → occ r (retry rdr s).asked ≤ bound
  retry-bound rdr s one h =
      once rdr (without rdr s.asked) one (let q = occ-without r rdr s.asked in omega arith)
        (occ-without_own rdr s.asked)

  failed_round-bound :
      (cfg : Settings) (now rdr : ℕ) (known : Option ReaderStat) (s : Reopened)
      → (rdr ≡ r → 1 ≤ bound)
      → occ r s.asked ≤ bound
      → occ r (failed_round cfg now rdr known s).asked ≤ bound
  failed_round-bound cfg now rdr none s one h = h
  failed_round-bound cfg now rdr (some stat) s one h = elim (Bool-cases (stat.rc == rc_found)) [
    | inl y ↦ rw y h
    | inr n ↦ elim (Bool-cases (nonzero cfg.lb_reopen_mode || is_due cfg now stat)) [
      | inr m ↦ rw (n, m) h
      | inl t ↦ rw (n, t) (retry-bound rdr s one h)
    ]
  ]

  reopen_failed-bound :
      (cfg : Settings) (now : ℕ) (cs : List Candidate) (s : Reopened)
      → All (λ c. c.rdr ≡ r → 1 ≤ bound) cs
      → occ r s.asked ≤ bound
      → occ r (reopen_failed cfg now cs s).asked ≤ bound
  unfolding reopen_failed
  reopen_failed-bound cfg now [] s a h = h
  reopen_failed-bound cfg now (c ∷ cs) s a h = elim (Bool-cases (no_more s.left)) [
    | inl y ↦ rw (y, reopen_failed) h
    | inr n ↦
        rw (n, reopen_failed)
          (reopen_failed-bound cfg now cs (failed_round cfg now c.rdr (s.known c.rdr) s) a.1
            (failed_round-bound cfg now c.rdr (s.known c.rdr) s a.0 h))
  ]

  reopen-bound :
      (cfg : Settings) (now caid : ℕ) (cs : List Candidate) (fresh : Bool) (best : Option StatValue)
      → (s : Reopened) → All (λ c. c.rdr ≡ r → 1 ≤ bound) cs
      → occ r s.asked ≤ bound
      → occ r (reopen cfg now caid cs fresh best s).asked ≤ bound
  unfolding reopen
  reopen-bound cfg now caid cs fresh best s a h =
      elim (Bool-cases (not fresh && ltb (length s.asked) (length cs))) [
        | inr n ↦ rw (n, reopen) h
        | inl y ↦
            let s1 = if is_none best then reopen_last cfg now cs s else s in
            let h1 : occ r s1.asked ≤ bound = elim (Bool-cases (is_none best)) [
              | inl e ↦ rw e (reopen_last-bound cfg now cs s a h)
              | inr e ↦ rw e h
            ] in
            elim (Bool-cases (wants_reopen (get_retrylimit cfg caid) best)) [
              | inl e ↦ rw (y, e, reopen) (reopen_failed-bound cfg now cs s1 a h1)
              | inr e ↦ rw (y, e, reopen) h1
            ]
      ]

-- The readers that are asked, with no bound where there are none.
abbrev pub Asks : ℕ → ℕ → Option Reopened → Type 0
Asks r bound none = ⊥
Asks r bound (some d) = occ r d.asked ≤ bound

listed_own :
    (r : ℕ) (all cs : List Candidate)
    → All (λ c. 1 ≤ occ c.rdr (ids all)) cs
    → All (λ c. c.rdr ≡ r → 1 ≤ occ r (ids all)) cs
listed_own r all [] a = tt
listed_own r all (c ∷ cs) a = (λ e. rw e at a.0, listed_own r all cs a.1)

finish_selection-Asks :
    (cfg : Settings) (now caid : ℕ) (matching : List Candidate) (s : Selection) (r : ℕ)
    → held r s ≤ occ r (ids matching)
    → Asks r (occ r (ids matching)) (finish_selection cfg now caid matching s)
unfolding finish_selection
finish_selection-Asks cfg now caid matching s r valued =
    let lim =
      start_limits s.nlocal_readers (get_nbest_readers cfg caid) cfg.lb_nfb_readers s.nreaders in
    let own = listed_own r matching matching (listed matching matching (λ t. omega arith)) in
    elim (Option-cases (choose (suc (length s.selected)) lim s.selected)) [
      | inl f ↦ absurd (rw f at (choose-Picked r lim s.selected))
      | inr ((picks, rest), f) ↦
          let k = rw f at (choose-Picked r lim s.selected) in
          rw (f, finish_selection)
            (reopen-bound r (occ r (ids matching)) cfg now caid matching s.new_stats _ _ own
              (omega (arith, k, valued, occ-append r s.result (readers_of picks))))
    ]

-- `get_best_reader` ends, and asks no reader more often than it matches: none that does not match,
-- and none twice if none matches twice, whatever the statistics, the mode and the limits are.
pub get_best_reader-Asks :
    (cfg : Settings) (prefer : Bool) (lb_max_readers now caid : ℕ) (marked : Option ℕ)
    → (matching : List Candidate) (stats : Stats) (r : ℕ)
    → Asks r
        (occ r (ids matching))
        (get_best_reader cfg prefer lb_max_readers now caid marked matching stats)
unfolding get_best_reader
get_best_reader-Asks cfg prefer lb_max_readers now caid marked matching stats r =
    elim (Bool-cases (cfg.lb_mode == 0 || cfg.lb_mode == log_only)) [
      | inl y ↦ rw (y, get_best_reader) (omega arith)
      | inr n ↦
          let s0 : Selection = record {
            result = [];
            selected = [];
            nreaders = if lb_max_readers == 0 then none else some lb_max_readers;
            nlocal_readers = 0;
            new_stats = false;
            stats = stats;
          } in
          let s = value_loop cfg prefer caid matching s0 in
          let valued : held r s ≤ occ r (ids matching) =
            (let q = value_loop-held r cfg prefer caid matching s0 in omega arith) in
          rw (n, get_best_reader) (finish_selection-Asks cfg now caid matching s r valued)
    ]
