-- ===== src/Balance/Selection/Reopening.antt =====
-- module-stat.c, the end of `get_best_reader`: readers that have failed are tried again.
use oscam_vdr.Base.{
  ℕ, ◌+◌, ◌-◌, Bool, true, false, ◌&&◌, ◌||◌, not, Option, none, some, List, [], ◌∷◌, ◌++◌, ltb,
  ◌==◌, nonzero, if◌then◌else◌, any, length,
}
use oscam_vdr.Balance.{
  ReaderStat, Settings, negative, positive, rc_found, get_retrylimit, get_reopen_seconds,
}
use oscam_vdr.Balance.Choice.{StatValue, less_one, no_more}
use oscam_vdr.Balance.Selection.Candidates.{Candidate, Stats, with_stat}

-- What the last loops change.
pub record Reopened : Type 0 where
  pub asked : List ℕ
  pub left : Option ℕ
  pub marked : Option ℕ
  pub known : Stats

abbrev pub contains : ℕ → List ℕ → Bool
contains r rs = any (λ x. x == r) rs

-- `stat->last_received + get_reopen_seconds(stat) < current_time`, for the two's complement of it.
abbrev pub is_due : Settings → ℕ → ReaderStat → Bool
is_due cfg now stat =
    let seconds = (get_reopen_seconds cfg stat).0 in
    if negative seconds
    then ltb (stat.last_received + seconds) (now + 4294967296)
    else ltb (stat.last_received + seconds) now

-- `ll_remove(result, rdr)`: the list.
abbrev pub without : ℕ → List ℕ → List ℕ
without rdr [] = []
without rdr (r ∷ rs) = if r == rdr then without rdr rs else r ∷ without rdr rs

-- A reader that has answered before.
abbrev pub last_round : Settings → ℕ → ℕ → Option ReaderStat → Reopened → Reopened
last_round cfg now rdr none s = s
last_round cfg now rdr (some stat) s =
    let s1 = record s { known = with_stat rdr (get_reopen_seconds cfg stat).1 s.known } in
    if positive stat.ecm_count
    then (if is_due cfg now stat && (not (contains rdr s.asked) && not (no_more s.left))
        then record s1 { asked = s.asked ++ (rdr ∷ []); left = less_one s.left }
        else s1)
    else s

-- The loop that reopens the last valid readers.
unfoldable pub reopen_last : Settings → ℕ → List Candidate → Reopened → Reopened
reopen_last cfg now [] s = s
reopen_last cfg now (c ∷ cs) s = reopen_last cfg now cs (last_round cfg now c.rdr (s.known c.rdr) s)

abbrev pub freed : ℕ → Option ℕ → Option ℕ
freed removed none = none
freed removed (some n) = some (n + removed - 1)

-- The node of a reader that is removed is freed, also where `fallback` points to it.
abbrev pub still_marked : ℕ → Option ℕ → Option ℕ
still_marked rdr none = none
still_marked rdr (some r) = if r == rdr then none else some r

-- `nreaders += ll_remove(result, rdr); ll_prepend(result, rdr); nreaders--;`
abbrev pub retry : ℕ → Reopened → Reopened
retry rdr s = record s {
  asked = rdr ∷ without rdr s.asked;
  left = elim s.left [
    | none ↦ none
    | some n ↦ some (n + (length s.asked - length (without rdr s.asked)) - 1)
  ];
  marked = elim s.marked [ none ↦ none | some r ↦ if r == rdr then none else some r ];
}

-- A reader that has failed.
abbrev pub failed_round : Settings → ℕ → ℕ → Option ReaderStat → Reopened → Reopened
failed_round cfg now rdr none s = s
failed_round cfg now rdr (some stat) s =
    let stat1 = if nonzero cfg.lb_reopen_mode then stat else (get_reopen_seconds cfg stat).1 in
    if stat.rc == rc_found
    then s
    else if nonzero cfg.lb_reopen_mode || is_due cfg now stat
    then retry rdr
        (record s { known = with_stat rdr (record stat1 { last_received = now }) s.known })
    else record s { known = with_stat rdr stat1 s.known }

-- The loop that tries readers again that have failed.
unfoldable pub reopen_failed : Settings → ℕ → List Candidate → Reopened → Reopened
reopen_failed cfg now [] s = s
reopen_failed cfg now (c ∷ cs) s =
    let rest = reopen_failed cfg now cs (failed_round cfg now c.rdr (s.known c.rdr) s) in
    if no_more s.left then s else rest

-- `!best_rdr || (best_time && (best_time > retrylimit))`
abbrev pub wants_reopen : ℕ → Option StatValue → Bool
wants_reopen retrylimit none = true
wants_reopen retrylimit (some best) = nonzero best.time && ltb retrylimit best.time

abbrev pub is_none : Option StatValue → Bool
is_none none = true
is_none (some best) = false

-- The part behind the loop that takes readers, `best` the first that it found.
unfoldable pub reopen :
    Settings → ℕ → ℕ → List Candidate → Bool → Option StatValue → Reopened → Reopened
reopen cfg now caid matching new_stats best s =
    if not new_stats && ltb (length s.asked) (length matching)
    then (let s1 = if is_none best then reopen_last cfg now matching s else s in
        if wants_reopen (get_retrylimit cfg caid) best
        then reopen_failed cfg now matching s1
        else s1)
    else s
