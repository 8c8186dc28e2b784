-- ===== src/Balance/Selection.antt =====
-- module-stat.c, `get_best_reader`: from the readers that match to those that are asked. It is given
-- the statistics that `get_stat` finds of each reader for the service. Left out before it are the
-- card that a CCcam client prefers and the automatic tunnel, behind it the times `lb_last` and
-- `nulltime` for later calls.
pub mod Candidates
pub mod Reopening
pub mod Counts
pub mod Valued
pub mod Asked
use oscam_vdr.Base.{
  ℕ, zero, suc, ◌+◌, ◌-◌, ◌*◌, ◌/◌, Bool, true, false, ◌&&◌, ◌||◌, not, Option, none, some, List,
  [], ◌∷◌, ◌++◌, ltb, leb, ◌==◌, nonzero, if◌then◌else◌, any, length, u32,
}
use oscam_vdr.Balance.{
  ReaderStat, Settings, negative, positive, under, rc_found, rc_timeout, get_retrylimit,
  get_nbest_readers, get_reopen_seconds,
}
use oscam_vdr.Balance.Choice.{
  StatValue, Limits, start_limits, Kind, primary, fallback, Pick, best_of, less_one, no_more,
  choose,
}
use oscam_vdr.Balance.Selection.Candidates.{ids, Candidate, Stats, reset, with_stat}
use oscam_vdr.Balance.Selection.Reopening.{
  Reopened, contains, is_due, without, last_round, reopen_last, freed, still_marked, retry,
  failed_round, reopen_failed, wants_reopen, is_none, reopen,
}

-- `LB_FASTEST_READER_FIRST`, `LB_OLDEST_READER_FIRST`, `LB_LOWEST_USAGELEVEL` and `LB_LOG_ONLY`
abbrev pub fastest_first : ℕ
fastest_first = 1

abbrev pub oldest_first : ℕ
oldest_first = 2

abbrev pub lowest_usage : ℕ
lowest_usage = 3

abbrev pub log_only : ℕ
log_only = 10

-- The variables of the function. `fallback` is the reader at that node, none where it is no node of
-- `result`.
pub record Selection : Type 0 where
  pub result : List ℕ
  pub selected : List StatValue
  pub nreaders : Option ℕ
  pub nlocal_readers : ℕ
  pub new_stats : Bool
  pub stats : Stats

-- `ll_append(result, rdr); nreaders--;`
abbrev pub append_result : ℕ → Selection → Selection
append_result rdr s = record s { result = s.result ++ (rdr ∷ []); nreaders = less_one s.nreaders }

-- `current` before it is changed; none for a mode that has no value. No product overflows.
abbrev pub current_of : Settings → Candidate → ReaderStat → Option ℕ
current_of cfg c stat =
    let weight = if under 1 c.lb_weight then 100 else c.lb_weight in
    if cfg.lb_mode == fastest_first
    then some (stat.time_avg * 100 / weight)
    else if cfg.lb_mode == oldest_first
    then some c.age
    else if cfg.lb_mode == lowest_usage
    then some (c.lb_usagelevel * 100 / weight)
    else none

-- What the availability and the open requests of a reader make of it.
abbrev pub doubled : Option Bool → ℕ → ℕ
doubled none current = current
doubled (some true) current = current
doubled (some false) current = current * 2

abbrev pub adjusted : Candidate → ℕ → ℕ
adjusted c current =
    let value = doubled c.available current in
    let waiting = if nonzero c.pending then value * c.pending else value in
    if waiting == 0 then 1 else waiting

-- `crt_cur`
abbrev pub crt_cur : Candidate → ℕ → ReaderStat → StatValue
crt_cur c value stat = record {
  rdr = c.rdr;
  value = value;
  time = stat.time_avg;
  network = c.network;
  timeout = leb rc_timeout stat.rc;
}

-- A reader that can decode the service.
unfoldable pub select : Settings → Bool → Candidate → ReaderStat → Selection → Selection
select cfg preferlocalcards c stat s =
    let s1 = record s {
      nlocal_readers =
          if preferlocalcards && not c.network then s.nlocal_readers + 1 else s.nlocal_readers;
    } in
    elim (current_of cfg c stat) [
      | none ↦ append_result c.rdr s1
      | some current ↦ record s1 {
        selected = s1.selected ++ (crt_cur c (adjusted c current) stat ∷ []);
      }
    ]

-- The round of the first loop for a reader that has statistics.
unfoldable pub value_stat : Settings → Bool → ℕ → Candidate → ReaderStat → Selection → Selection
value_stat cfg preferlocalcards caid c stat s =
    if negative stat.ecm_count
      || (ltb cfg.lb_max_ecmcount stat.ecm_count && ltb (get_retrylimit cfg caid) stat.time_avg)
    then record (append_result c.rdr s) { stats = λ r. reset (s.stats r) }
    else if stat.rc == rc_found && ltb stat.ecm_count cfg.lb_min_ecmcount
    then record (append_result c.rdr s) { new_stats = true }
    else if stat.rc == rc_found || c.hassrvid
    then select cfg preferlocalcards c stat s
    else s

-- The round for a reader with what is known of it.
abbrev pub value_round : Settings → Bool → ℕ → Candidate → Option ReaderStat → Selection → Selection
value_round cfg preferlocalcards caid c none s = record (append_result c.rdr s) { new_stats = true }
value_round cfg preferlocalcards caid c (some stat) s =
    value_stat cfg preferlocalcards caid c stat s

-- The first loop.
unfoldable pub value_loop : Settings → Bool → ℕ → List Candidate → Selection → Selection
value_loop cfg preferlocalcards caid [] s = s
value_loop cfg preferlocalcards caid (c ∷ cs) s =
    let rest =
      value_loop cfg preferlocalcards caid cs
        (value_round cfg preferlocalcards caid c (s.stats c.rdr) s) in
    if no_more s.nreaders then s else rest

abbrev pub readers_of : List Pick → List ℕ
readers_of [] = []
readers_of (p ∷ ps) = p.chosen.rdr ∷ readers_of ps

abbrev pub first_fallback : List Pick → Option ℕ
first_fallback [] = none
first_fallback (p ∷ ps) = elim p.kind [ primary ↦ first_fallback ps | fallback ↦ some p.chosen.rdr ]

-- `nreaders` behind the loop that takes readers.
abbrev pub nreaders_after : List Pick → Option ℕ → Option ℕ
nreaders_after [] n = n
nreaders_after (p ∷ ps) n = nreaders_after ps (elim p.kind [ primary ↦ less_one n | fallback ↦ n ])

-- From the values to the readers that are asked.
unfoldable pub finish_selection : Settings → ℕ → ℕ → List Candidate → Selection → Option Reopened
finish_selection cfg now caid matching s =
    let lim =
      start_limits s.nlocal_readers (get_nbest_readers cfg caid) cfg.lb_nfb_readers s.nreaders in
    elim (choose (suc (length s.selected)) lim s.selected) [
      | none ↦ none
      | some (picks, rest) ↦ some (
          reopen cfg now caid matching s.new_stats
            (if no_more lim.nreaders then none else best_of lim.nlocal_readers s.selected none)
            (record {
              asked = s.result ++ readers_of picks;
              left = nreaders_after picks s.nreaders;
              marked = first_fallback picks;
              known = s.stats;
            }))
    ]

-- `get_best_reader`; `marked` is `er->fallback`, and `lb_max_readers` of 0 is no limit.
unfoldable pub get_best_reader :
    Settings → Bool → ℕ → ℕ → ℕ → Option ℕ → List Candidate → Stats → Option Reopened
get_best_reader cfg preferlocalcards lb_max_readers now caid marked matching stats =
    let nreaders = if lb_max_readers == 0 then none else some lb_max_readers in
    if cfg.lb_mode == 0 || cfg.lb_mode == log_only
    then some (record { asked = ids matching; left = nreaders; marked = marked; known = stats })
    else finish_selection cfg now caid matching (
        value_loop cfg preferlocalcards caid matching (record {
          result = [];
          selected = [];
          nreaders = nreaders;
          nlocal_readers = 0;
          new_stats = false;
          stats = stats;
        }))
