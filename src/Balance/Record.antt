-- ===== src/Balance/Record.antt =====
-- module-stat.c: `add_stat`, which records the answer of a reader to an ECM. Logging, and the
-- threads that it starts to save the statistics and to remove old ones, are left out.
pub mod Rings
pub mod Branches
use oscam_vdr.Base.{
  ℕ, zero, suc, ◌+◌, ◌-◌, ◌*◌, ◌/◌, Bool, true, false, ◌&&◌, ◌||◌, not, Option, none, some, List,
  [], ◌∷◌, ltb, leb, ◌==◌, nonzero, if◌then◌else◌, u32, set,
}
use oscam_vdr.Access.{EcmRequest}
use oscam_vdr.Balance.{
  ReaderStat, Settings, negative, positive, get_prid, inc_fail, calc_stat, rc_found, rc_notfound,
  rc_timeout,
}
use oscam_vdr.Balance.Stats.{StatEntry, Place, entries, get_stat, get_add_stat}

-- The load balancer's fields of `struct s_reader`.
pub record ReaderLoad : Type 0 where
  pub lb_stat : List StatEntry
  pub lb_usagelevel : ℕ
  pub lb_usagelevel_ecmcount : ℕ
  pub lb_usagelevel_time : ℕ

-- What `add_stat` is called with besides the request and the reader: the time, the login time of
-- the reader's client and its pending ECMs, the time of the answer in ms and its code.
pub record Answer : Type 0 where
  pub ctime : ℕ
  pub login : ℕ
  pub pending : ℕ
  pub ecm_time : ℕ
  pub rc : ℕ

-- The nodes of `er->matching_rdr` with their readers, `er->fallback`, and whether the client of the
-- request is still there.
pub record Matching : Type 0 where
  pub client : Bool
  pub nodes : List (ℕ × ℕ)
  pub fallback : ℕ

-- The answer time less the fallback timeout, if the reader stands at or behind the fallback node.
abbrev pub fallback_loop : ℕ → ℕ → ℕ → Bool → List (ℕ × ℕ) → ℕ → ℕ
fallback_loop ftimeout fallback rdr is_fallback [] ecm_time = ecm_time
fallback_loop ftimeout fallback rdr is_fallback (node ∷ nodes) ecm_time =
    let behind = is_fallback || node.0 == fallback in
    let rest = fallback_loop ftimeout fallback rdr behind nodes ecm_time in
    if node.1 == rdr
    then (if behind && leb ftimeout ecm_time then ecm_time - ftimeout else ecm_time)
    else rest

abbrev pub reader_time : Settings → Matching → ℕ → ℕ → ℕ
reader_time cfg m rdr ecm_time =
    if m.client then fallback_loop cfg.ftimeout m.fallback rdr false m.nodes ecm_time else ecm_time

-- `time_idx` goes round the entries of `time_stat`.
abbrev pub store_time : ℕ → ReaderStat → ReaderStat
store_time ecm_time stat =
    let idx = if leb 10 (stat.time_idx + 1) then 0 else stat.time_idx + 1 in
    calc_stat (record stat { time_idx = idx; time_stat = set stat.time_stat idx ecm_time })

unfoldable pub on_found : ℕ → ℕ → ReaderStat → ReaderStat
on_found ctime time stat = store_time time (record stat {
  rc = 0;
  ecm_count = u32 (stat.ecm_count + 1);
  last_received = ctime;
  fail_factor = 0;
})

-- `ecm_time < 100` for the signed time.
abbrev pub at_least_100 : ℕ → ℕ
at_least_100 time = if negative time || ltb time 100 then 100 else time

unfoldable pub on_notfound : Settings → Answer → ReaderStat → ReaderStat
on_notfound cfg a stat =
    let again =
      if stat.rc == rc_notfound
      then record stat { time_avg = u32 (stat.time_avg + at_least_100 a.ecm_time) }
      else stat in
    let failed = inc_fail cfg.overflowed (record again { rc = rc_notfound }) in
    let received = record failed { last_received = a.ctime } in
    if cfg.lb_reopen_mode == 0
    then record received { ecm_count = received.ecm_count / 10 }
    else received

-- `(int)(ctime-stat->last_received) < (int)(5*cfg.ctimeout)`, without overflow
abbrev pub sudden : Settings → Answer → ReaderStat → Bool
sudden cfg a stat = ltb a.ctime (stat.last_received + 5 * cfg.ctimeout)

-- `(cl->login+(int)(2*cfg.ctimeout/1000)) < ctime && cl->pending < 5`
abbrev pub settled : Settings → Answer → Bool
settled cfg a = ltb (a.login + 2 * cfg.ctimeout / 1000) a.ctime && ltb a.pending 5

unfoldable pub on_timeout : Settings → Answer → ReaderStat → ReaderStat
on_timeout cfg a stat =
    let fresh = stat.rc == 0 && stat.ecm_count == 0 in
    let blocked =
      if sudden cfg a stat && fresh
      then record stat { rc = rc_timeout }
      else if settled cfg a && fresh
      then inc_fail cfg.overflowed (record stat { rc = rc_timeout })
      else stat in
    let time =
      if not (positive a.ecm_time) || ltb cfg.ctimeout a.ecm_time
      then cfg.ctimeout
      else a.ecm_time in
    store_time time (record blocked { last_received = a.ctime })

abbrev pub received : ℕ → ReaderStat → ReaderStat
received ctime stat = record stat { last_received = ctime }

abbrev pub at_place : (ReaderStat → ReaderStat) → Place → List StatEntry
at_place f p = entries (record p { here = record p.here { stat = f p.here.stat } })

-- A list whose entry, if `get_stat` found one, was changed.
abbrev pub if_place : (ReaderStat → ReaderStat) → List StatEntry → Option Place → List StatEntry
if_place f es none = es
if_place f es (some p) = at_place f p

unfoldable pub usagelevel : Settings → ℕ → ReaderLoad → ReaderLoad
usagelevel cfg ctime r =
    let ule = r.lb_usagelevel_ecmcount in
    let t = if ltb (ctime - r.lb_usagelevel_time) 1 then 1 else ctime - r.lb_usagelevel_time in
    let full = nonzero ule && nonzero (ule / cfg.lb_min_ecmcount) in
    record r {
      lb_usagelevel = if full then 1000 / t else r.lb_usagelevel;
      lb_usagelevel_ecmcount = if full then 1 else ule + 1;
      lb_usagelevel_time = if full || ule == 0 then ctime else r.lb_usagelevel_time;
    }

-- `E2_CCCAM_NOK1`, `E2_CCCAM_NOK2`, `E2_CCCAM_LOOP` and `E2_WRONG_CHKSUM`
abbrev pub passing : ℕ → Bool
passing rc_ex = rc_ex == 40 || rc_ex == 41 || rc_ex == 48 || rc_ex == 49

-- A "not found" that took as long as the client waits counts as a timeout.
abbrev pub effective_rc : Settings → Answer → ℕ
effective_rc cfg a = if a.rc == rc_notfound && leb cfg.ctimeout a.ecm_time then rc_timeout else a.rc

-- The statistics behind the answer; `rdr` names the reader.
unfoldable pub recorded :
    Settings → Matching → ℕ → EcmRequest → Answer → List StatEntry → List StatEntry
recorded cfg m rdr er a es =
    let tab = cfg.lb_noproviderforcaid in
    let prid = get_prid tab er.caid er.prid in
    let known = get_stat tab er.caid prid er.srvid er.l es in
    let place = get_add_stat tab er.caid prid er.srvid er.l es in
    let rc = effective_rc cfg a in
    if rc == rc_found
    then at_place (on_found a.ctime (reader_time cfg m rdr a.ecm_time)) place
    else if rc == 1 || rc == 2
    then if_place (received a.ctime) es known
    else if rc == rc_notfound
    then (if passing er.rc_ex
        then if_place (received a.ctime) es known
        else at_place (on_notfound cfg a) place)
    else if rc == rc_timeout
    then at_place (on_timeout cfg a) place
    else es

-- `client` is whether the reader has a client.
unfoldable pub add_stat :
    Settings → Bool → Matching → ℕ → EcmRequest → Answer → ReaderLoad → ReaderLoad
add_stat cfg client m rdr er a r =
    let rest = if effective_rc cfg a == rc_found then usagelevel cfg a.ctime r else r in
    if cfg.lb_mode == 0 || not client
    then r
    else record rest { lb_stat = recorded cfg m rdr er a r.lb_stat }
