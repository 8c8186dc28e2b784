-- ===== src/Balance.antt =====
-- module-stat.c, the load balancer: its settings, and the statistics that it keeps of each reader.
-- An `int32_t` is its bits, below 2 ^ 32, so that 2 ^ 31 and more is negative.
pub mod Stats
pub mod Times
pub mod Record
pub mod Choice
pub mod Selection
mod Tests
use oscam_vdr.Base.{
  ℕ, zero, suc, ◌+◌, ◌*◌, ◌/◌, Bool, true, false, ◌&&◌, ◌||◌, List, [], ◌∷◌, ltb, leb, ◌==◌,
  if◌then◌else◌, u32,
}

abbrev pub negative : ℕ → Bool
negative n = leb 2147483648 n

abbrev pub positive : ℕ → Bool
positive n = ltb 0 n && ltb n 2147483648

abbrev pub undef_avg_time : ℕ
undef_avg_time = 80000

-- The codes `E_FOUND`, `E_NOTFOUND` and `E_TIMEOUT`.
abbrev pub rc_found : ℕ
rc_found = 0

abbrev pub rc_notfound : ℕ
rc_notfound = 4

abbrev pub rc_timeout : ℕ
rc_timeout = 5

-- `READER_STAT`; `time_stat` has `LB_MAX_STAT_TIME` entries.
pub record ReaderStat : Type 0 where
  pub rc : ℕ
  pub caid : ℕ
  pub prid : ℕ
  pub srvid : ℕ
  pub ecmlen : ℕ
  pub last_received : ℕ
  pub ecm_count : ℕ
  pub time_avg : ℕ
  pub time_stat : List ℕ
  pub time_idx : ℕ
  pub fail_factor : ℕ

-- The settings of `struct s_config` that the load balancer reads. A table of caids is the list of
-- its entries, those of `lb_retrylimittab` and `lb_nbest_readers_tab` with their values. `overflowed`
-- is no setting: it is any number, that which an `int` has after a doubling that overflows.
pub record Settings : Type 0 where
  pub ctimeout : ℕ
  pub ftimeout : ℕ
  pub lb_mode : ℕ
  pub lb_nbest_readers : ℕ
  pub lb_nfb_readers : ℕ
  pub lb_min_ecmcount : ℕ
  pub lb_max_ecmcount : ℕ
  pub lb_reopen_seconds : ℕ
  pub lb_reopen_mode : ℕ
  pub lb_retrylimit : ℕ
  pub lb_stat_cleanup : ℕ
  pub lb_retrylimittab : List (ℕ × ℕ)
  pub lb_nbest_readers_tab : List (ℕ × ℕ)
  pub lb_noproviderforcaid : List ℕ
  pub overflowed : ℕ

-- `n < bound` for a signed `n`.
abbrev pub under : ℕ → ℕ → Bool
under bound n = negative n || ltb n bound

-- What `init_stat` makes of the settings.
unfoldable pub init_stat : Settings → Settings
init_stat cfg = record cfg {
  lb_nbest_readers = if under 2 cfg.lb_nbest_readers then 1 else cfg.lb_nbest_readers;
  lb_nfb_readers = if under 2 cfg.lb_nfb_readers then 1 else cfg.lb_nfb_readers;
  lb_min_ecmcount = if under 2 cfg.lb_min_ecmcount then 5 else cfg.lb_min_ecmcount;
  lb_max_ecmcount = if under 3 cfg.lb_max_ecmcount then 500 else cfg.lb_max_ecmcount;
  lb_reopen_seconds = if under 10 cfg.lb_reopen_seconds then 900 else cfg.lb_reopen_seconds;
  lb_retrylimit = if under 1 cfg.lb_retrylimit then 800 else cfg.lb_retrylimit;
  lb_stat_cleanup = if under 1 cfg.lb_stat_cleanup then 336 else cfg.lb_stat_cleanup;
}

-- The loop of `get_prid` over the table.
abbrev pub get_prid : List ℕ → ℕ → ℕ → ℕ
get_prid [] caid prid = prid
get_prid (tcaid ∷ tab) caid prid =
    let rest = get_prid tab caid prid in
    if tcaid == 0
    then prid
    else if tcaid == caid
    then 0
    else if ltb tcaid 256 && caid / 256 == tcaid
    then 0
    else rest

-- `lb_retrylimittab` and `lb_nbest_readers_tab`
abbrev pub value_for : List (ℕ × ℕ) → ℕ → ℕ → ℕ
value_for [] caid default = default
value_for (entry ∷ tab) caid default =
    let rest = value_for tab caid default in if entry.0 == caid then entry.1 else rest

abbrev pub get_retrylimit : Settings → ℕ → ℕ
get_retrylimit cfg caid = value_for cfg.lb_retrylimittab caid cfg.lb_retrylimit

abbrev pub get_nbest_readers : Settings → ℕ → ℕ
get_nbest_readers cfg caid = value_for cfg.lb_nbest_readers_tab caid cfg.lb_nbest_readers

-- The caid that a Nagra caid is tunnelled to, or 0.
abbrev pub get_betatunnel_caid_to : ℕ → ℕ
get_betatunnel_caid_to caid =
    if caid == 6145
    then 5922
    else if caid == 6195
    then 5890
    else if caid == 6196
    then 5922
    else if caid == 6197
    then 5922
    else 0

-- The first argument is what a doubling that overflows comes to, which C leaves open.
unfoldable pub inc_fail : ℕ → ReaderStat → ReaderStat
inc_fail overflowed stat =
    if negative stat.fail_factor || stat.fail_factor == 0
    then record stat { fail_factor = 1 }
    else record stat {
      fail_factor = if ltb stat.fail_factor 1073741824 then stat.fail_factor * 2 else overflowed;
    }

-- `if (stat->fail_factor > max) stat->fail_factor = max;`
abbrev pub limited : ℕ → ℕ → ℕ
limited max factor = if negative factor then factor else if ltb max factor then max else factor

-- The seconds, and the statistics with their fail factor limited. `INT_MAX` is 2 ^ 31 - 1.
unfoldable pub get_reopen_seconds : Settings → ReaderStat → ℕ × ReaderStat
get_reopen_seconds cfg stat =
    let factor = limited (2147483647 / cfg.lb_reopen_seconds) stat.fail_factor in
    (
      if factor == 0 then cfg.lb_reopen_seconds else u32 (factor * cfg.lb_reopen_seconds),
      record stat { fail_factor = factor },
    )

-- The sum and the number of the times in the loop of `calc_stat`.
abbrev pub time_sum : List ℕ → ℕ → ℕ → ℕ × ℕ
time_sum [] t c = (t, c)
time_sum (time ∷ times) t c =
    time_sum times (if positive time then u32 (t + time) else t)
      (if positive time then c + 1 else c)

unfoldable pub calc_stat : ReaderStat → ReaderStat
calc_stat stat =
    let (t, c) = time_sum stat.time_stat 0 0 in
    record stat { time_avg = if c == 0 then undef_avg_time else t / c }
